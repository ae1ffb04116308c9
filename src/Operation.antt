-- ===== src/Operation.antt =====
-- src/backend/internal/operation/operation.go: the records that worker, ledger and adapter exchange.
-- Instants and durations are integers of nanoseconds, an instant from Go's zero time.
pub mod Config
pub mod Backoff
pub mod World
pub mod Service
pub mod Settled
pub mod Execute
pub mod Receipts
pub mod Runner
pub mod Loop
pub mod Rounds
pub mod Tests
use mail_suite.Base.{Text, Uuid, Digest, Option}
use mail_suite.Base.Int.{ℤ}
use mail_suite.Mailcore.{ObservedMailbox}

pub data Status : Type 0 where
  pending running retry_wait unknown succeeded failed dead superseded : Status
  other : Text → Status

pub record ClaimRequest : Type 0 where
  pub owner_id : Uuid
  pub lease_duration : ℤ
  pub max_attempts : ℤ

pub record ClaimedMailboxOperation : Type 0 where
  pub operation_id : Uuid
  pub tenant_id : Uuid
  pub mailbox_id : Uuid
  pub domain_id : Uuid
  pub address : Text
  pub desired_revision : ℤ
  pub configuration_hash : Digest
  pub attempt_number : ℤ
  pub prior_status : Status
  pub lease_owner_id : Uuid
  pub lease_epoch : ℤ
  pub lease_expires_at : ℤ

pub record Resolution : Type 0 where
  pub operation_id : Uuid
  pub attempt_number : ℤ
  pub lease_owner_id : Uuid
  pub lease_epoch : ℤ
  pub desired_revision : ℤ
  pub status : Status
  pub next_attempt_delay : ℤ
  pub error_code : Text
  pub observation : Option ObservedMailbox
