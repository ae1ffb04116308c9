-- ===== src/Ledger.antt =====
-- The operation ledger in PostgreSQL: src/backend/internal/data/postgres/provisioning_repository.go
-- with the statements of src/backend/internal/data/postgres/query/provisioning.sql.
pub mod Rows
pub mod Attempts
pub mod Invariant
pub mod Fencing
pub mod Receipt
pub mod Repository
pub mod Requests
pub mod Lookup
pub mod Replay
pub mod Atomic
mod Tests
use mail_suite.Base.{
  ℕ, suc, ◌/◌, ◌%◌, ◌+◌, Text, Uuid, nil_uuid, Digest, Bool, true, false, ◌&&◌, ◌||◌, not, Option,
  none, some, [], ◌==◌, is_empty, if◌then◌else◌,
}
use mail_suite.Base.Int.{ℤ, pos, negsuc, leb_ℤ, ltb_ℤ, ◌=ℤ◌}
use mail_suite.Errors.{Cause, Error, plain, Result, ok, fail, idempotency_conflict}
use mail_suite.Mailcore.{
  MailboxStatus, absent, active, suspended, ObservedMailbox, matches_error_code,
}
use mail_suite.Operation.{Status, Resolution}
use mail_suite.Provisioning.{RequestMailboxResult}

abbrev pub max_int32 : ℤ
max_int32 = pos 2147483647

unfoldable pub valid_observed_mailbox_status : MailboxStatus → Bool
valid_observed_mailbox_status absent = true
valid_observed_mailbox_status active = true
valid_observed_mailbox_status suspended = true
valid_observed_mailbox_status (MailboxStatus.other s) = false

abbrev pub is_terminal : Status → Bool
is_terminal Status.succeeded = true
is_terminal Status.failed = true
is_terminal Status.dead = true
is_terminal _ = false

abbrev pub is_retrying : Status → Bool
is_retrying Status.retry_wait = true
is_retrying Status.unknown = true
is_retrying _ = false

abbrev pub is_succeeded : Status → Bool
is_succeeded Status.succeeded = true
is_succeeded _ = false

abbrev pub is_some {ℓ} : {A : Type ℓ} → Option A → Bool
is_some none = false
is_some (some a) = true

abbrev pub xor : Bool → Bool → Bool
xor true b = not b
xor false b = b

unfoldable pub valid_observation : Option ObservedMailbox → Bool
unfolding valid_observed_mailbox_status
valid_observation none = true
valid_observation (some o) =
    not (o.mailbox_id == nil_uuid)
    && valid_observed_mailbox_status o.status
    && leb_ℤ (pos 0) o.revision
    && not (o.inspected_at =ℤ pos 0)

unfoldable pub valid_mailbox_resolution : Resolution → Bool
valid_mailbox_resolution r =
    not (
      r.operation_id == nil_uuid
      || r.lease_owner_id == nil_uuid
      || leb_ℤ r.lease_epoch (pos 0)
      || leb_ℤ r.attempt_number (pos 0)
      || ltb_ℤ max_int32 r.attempt_number
      || leb_ℤ r.desired_revision (pos 0))
    && (is_terminal r.status || is_retrying r.status)
    && not (
        xor (is_retrying r.status) (ltb_ℤ (pos 0) r.next_attempt_delay)
        || is_terminal r.status && not (r.next_attempt_delay =ℤ pos 0))
    && (if is_succeeded r.status
        then is_empty r.error_code && is_some r.observation
        else matches_error_code r.error_code)
    && valid_observation r.observation

-- `leaseDurationMicroseconds`: nanoseconds to microseconds, rounded up.
unfoldable pub lease_duration_microseconds : ℤ → ℤ × Bool
lease_duration_microseconds (negsuc d) = (pos 0, false)
lease_duration_microseconds (pos d) =
    if d == 0
    then (pos 0, false)
    else (let whole : ℕ = d / 1000 in
        let microseconds : ℕ = if d % 1000 == 0 then whole else whole + 1 in
        (pos microseconds, not (microseconds == 0)))

unfoldable pub duration_microseconds : ℤ → ℤ
duration_microseconds d = if leb_ℤ d (pos 0) then pos 0 else (lease_duration_microseconds d).0

-- A stored operation as `idempotentResult` reads it.
pub record StoredOperation : Type 0 where
  pub id : Uuid
  pub resource_id : Uuid
  pub request_hash : Digest

unfoldable pub idempotent_result : StoredOperation → Digest → Result RequestMailboxResult
idempotent_result operation request_hash =
    if operation.request_hash == request_hash
    then ok (record {
      mailbox_id = operation.resource_id;
      operation_id = operation.id;
      replayed = true;
    })
    else fail (plain (Cause.provisioning_error idempotency_conflict))
