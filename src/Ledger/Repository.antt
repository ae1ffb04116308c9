-- ===== src/Ledger/Repository.antt =====
-- The methods of `ProvisioningRepository` that the worker calls. What the database answers to each
-- statement, and to the begin and the commit of a transaction, is an argument.
use mail_suite.Base.{
  ◌≡◌, ◌↔◌, Text, codes, Uuid, nil_uuid, Digest, Bool, true, false, ◌||◌, not, Option, none, some,
  arith, ◌==◌, if◌then◌else◌,
}
use mail_suite.Base.Int.{ℤ, pos, leb_ℤ, ltb_ℤ}
use mail_suite.Errors.{
  Cause, Error, plain, cause_of, Result, ok, fail, is_canceled, is_deadline_exceeded, is_no_rows,
  invalid_configuration, invalid_claim, lease_lost,
}
use mail_suite.Operation.{Status, ClaimRequest, ClaimedMailboxOperation, Resolution}
use mail_suite.Ledger.{max_int32, valid_mailbox_resolution, lease_duration_microseconds}

-- A row that `ClaimMailboxOperation` returns; a configuration hash that is not 32 bytes is none.
pub record ClaimRow : Type 0 where
  pub operation_id : Uuid
  pub tenant_id : Uuid
  pub mailbox_id : Uuid
  pub domain_id : Uuid
  pub address : Text
  pub desired_revision : ℤ
  pub configuration_hash : Option Digest
  pub attempt_number : ℤ
  pub prior_status : Status
  pub lease_owner_id : Uuid
  pub lease_epoch : ℤ
  pub lease_expires_at : Option ℤ

unfoldable pub operation_persistence_error : Error → Error
unfolding is_canceled is_deadline_exceeded
operation_persistence_error err =
    if is_canceled (cause_of err) || is_deadline_exceeded (cause_of err)
    then err
    else plain (Cause.opaque (codes "operation 持久化服务暂不可用"))

unfoldable pub claimed_of :
    ClaimRow → Option Digest → Option ℤ → Result (Option ClaimedMailboxOperation)
claimed_of row none expires = fail (plain invalid_claim)
claimed_of row (some hash) none = fail (plain invalid_claim)
claimed_of row (some hash) (some expires) = ok (
    some (record {
      operation_id = row.operation_id;
      tenant_id = row.tenant_id;
      mailbox_id = row.mailbox_id;
      domain_id = row.domain_id;
      address = row.address;
      desired_revision = row.desired_revision;
      configuration_hash = hash;
      attempt_number = row.attempt_number;
      prior_status = row.prior_status;
      lease_owner_id = row.lease_owner_id;
      lease_epoch = row.lease_epoch;
      lease_expires_at = expires;
    }))

-- `ClaimMailboxOperation` from the answer to the claiming statement on.
unfoldable pub after_claim_row : Result ClaimRow → Result (Option ClaimedMailboxOperation)
unfolding operation_persistence_error is_no_rows
after_claim_row (fail err) =
    if is_no_rows (cause_of err) then ok none else fail (operation_persistence_error err)
after_claim_row (ok row) = claimed_of row row.configuration_hash row.lease_expires_at

unfoldable pub rejects_request : ClaimRequest → Bool
rejects_request request =
    request.owner_id == nil_uuid
    || not (lease_duration_microseconds request.lease_duration).1
    || leb_ℤ request.max_attempts (pos 0)
    || ltb_ℤ max_int32 request.max_attempts

unfoldable pub claim_mailbox_operation :
    ClaimRequest → Option Error → Result ClaimRow → Result (Option ClaimedMailboxOperation)
unfolding operation_persistence_error
claim_mailbox_operation request finalized row =
    if rejects_request request then fail (plain invalid_configuration) else elim finalized [
      | some err ↦ fail (operation_persistence_error err)
      | none ↦ after_claim_row row
    ]

-- `applied.Valid && applied.Bool`, and the commit.
unfoldable pub after_apply : Option Bool → Option Error → Option Error
unfolding operation_persistence_error
after_apply none commit = some (plain lease_lost)
after_apply (some false) commit = some (plain lease_lost)
after_apply (some true) none = none
after_apply (some true) (some err) = some (operation_persistence_error err)

unfoldable pub after_begin : Option Error → Result (Option Bool) → Option Error → Option Error
unfolding operation_persistence_error
after_begin (some err) applied commit = some (operation_persistence_error err)
after_begin none (fail err) commit = some (operation_persistence_error err)
after_begin none (ok applied) commit = after_apply applied commit

unfoldable pub resolve_mailbox_operation :
    Resolution → Option Error → Result (Option Bool) → Option Error → Option Error
resolve_mailbox_operation resolution begin applied commit =
    if not (valid_mailbox_resolution resolution)
    then some (plain invalid_claim)
    else after_begin begin applied commit

-- `ResolveMailboxOperation` reports success exactly if the receipt is valid, the transaction began,
-- the statement ran and said that it was applied, and the commit succeeded: a receipt that is not
-- committed is never reported as stored.
pub resolve_reports_commit :
    (r : Resolution) (begin : Option Error) (applied : Result (Option Bool)) (commit : Option Error)
    → (resolve_mailbox_operation r begin applied commit ≡ none)
      ↔ (valid_mailbox_resolution r ≡ true)
        × (begin ≡ none)
        × (applied ≡ ok (some true))
        × (commit ≡ none)
unfolding resolve_mailbox_operation after_begin after_apply
resolve_reports_commit r begin applied commit = (λ h. ground arith, λ h. ground arith)
