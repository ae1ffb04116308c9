-- ===== src/Operation/Service.antt =====
-- The methods of `Service`: `ClaimNext`, `Execute` and the resolutions that `Execute` ends in.
use mail_suite.Base.{
  Text, Bool, true, false, not, Option, none, some, [], ◌∷◌, is_empty, if◌then◌else◌,
}
use mail_suite.Base.Int.{ℤ, pos, ◌+ℤ◌, ◌-ℤ◌, leb_ℤ, ltb_ℤ, wrap64}
use mail_suite.Errors.{
  ErrorClass, retryable, permanent, unknown, invalid_claim, Error, plain, Result, ok, fail,
}
use mail_suite.Mailcore.{
  ObservedMailbox, EnsureMailboxCommand, InspectMailboxQuery, classify_error, error_code_unknown,
  error_code_not_converged, error_code_newer_revision, payload_version,
}
use mail_suite.Operation.{Status, ClaimRequest, ClaimedMailboxOperation, Resolution}
use mail_suite.Operation.Config.{Config, retry_delay, valid_claim, matches_desired}
use mail_suite.Operation.World.{
  Context, with_deadline, effective_deadline, clock_read, ensured, inspected, claimed, resolved,
  History, World,
}

-- Only these two statuses are retried.
abbrev pub is_retrying : Status → Bool
is_retrying Status.retry_wait = true
is_retrying Status.unknown = true
is_retrying _ = false

abbrev pub inspects_first : Status → Bool
inspects_first Status.unknown = true
inspects_first Status.running = true
inspects_first _ = false

-- The `Resolution` that `resolve` builds from the current lease.
abbrev pub receipt :
    Config → ClaimedMailboxOperation → Status → Text → Option ObservedMailbox → Resolution
receipt config op status error_code observation = record {
  operation_id = op.operation_id;
  attempt_number = op.attempt_number;
  lease_owner_id = op.lease_owner_id;
  lease_epoch = op.lease_epoch;
  desired_revision = op.desired_revision;
  status = status;
  next_attempt_delay = if is_retrying status then retry_delay config op.attempt_number else pos 0;
  error_code = error_code;
  observation = observation;
}

module _ (w : World) (config : Config) where
  unfoldable pub claim_next : Context → History → Result (Option ClaimedMailboxOperation) × History
  claim_next ctx h =
      let request : ClaimRequest = record {
        owner_id = config.owner_id;
        lease_duration = config.lease_duration;
        max_attempts = config.max_attempts;
      } in
      (w.claim_mailbox_operation h ctx request, claimed ctx request ∷ h)

  unfoldable pub resolve :
      Context
      → ClaimedMailboxOperation
      → Status
      → Text
      → Option ObservedMailbox
      → History
      → Option Error × History
  resolve ctx op status error_code observation h =
      let r : Resolution = receipt config op status error_code observation in
      (w.resolve_mailbox_operation h ctx r, resolved ctx r ∷ h)

  -- `ClassifyError` never gives an empty code for an error, so the test for one changes nothing.
  unfoldable pub resolve_adapter_failure :
      Context
      → ClaimedMailboxOperation
      → ErrorClass
      → Error
      → Option ObservedMailbox
      → History
      → Option Error × History
  resolve_adapter_failure ctx op class err observation h =
      let (_, code) = classify_error (some err) in
      let error_code : Text = if is_empty code then error_code_unknown else code in
      let exhausted : Bool = leb_ℤ config.max_attempts op.attempt_number in
      elim class [
        | permanent ↦ resolve ctx op Status.failed error_code observation h
        | retryable ↦
            resolve ctx op (if exhausted then Status.dead else Status.retry_wait) error_code
              observation h
        | _ ↦
            resolve ctx op (if exhausted then Status.dead else Status.unknown) error_code
              observation h
      ]

  unfoldable pub resolve_uncertain :
      Context
      → ClaimedMailboxOperation
      → Text
      → Option ObservedMailbox
      → History
      → Option Error × History
  resolve_uncertain ctx op error_code observation h =
      let status : Status =
        if leb_ℤ config.max_attempts op.attempt_number then Status.dead else Status.unknown in
      resolve ctx op status error_code observation h

  unfoldable pub inspect :
      Context → ClaimedMailboxOperation → ℤ → History → Result ObservedMailbox × History
  inspect ctx op deadline h =
      let query : InspectMailboxQuery = record {
        mailbox_id = op.mailbox_id;
        domain_id = op.domain_id;
        address = op.address;
        desired_revision = op.desired_revision;
        configuration_hash = op.configuration_hash;
        deadline = deadline;
      } in
      (w.inspect_mailbox h ctx query, inspected ctx query ∷ h)

  -- The end of `Execute`: what the second reading of the mailbox is worth.
  unfoldable pub conclude :
      Context → ClaimedMailboxOperation → Result ObservedMailbox → History → Option Error × History
  conclude ctx op (fail err) h = resolve_adapter_failure ctx op unknown err none h
  conclude ctx op (ok observation) h =
      if matches_desired op observation
      then resolve ctx op Status.succeeded [] (some observation) h
      else resolve_uncertain ctx op
          (if ltb_ℤ op.desired_revision observation.revision
            then error_code_newer_revision
            else error_code_not_converged)
          (some observation) h

  -- What `Execute` does with the answer to the ensure command.
  unfoldable pub after_ensure :
      Context
      → Context
      → ClaimedMailboxOperation
      → ℤ
      → Option Error
      → History
      → Option Error × History
  unfolding inspect
  after_ensure ctx adapter_ctx op deadline (some err) h =
      resolve_adapter_failure ctx op (classify_error (some err)).0 err none h
  after_ensure ctx adapter_ctx op deadline none h =
      let (read, h') = inspect adapter_ctx op deadline h in conclude ctx op read h'

  -- The part of `Execute` from the ensure command on; `ctx` is the context of the attempt.
  unfoldable pub ensure_then_inspect :
      Context → Context → ClaimedMailboxOperation → ℤ → History → Option Error × History
  ensure_then_inspect ctx adapter_ctx op deadline h =
      let command : EnsureMailboxCommand = record {
        operation_id = op.operation_id;
        mailbox_id = op.mailbox_id;
        domain_id = op.domain_id;
        address = op.address;
        desired_revision = op.desired_revision;
        configuration_hash = op.configuration_hash;
        payload_version = payload_version;
        deadline = deadline;
      } in
      after_ensure ctx adapter_ctx op deadline (w.ensure_mailbox h adapter_ctx command)
        (ensured adapter_ctx command ∷ h)

  -- The early reading of a mailbox whose earlier attempt may have had its effect.
  unfoldable pub after_first_inspect :
      Context
      → Context
      → ClaimedMailboxOperation
      → ℤ
      → Result ObservedMailbox
      → History
      → Option Error × History
  after_first_inspect ctx adapter_ctx op deadline (fail err) h =
      resolve_adapter_failure ctx op unknown err none h
  after_first_inspect ctx adapter_ctx op deadline (ok observation) h =
      if matches_desired op observation
      then resolve ctx op Status.succeeded [] (some observation) h
      else if ltb_ℤ op.desired_revision observation.revision
      then resolve_uncertain ctx op error_code_newer_revision (some observation) h
      else ensure_then_inspect ctx adapter_ctx op deadline h

  -- `Execute` once the deadlines are fixed.
  unfoldable pub run_adapter :
      Context → Context → ClaimedMailboxOperation → ℤ → History → Option Error × History
  run_adapter ctx adapter_ctx op deadline h =
      if inspects_first op.prior_status
      then (let (read, h') = inspect adapter_ctx op deadline h in
          after_first_inspect ctx adapter_ctx op deadline read h')
      else ensure_then_inspect ctx adapter_ctx op deadline h

  -- The deadline that `Execute` gives the attempt, from the clock and the lease.
  unfoldable pub attempt_deadline : ℤ → ClaimedMailboxOperation → ℤ
  unfolding wrap64 ◌+ℤ◌
  attempt_deadline now op =
      let budget : ℤ = now +ℤ wrap64 (config.attempt_timeout +ℤ config.lease_safety_margin) in
      if ltb_ℤ op.lease_expires_at budget then op.lease_expires_at else budget

  unfoldable pub execute : Context → ClaimedMailboxOperation → History → Option Error × History
  unfolding ◌-ℤ◌
  execute ctx op h =
      if not (valid_claim config op)
      then (some (plain invalid_claim), h)
      else let h1 : History = clock_read ∷ h in
        let planned : ℤ = attempt_deadline (w.now h) op in
        let attempt_ctx : Context = with_deadline ctx planned in
        let adapter_deadline : ℤ =
          effective_deadline attempt_ctx planned -ℤ config.lease_safety_margin in
        let h2 : History = clock_read ∷ h1 in
        if leb_ℤ adapter_deadline (w.now h1)
        then resolve_uncertain attempt_ctx op error_code_unknown none h2
        else run_adapter attempt_ctx (with_deadline attempt_ctx adapter_deadline) op
            adapter_deadline h2
