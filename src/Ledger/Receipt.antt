-- ===== src/Ledger/Receipt.antt =====
-- Worker and ledger together: what `Execute` submits passes the checks of `validMailboxResolution`.
use Prim.Native.Nat.{min}
use mail_suite.Base.{
  ℕ, zero, suc, ◌*◌, ◌^◌, ◌<◌, ◌≡◌, refl, ◌≢◌, sym, subst, Text, nil_uuid, Bool, true, ◌&&◌, ◌||◌,
  not, Option, none, some, [], ◌∷◌, ◌++◌, is_empty, arith, ◌==◌, if◌then◌else◌,
}
use mail_suite.Base.Int.{ℤ, pos, negsuc, pos_part, ◌<ℤ◌, ◌=ℤ◌, leb_ℤ, ltb_ℤ, IsInt64}
use mail_suite.Errors.{ok}
use mail_suite.Mailcore.{ObservedMailbox, InspectMailboxQuery, matches_error_code}
use mail_suite.Operation.{Status, ClaimedMailboxOperation, Resolution}
use mail_suite.Operation.Config.{Config, valid_claim, retry_delay}
use mail_suite.Operation.Backoff.{IsAccepted, retry_delay_closed, pow_pos}
use mail_suite.Operation.World.{Context, resolved, History, World}
use mail_suite.Operation.Service as service
use mail_suite.Operation.Service.{receipt, execute}
use mail_suite.Operation.Settled.{Evidence, unseen, seen, IsOutcome}
use mail_suite.Operation.Execute.{execute-Attempt}
use mail_suite.Operation.Receipts.{same}
use mail_suite.Ledger.{
  is_some, is_terminal, is_retrying, is_succeeded, xor, max_int32, valid_observation,
  valid_mailbox_resolution,
}

min_pos : (m b k : ℕ) → 0 < b → 0 < m → 0 < min m (b * 2 ^ k)
min_pos m b k p q = grind (arith, pow_pos k)

-- A retry never comes without delay.
delay_pos :
    (config : Config) (attempt : ℤ)
    → IsAccepted config
    → IsInt64 config.max_retry_delay
    → pos 0 <ℤ attempt
    → pos 0 <ℤ retry_delay config attempt
delay_pos config (pos (suc k)) a i h = rw (retry_delay_closed config k a i) (
    omega (
      arith,
      min_pos (pos_part config.max_retry_delay) (pos_part config.base_retry_delay) k (ground arith)
          (ground arith),
    ))
delay_pos config (pos zero) a i h = absurd (omega arith)
delay_pos config (negsuc k) a i h = absurd (omega arith)

Evidence-some :
    (w : World) (op : ClaimedMailboxOperation) (h : History) (status : Status)
    (o : Option ObservedMailbox) (fresh : History)
    → Evidence w op h status o fresh
    → status ≡ Status.succeeded
    → is_some o ≡ true
Evidence-some w op h status none fresh (unseen ne) s = absurd (ne s)
Evidence-some w op h status (some o) fresh (seen read desired) s = refl

claim_named :
    (config : Config) (op : ClaimedMailboxOperation)
    → IsAccepted config
    → valid_claim config op ≡ true
    → not (
        op.operation_id == nil_uuid
        || op.lease_owner_id == nil_uuid
        || leb_ℤ op.lease_epoch (pos 0)
        || leb_ℤ op.attempt_number (pos 0)
        || ltb_ℤ max_int32 op.attempt_number
        || leb_ℤ op.desired_revision (pos 0))
      ≡ true
unfolding valid_claim
claim_named config op a valid = let owner = a.owner in let few = a.attempts_fit in ground arith

-- The part of `validMailboxResolution` that follows the identifiers.
abbrev settled_well : Status → Text → Option ObservedMailbox → ℤ → Bool
settled_well status code o delay =
    (is_terminal status || is_retrying status)
    && not (
        xor (is_retrying status) (ltb_ℤ (pos 0) delay)
        || is_terminal status && not (delay =ℤ pos 0))
    && (if is_succeeded status then is_empty code && is_some o else matches_error_code code)
    && valid_observation o

settles_well :
    (status : Status) (code : Text) (o : Option ObservedMailbox) (delay : ℤ)
    → pos 0 <ℤ delay
    → IsOutcome status
    → (status ≢ Status.succeeded → matches_error_code code ≡ true)
    → (status ≡ Status.succeeded → code ≡ [])
    → (status ≡ Status.succeeded → is_some o ≡ true)
    → valid_observation o ≡ true
    → settled_well status code o (if service.is_retrying status then delay else pos 0) ≡ true
settles_well Status.succeeded code o delay d outcome coded empty found seen_valid =
    let none_left = empty refl in let some_seen = found refl in ground arith
settles_well Status.failed code o delay d outcome coded empty found seen_valid =
    let named = coded (λ e. cc) in ground arith
settles_well Status.dead code o delay d outcome coded empty found seen_valid =
    let named = coded (λ e. cc) in ground arith
settles_well Status.retry_wait code o delay d outcome coded empty found seen_valid =
    let named = coded (λ e. cc) in ground arith
settles_well Status.unknown code o delay d outcome coded empty found seen_valid =
    let named = coded (λ e. cc) in ground arith
settles_well Status.pending code o delay d outcome coded empty found seen_valid = absurd outcome
settles_well Status.running code o delay d outcome coded empty found seen_valid = absurd outcome
settles_well Status.superseded code o delay d outcome coded empty found seen_valid = absurd outcome
settles_well (Status.other s) code o delay d outcome coded empty found seen_valid = absurd outcome

receipt_valid :
    (config : Config) (op : ClaimedMailboxOperation) (status : Status) (code : Text)
    (o : Option ObservedMailbox)
    → IsAccepted config
    → valid_claim config op ≡ true
    → pos 0 <ℤ retry_delay config op.attempt_number
    → IsOutcome status
    → (status ≢ Status.succeeded → matches_error_code code ≡ true)
    → (status ≡ Status.succeeded → code ≡ [])
    → (status ≡ Status.succeeded → is_some o ≡ true)
    → valid_observation o ≡ true
    → valid_mailbox_resolution (receipt config op status code o) ≡ true
unfolding valid_mailbox_resolution
receipt_valid config op status code o a valid d outcome coded empty found seen_valid =
    rw (claim_named config op a valid) (
      settles_well status code o (retry_delay config op.attempt_number) d outcome coded empty found
        seen_valid)

observation_valid :
    (w : World) (op : ClaimedMailboxOperation) (h : History) (status : Status)
    (o : Option ObservedMailbox) (fresh : History)
    → ((k : History) (c : Context) (q : InspectMailboxQuery) (read : ObservedMailbox)
        → w.inspect_mailbox k c q ≡ ok read
        → valid_observation (some read) ≡ true)
    → Evidence w op h status o fresh
    → valid_observation o ≡ true
unfolding valid_observation
observation_valid w op h status none fresh reads (unseen ne) = refl
observation_valid w op h status (some o) fresh reads (seen {ctx = c} {q = q} {k = k} read desired) =
    reads (k ++ h) c q o read

attempt_pos :
    (config : Config) (op : ClaimedMailboxOperation)
    → valid_claim config op ≡ true
    → pos 0 <ℤ op.attempt_number
unfolding valid_claim
attempt_pos config op valid = ground arith

-- Every receipt of `Execute` passes the checks of `validMailboxResolution`, so that the ledger refuses
-- none before its fencing: for an accepted configuration, a valid claim, and a mail core whose
-- readings name a mailbox, a known status, a revision that is not negative and a time that is set.
pub receipt_accepted :
    (w : World) (config : Config) (ctx : Context) (op : ClaimedMailboxOperation) (h : History)
    (c : Context) (r : Resolution) (work : History)
    → ((k : History) (ac : Context) (q : InspectMailboxQuery) (read : ObservedMailbox)
        → w.inspect_mailbox k ac q ≡ ok read
        → valid_observation (some read) ≡ true)
    → IsAccepted config
    → IsInt64 config.max_retry_delay
    → valid_claim config op ≡ true
    → (execute w config ctx op h).1 ≡ resolved c r ∷ work
    → valid_mailbox_resolution r ≡ true
receipt_accepted w config ctx op h c r work reads accepted bound valid e =
    let run = (execute-Attempt w config ctx op h valid).run in
    let (_, of_run, _) = same w config ctx op h valid c r work e in
    subst (λ x. valid_mailbox_resolution x ≡ true) (sym of_run)
      (receipt_valid config op run.status run.code run.observation accepted valid
        (delay_pos config op.attempt_number accepted bound (attempt_pos config op valid))
        run.outcome run.coded run.plain_success
        (Evidence-some w op h run.status run.observation run.fresh run.evidence)
        (observation_valid w op h run.status run.observation run.fresh reads run.evidence))
