-- ===== src/Operation/Settled.antt =====
-- How `Execute` ends: in one receipt for the ledger, submitted after the calls that the prior status
-- calls for. The predicates here are read by the theorems of the sibling modules.
use mail_suite.Base.{
  Text, ◌≡◌, refl, ◌≢◌, Bool, true, false, Option, none, some, List, [], ◌∷◌, ◌++◌, All, arith,
  is_empty, if◌then◌else◌,
}
use mail_suite.Base.Int.{◌<ℤ◌}
use mail_suite.Errors.{ErrorClass, permanent, Error, ok}
use mail_suite.Mailcore.{
  ObservedMailbox, InspectMailboxQuery, classify_error, matches_error_code, error_code_unknown,
}
use mail_suite.Mailcore.Classify.{classify_error_stable, unknown_code_matches}
use mail_suite.Operation.{Status, ClaimedMailboxOperation}
use mail_suite.Operation.Config.{Config, matches_desired}
use mail_suite.Operation.World.{
  Context, Event, clock_read, ensured, inspected, claimed, resolved, polled, History, World,
  receipts,
}
use mail_suite.Operation.Service.{
  is_retrying, inspects_first, resolve, resolve_adapter_failure, resolve_uncertain,
}

pub data Call : Type 0 where
  inspect_call ensure_call : Call

-- The calls of the mail core in a history, the latest first.
abbrev pub calls : History → List Call
calls [] = []
calls (ensured ctx c ∷ h) = ensure_call ∷ calls h
calls (inspected ctx q ∷ h) = inspect_call ∷ calls h
calls (clock_read ∷ h) = calls h
calls (claimed ctx r ∷ h) = calls h
calls (resolved ctx r ∷ h) = calls h
calls (polled d ∷ h) = calls h

-- The calls that one attempt may make, the latest first. The flag says whether an earlier attempt
-- may have had its effect, so that the mailbox has to be read before it is written.
pub data Protocol : Bool → List Call → Type 0 where
  idle : {first : Bool} → Protocol first []
  looked : Protocol true (inspect_call ∷ [])
  applied : Protocol false (ensure_call ∷ [])
  checked : Protocol false (inspect_call ∷ ensure_call ∷ [])
  reapplied : Protocol true (ensure_call ∷ inspect_call ∷ [])
  rechecked : Protocol true (inspect_call ∷ ensure_call ∷ inspect_call ∷ [])

-- The events of an attempt before its receipt: readings of the clock, and calls of the mail core
-- under the given context.
abbrev pub IsUnder : Context → Event → Type 0
IsUnder ctx (ensured c cmd) = c ≡ ctx
IsUnder ctx (inspected c q) = c ≡ ctx
IsUnder ctx clock_read = Unit {0}
IsUnder ctx _ = ⊥

-- The statuses that a receipt may carry.
abbrev pub IsOutcome : Status → Type 0
IsOutcome Status.succeeded = Unit {0}
IsOutcome Status.failed = Unit {0}
IsOutcome Status.dead = Unit {0}
IsOutcome Status.retry_wait = Unit {0}
IsOutcome Status.unknown = Unit {0}
IsOutcome _ = ⊥

-- What the observation of a receipt rests on: nothing was seen and success is not claimed, or the
-- latest call read exactly this observation, and success is claimed only if it is what was desired.
pub data Evidence (w : World) (op : ClaimedMailboxOperation) (h : History)
    : Status → Option ObservedMailbox → History → Type 0 where
  unseen :
      {status : Status} {fresh : History}
      → status ≢ Status.succeeded
      → Evidence w op h status none fresh
  seen :
      {status : Status} {o : ObservedMailbox} {ctx : Context} {q : InspectMailboxQuery}
      {k : History}
      → w.inspect_mailbox (k ++ h) ctx q ≡ ok o
      → (status ≡ Status.succeeded → matches_desired op o ≡ true)
      → Evidence w op h status (some o) (inspected ctx q ∷ k)

pub record Ends (w : World) (config : Config) (op : ClaimedMailboxOperation)
    (ctx adapter_ctx : Context) (h : History) (result : Option Error × History) : Type 0 where
  pub status : Status
  pub code : Text
  pub observation : Option ObservedMailbox
  pub fresh : History
  pub ended : result ≡ resolve w config ctx op status code observation (fresh ++ h)
  pub silent : receipts fresh ≡ []
  pub order : Protocol (inspects_first op.prior_status) (calls fresh)
  pub under : All (IsUnder adapter_ctx) fresh
  pub outcome : IsOutcome status
  pub budget : is_retrying status ≡ true → op.attempt_number <ℤ config.max_attempts
  pub coded : status ≢ Status.succeeded → matches_error_code code ≡ true
  pub plain_success : status ≡ Status.succeeded → code ≡ []
  pub evidence : Evidence w op h status observation fresh

stored_code :
    (e : Error)
    → let code = (classify_error (some e)).1 in
      matches_error_code (if is_empty code then error_code_unknown else code) ≡ true
stored_code e = ground (arith, classify_error_stable e, unknown_code_matches)

module _ (w : World) (config : Config) (op : ClaimedMailboxOperation) (ctx adapter_ctx : Context)
    (h : History) where
  -- A receipt without an observation.
  unseen-Ends :
      (status : Status) (code : Text) (fresh : History)
      → receipts fresh ≡ []
      → Protocol (inspects_first op.prior_status) (calls fresh)
      → All (IsUnder adapter_ctx) fresh
      → IsOutcome status
      → status ≢ Status.succeeded
      → (is_retrying status ≡ true → op.attempt_number <ℤ config.max_attempts)
      → matches_error_code code ≡ true
      → Ends w config op ctx adapter_ctx h (resolve w config ctx op status code none (fresh ++ h))
  unseen-Ends status code fresh silent order under outcome ne budget coded = record {
    status = status;
    code = code;
    observation = none;
    fresh = fresh;
    ended = refl;
    silent = silent;
    order = order;
    under = under;
    outcome = outcome;
    budget = budget;
    coded = λ _. coded;
    plain_success = λ e. absurd (ne e);
    evidence = unseen ne;
  }

  -- An error of the mail core ends the attempt without success.
  pub failure-Ends :
      (class : ErrorClass) (err : Error) (fresh : History)
      → receipts fresh ≡ []
      → Protocol (inspects_first op.prior_status) (calls fresh)
      → All (IsUnder adapter_ctx) fresh
      → Ends w config op ctx adapter_ctx h
          (resolve_adapter_failure w config ctx op class err none (fresh ++ h))
  unfolding resolve_adapter_failure
  failure-Ends permanent err fresh silent order under =
      unseen-Ends _ _ fresh silent order under tt (λ e. cc) (λ e. cc) (stored_code err)
  failure-Ends _ err fresh silent order under =
      let code : Text = (classify_error (some err)).1 in
      let stored : Text = if is_empty code then error_code_unknown else code in
      ground (
        arith,
        unseen-Ends Status.dead stored fresh,
        unseen-Ends Status.retry_wait stored fresh,
        unseen-Ends Status.unknown stored fresh,
        stored_code err,
      )

  -- The attempt finds no time for the mail core.
  pub timeout-Ends :
      (fresh : History)
      → receipts fresh ≡ []
      → Protocol (inspects_first op.prior_status) (calls fresh)
      → All (IsUnder adapter_ctx) fresh
      → Ends w config op ctx adapter_ctx h
          (resolve_uncertain w config ctx op error_code_unknown none (fresh ++ h))
  unfolding resolve_uncertain
  timeout-Ends fresh silent order under = ground (
    arith,
    unseen-Ends Status.dead error_code_unknown fresh,
    unseen-Ends Status.unknown error_code_unknown fresh,
    unknown_code_matches,
  )

  module _ (o : ObservedMailbox) (q : InspectMailboxQuery) (k : History)
      (read : w.inspect_mailbox (k ++ h) adapter_ctx q ≡ ok o) (silent : receipts k ≡ [])
      (order : Protocol (inspects_first op.prior_status) (inspect_call ∷ calls k))
      (under : All (IsUnder adapter_ctx) k) where
    -- A receipt with the observation that was read last.
    seen-Ends :
        (status : Status) (code : Text)
        → IsOutcome status
        → (status ≡ Status.succeeded → matches_desired op o ≡ true)
        → (is_retrying status ≡ true → op.attempt_number <ℤ config.max_attempts)
        → (status ≢ Status.succeeded → matches_error_code code ≡ true)
        → (status ≡ Status.succeeded → code ≡ [])
        → Ends w config op ctx adapter_ctx h
            (resolve w config ctx op status code (some o) (inspected adapter_ctx q ∷ k ++ h))
    seen-Ends status code outcome desired budget coded plain_success = record {
      status = status;
      code = code;
      observation = some o;
      fresh = inspected adapter_ctx q ∷ k;
      ended = refl;
      silent = silent;
      order = order;
      under = (refl, under);
      outcome = outcome;
      budget = budget;
      coded = coded;
      plain_success = plain_success;
      evidence = seen read desired;
    }

    pub success-Ends :
        matches_desired op o ≡ true
        → Ends w config op ctx adapter_ctx h (
            resolve w config ctx op Status.succeeded [] (some o) (inspected adapter_ctx q ∷ k ++ h))
    success-Ends m =
        seen-Ends Status.succeeded [] tt (λ _. m) (λ e. cc) (λ n. absurd (n refl)) (λ _. refl)

    pub uncertain-Ends :
        (code : Text)
        → matches_error_code code ≡ true
        → Ends w config op ctx adapter_ctx h
            (resolve_uncertain w config ctx op code (some o) (inspected adapter_ctx q ∷ k ++ h))
    unfolding resolve_uncertain
    uncertain-Ends code coded =
        ground (arith, seen-Ends Status.dead code, seen-Ends Status.unknown code)
