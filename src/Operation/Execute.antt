-- ===== src/Operation/Execute.antt =====
-- `Execute` branch by branch: every way through it is an `Ends`.
use mail_suite.Base.{
  ◌≡◌, refl, inl, inr, true, Option, none, some, [], ◌∷◌, ◌++◌, All, arith, Bool-cases,
}
use mail_suite.Base.Int.{ℤ, ◌≤ℤ◌, ◌+ℤ◌, ◌-ℤ◌, leb_ℤ, int_laws}
use mail_suite.Errors.{unknown, Error, Result, ok, fail}
use mail_suite.Mailcore.{
  ObservedMailbox, EnsureMailboxCommand, InspectMailboxQuery, matches_error_code,
  error_code_not_converged, error_code_newer_revision,
}
use mail_suite.Operation.{ClaimedMailboxOperation}
use mail_suite.Operation.Config.{Config, valid_claim}
use mail_suite.Operation.World.{
  Context, earliest, clock_read, ensured, inspected, History, World, receipts,
}
use mail_suite.Operation.Service.{
  inspects_first, inspect, conclude, after_ensure, ensure_then_inspect, after_first_inspect,
  run_adapter, attempt_deadline, execute,
}
use mail_suite.Operation.Settled.{
  inspect_call, ensure_call, calls, Protocol, idle, looked, applied, checked, reapplied, rechecked,
  IsUnder, Ends, failure-Ends, timeout-Ends, success-Ends, uncertain-Ends,
}

codes_match :
    (matches_error_code error_code_newer_revision ≡ true)
    × (matches_error_code error_code_not_converged ≡ true)
unfolding matches_error_code
codes_match = (refl, refl)

module _ (w : World) (config : Config) (op : ClaimedMailboxOperation) (ctx adapter_ctx : Context)
    (h : History) where
  two_ticks : All (IsUnder adapter_ctx) (clock_read ∷ clock_read ∷ [])
  two_ticks = (tt, (tt, tt))

  conclude-Ends :
      (q : InspectMailboxQuery) (k : History) (r : Result ObservedMailbox)
      → w.inspect_mailbox (k ++ h) adapter_ctx q ≡ r
      → receipts k ≡ []
      → Protocol (inspects_first op.prior_status) (inspect_call ∷ calls k)
      → All (IsUnder adapter_ctx) k
      → Ends w config op ctx adapter_ctx h
          (conclude w config ctx op r (inspected adapter_ctx q ∷ k ++ h))
  unfolding conclude
  conclude-Ends q k (fail e) read silent order under =
      failure-Ends w config op ctx adapter_ctx h unknown e (inspected adapter_ctx q ∷ k) silent
        order (refl, under)
  conclude-Ends q k (ok o) read silent order under = ground (
    arith,
    codes_match,
    success-Ends w config op ctx adapter_ctx h o q k read silent order under,
    uncertain-Ends w config op ctx adapter_ctx h o q k read silent order under
        error_code_newer_revision,
    uncertain-Ends w config op ctx adapter_ctx h o q k read silent order under
        error_code_not_converged,
  )

  after_ensure-Ends :
      (deadline : ℤ) (command : EnsureMailboxCommand) (answer : Option Error) (k : History)
      → receipts k ≡ []
      → Protocol (inspects_first op.prior_status) (ensure_call ∷ calls k)
      → Protocol (inspects_first op.prior_status) (inspect_call ∷ ensure_call ∷ calls k)
      → All (IsUnder adapter_ctx) k
      → Ends w config op ctx adapter_ctx h (
          after_ensure w config ctx adapter_ctx op deadline answer
            (ensured adapter_ctx command ∷ k ++ h))
  unfolding after_ensure
  after_ensure-Ends deadline command (some e) k silent order order' under =
      failure-Ends w config op ctx adapter_ctx h _ e (ensured adapter_ctx command ∷ k) silent order
        (refl, under)
  after_ensure-Ends deadline command none k silent order order' under =
      conclude-Ends _ (ensured adapter_ctx command ∷ k) _ refl silent order' (refl, under)

  ensure-Ends :
      (deadline : ℤ) (k : History)
      → receipts k ≡ []
      → Protocol (inspects_first op.prior_status) (ensure_call ∷ calls k)
      → Protocol (inspects_first op.prior_status) (inspect_call ∷ ensure_call ∷ calls k)
      → All (IsUnder adapter_ctx) k
      → Ends w config op ctx adapter_ctx h
          (ensure_then_inspect w config ctx adapter_ctx op deadline (k ++ h))
  unfolding ensure_then_inspect
  ensure-Ends deadline k silent order order' under =
      after_ensure-Ends deadline _ _ k silent order order' under

  first_inspect-Ends :
      (deadline : ℤ) (q : InspectMailboxQuery) (r : Result ObservedMailbox)
      → inspects_first op.prior_status ≡ true
      → w.inspect_mailbox (clock_read ∷ clock_read ∷ h) adapter_ctx q ≡ r
      → Ends w config op ctx adapter_ctx h (
          after_first_inspect w config ctx adapter_ctx op deadline r
            (inspected adapter_ctx q ∷ clock_read ∷ clock_read ∷ h))
  unfolding after_first_inspect
  first_inspect-Ends deadline q (fail e) first read =
      failure-Ends w config op ctx adapter_ctx h unknown e
        (inspected adapter_ctx q ∷ clock_read ∷ clock_read ∷ []) refl (rw first looked)
        (refl, two_ticks)
  first_inspect-Ends deadline q (ok o) first read = ground (
    arith,
    codes_match,
    success-Ends w config op ctx adapter_ctx h o q (clock_read ∷ clock_read ∷ []) read refl
        (rw first looked) two_ticks,
    uncertain-Ends w config op ctx adapter_ctx h o q (clock_read ∷ clock_read ∷ []) read refl
        (rw first looked) two_ticks error_code_newer_revision,
    ensure-Ends deadline (inspected adapter_ctx q ∷ clock_read ∷ clock_read ∷ []) refl
        (rw first reapplied) (rw first rechecked) (refl, two_ticks),
  )

  run-Ends :
      (deadline : ℤ)
      → Ends w config op ctx adapter_ctx h
          (run_adapter w config ctx adapter_ctx op deadline (clock_read ∷ clock_read ∷ h))
  unfolding run_adapter inspect
  run-Ends deadline = elim (Bool-cases (inspects_first op.prior_status)) [
    | inl first ↦ rw first (first_inspect-Ends deadline _ _ first refl)
    | inr fresh ↦ rw fresh (
        ensure-Ends deadline (clock_read ∷ clock_read ∷ []) refl (rw fresh applied)
          (rw fresh checked) two_ticks)
  ]

-- An attempt and its two deadlines: the receipt is due before the lease runs out, and the calls of
-- the mail core stop a safety margin before the receipt is due.
pub record Attempt (w : World) (config : Config) (op : ClaimedMailboxOperation) (h : History)
    (result : Option Error × History) : Type 0 where
  pub ctx : Context
  pub adapter_ctx : Context
  pub due : ℤ
  pub stop : ℤ
  pub run : Ends w config op ctx adapter_ctx h result
  pub ctx_due : ctx.deadline ≡ some due
  pub adapter_stop : adapter_ctx.deadline ≡ some stop
  pub in_lease : due ≤ℤ op.lease_expires_at
  pub in_margin : stop +ℤ config.lease_safety_margin ≤ℤ due

earliest-le : (parent : Option ℤ) (d : ℤ) → earliest parent d ≤ℤ d
earliest-le none d = omega arith
earliest-le (some e) d = ground arith

module _ (w : World) (config : Config) (ctx : Context) (op : ClaimedMailboxOperation)
    (h : History) where
  planned : ℤ
  planned = attempt_deadline w config (w.now h) op

  planned-le : planned ≤ℤ op.lease_expires_at
  unfolding planned attempt_deadline
  planned-le = ground arith

  abbrev due : ℤ
  due = earliest ctx.deadline planned

  abbrev stop : ℤ
  stop = earliest (some due) (due -ℤ config.lease_safety_margin)

  -- A claim that passes `validClaim` is always settled: there is no branch without a receipt.
  pub execute-Attempt :
      valid_claim config op ≡ true → Attempt w config op h (execute w config ctx op h)
  unfolding execute planned
  execute-Attempt valid = record {
    ctx = record { deadline = some due };
    adapter_ctx = record { deadline = some stop };
    due = due;
    stop = stop;
    run =
        rw valid
          (elim (Bool-cases (leb_ℤ (due -ℤ config.lease_safety_margin) (w.now (clock_read ∷ h)))) [
            | inl late ↦ rw late (
                timeout-Ends w config op _ _ h (clock_read ∷ clock_read ∷ []) refl idle
                  (tt, (tt, tt)))
            | inr early ↦ rw early (run-Ends w config op _ _ h (due -ℤ config.lease_safety_margin))
          ]);
    ctx_due = refl;
    adapter_stop = refl;
    in_lease = omega (arith, planned-le, earliest-le ctx.deadline planned);
    in_margin = omega (int_laws, earliest-le (some due) (due -ℤ config.lease_safety_margin));
  }
