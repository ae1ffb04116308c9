-- ===== src/Operation/Loop.antt =====
-- The loop of `Runner.Run` with the service as its executor.
use mail_suite.Base.{
  ℕ, zero, suc, ◌+◌, ◌≤◌, ◌≡◌, refl, ◌≢◌, ◌⊎◌, inl, inr, true, false, Option, none, some, [], ◌∷◌,
  ◌++◌, All, arith, Bool-cases,
}
use mail_suite.Base.Int.{ℤ}
use mail_suite.Errors.{Error, Result, ok, fail}
use mail_suite.Operation.{ClaimedMailboxOperation}
use mail_suite.Operation.Config.{Config, valid_claim}
use mail_suite.Operation.World.{
  Context, without_cancel, clock_read, ensured, inspected, claimed, resolved, polled, History,
  World,
}
use mail_suite.Operation.Service.{claim_next, execute, resolve}
use mail_suite.Operation.Settled.{IsUnder}
use mail_suite.Operation.Execute.{execute-Attempt}
use mail_suite.Operation.Runner.{
  Executor, Turn, stop, again, returned, running, after_execute, after_claim, turn, run,
}

-- The service as an executor.
abbrev pub service : World → Config → Executor
service w config = record { claim_next = claim_next w config; execute = execute w config }

-- How often the ledger was asked for a task.
abbrev pub claims : History → ℕ
claims [] = 0
claims (claimed c r ∷ h) = suc (claims h)
claims (clock_read ∷ h) = claims h
claims (ensured c x ∷ h) = claims h
claims (inspected c x ∷ h) = claims h
claims (resolved c x ∷ h) = claims h
claims (polled d ∷ h) = claims h

-- Every claim in a history was made while the context was not cancelled.
abbrev pub ClaimedLive : World → History → Type 0
ClaimedLive w [] = Unit
ClaimedLive w (claimed c r ∷ h) = (w.is_done h ≡ false) × ClaimedLive w h
ClaimedLive w (clock_read ∷ h) = ClaimedLive w h
ClaimedLive w (ensured c x ∷ h) = ClaimedLive w h
ClaimedLive w (inspected c x ∷ h) = ClaimedLive w h
ClaimedLive w (resolved c x ∷ h) = ClaimedLive w h
ClaimedLive w (polled d ∷ h) = ClaimedLive w h

-- The events of an attempt claim nothing.
under-claims : (ac : Context) (f h : History) → All (IsUnder ac) f → claims (f ++ h) ≡ claims h
under-claims ac [] h u = refl
under-claims ac (clock_read ∷ f) h u = under-claims ac f h u.1
under-claims ac (ensured c x ∷ f) h u = under-claims ac f h u.1
under-claims ac (inspected c x ∷ f) h u = under-claims ac f h u.1
under-claims ac (claimed c x ∷ f) h u = absurd u.0
under-claims ac (resolved c x ∷ f) h u = absurd u.0
under-claims ac (polled d ∷ f) h u = absurd u.0

under-ClaimedLive :
    (w : World) (ac : Context) (f h : History)
    → All (IsUnder ac) f
    → ClaimedLive w h
    → ClaimedLive w (f ++ h)
under-ClaimedLive w ac [] h u l = l
under-ClaimedLive w ac (clock_read ∷ f) h u l = under-ClaimedLive w ac f h u.1 l
under-ClaimedLive w ac (ensured c x ∷ f) h u l = under-ClaimedLive w ac f h u.1 l
under-ClaimedLive w ac (inspected c x ∷ f) h u l = under-ClaimedLive w ac f h u.1 l
under-ClaimedLive w ac (claimed c x ∷ f) h u l = absurd u.0
under-ClaimedLive w ac (resolved c x ∷ f) h u l = absurd u.0
under-ClaimedLive w ac (polled d ∷ f) h u l = absurd u.0

module _ (w : World) (config : Config) (ctx : Context) where
  -- A claim that is refused leaves no trace.
  execute_refused :
      (op : ClaimedMailboxOperation) (h : History)
      → valid_claim config op ≡ false
      → (execute w config ctx op h).1 ≡ h
  unfolding execute
  execute_refused op h e = rw e

  claims-execute :
      (op : ClaimedMailboxOperation) (h : History) → claims (execute w config ctx op h).1 ≡ claims h
  unfolding resolve
  claims-execute op h = elim (Bool-cases (valid_claim config op)) [
    | inl valid ↦
        let a = execute-Attempt w config ctx op h valid in
        rw a.run.ended (under-claims a.adapter_ctx a.run.fresh h a.run.under)
    | inr refused ↦ rw (execute_refused op h refused)
  ]

  ClaimedLive-execute :
      (op : ClaimedMailboxOperation) (h : History)
      → ClaimedLive w h
      → ClaimedLive w (execute w config ctx op h).1
  unfolding resolve
  ClaimedLive-execute op h l = elim (Bool-cases (valid_claim config op)) [
    | inl valid ↦
        let a = execute-Attempt w config ctx op h valid in
        rw a.run.ended (under-ClaimedLive w a.adapter_ctx a.run.fresh h a.run.under l)
    | inr refused ↦ rw (execute_refused op h refused) l
  ]

module _ (w : World) (config : Config) (poll_interval : ℤ) (ctx : Context) where
  pub history-after_execute :
      (err : Option Error) (h : History)
      → (after_execute w (service w config) poll_interval err h).1 ≡ h
  unfolding after_execute
  history-after_execute none h = refl
  history-after_execute (some e) h = ground arith

  claims-after_claim :
      (r : Result (Option ClaimedMailboxOperation)) (h : History)
      → claims (after_claim w (service w config) poll_interval ctx r h).1 ≡ claims h
  unfolding after_claim
  claims-after_claim (fail e) h = refl
  claims-after_claim (ok none) h = refl
  claims-after_claim (ok (some op)) h =
      rw history-after_execute (claims-execute w config (without_cancel ctx) op h)

  ClaimedLive-after_claim :
      (r : Result (Option ClaimedMailboxOperation)) (h : History)
      → ClaimedLive w h
      → ClaimedLive w (after_claim w (service w config) poll_interval ctx r h).1
  unfolding after_claim
  ClaimedLive-after_claim (fail e) h l = l
  ClaimedLive-after_claim (ok none) h l = l
  ClaimedLive-after_claim (ok (some op)) h l =
      rw history-after_execute (ClaimedLive-execute w config (without_cancel ctx) op h l)

  -- A round asks for exactly one task unless the context is cancelled.
  claims-turn :
      (h : History)
      → (turn w (service w config) poll_interval ctx h).0 ≡ again
      → claims (turn w (service w config) poll_interval ctx h).1 ≡ suc (claims h)
  unfolding turn claim_next
  claims-turn h e = elim (Bool-cases (w.is_done h)) [
    | inl done ↦ absurd (cc (rw done at e))
    | inr live ↦ rw live (claims-after_claim _ (claimed ctx _ ∷ h))
  ]

  ClaimedLive-turn :
      (h : History)
      → ClaimedLive w h
      → ClaimedLive w (turn w (service w config) poll_interval ctx h).1
  unfolding turn claim_next
  ClaimedLive-turn h l = elim (Bool-cases (w.is_done h)) [
    | inl done ↦ rw done l
    | inr live ↦ rw live (ClaimedLive-after_claim _ (claimed ctx _ ∷ h) (live, l))
  ]

done_turn :
    (w : World) (config : Config) (poll_interval : ℤ) (ctx : Context) (h : History)
    → w.is_done h ≡ true
    → (turn w (service w config) poll_interval ctx h).0 ≡ stop none
unfolding turn
done_turn w config poll_interval ctx h e = rw e

pub Turn-cases : (t : Turn) → (t ≡ again) ⊎ ((e : Option Error) × (t ≡ stop e))
Turn-cases again = inl refl
Turn-cases (stop e) = inr (e, refl)

module _ (w : World) (x : Executor) (poll_interval : ℤ) (ctx : Context) (fuel : ℕ)
    (h : History) where
  pub run-again :
      (turn w x poll_interval ctx h).0 ≡ again
      → run w x poll_interval (suc fuel) ctx h
        ≡ run w x poll_interval fuel ctx (turn w x poll_interval ctx h).1
  unfolding run
  run-again e = rw (e, run)

  pub run-stop :
      {err : Option Error}
      → (turn w x poll_interval ctx h).0 ≡ stop err
      → run w x poll_interval (suc fuel) ctx h ≡ (returned err, (turn w x poll_interval ctx h).1)
  unfolding run
  run-stop e = rw (e, run)

-- However long the loop runs, it asks the ledger for a task only while its context is not cancelled:
-- if that held of the requests made before, it holds of all of them.
pub claims_before_cancel :
    (w : World) (config : Config) (poll_interval : ℤ) (ctx : Context) (fuel : ℕ) (h : History)
    → ClaimedLive w h
    → ClaimedLive w (run w (service w config) poll_interval fuel ctx h).1
unfolding run
claims_before_cancel w config poll_interval ctx zero h l = l
claims_before_cancel w config poll_interval ctx (suc fuel) h l =
    let next = turn w (service w config) poll_interval ctx h in
    let live = ClaimedLive-turn w config poll_interval ctx h l in
    elim (Turn-cases next.0) [
      | inl go ↦
          rw (run-again w (service w config) poll_interval ctx fuel h go)
            (claims_before_cancel w config poll_interval ctx fuel next.1 live)
      | inr (e, halt) ↦ rw (run-stop w (service w config) poll_interval ctx fuel h halt) live
    ]

-- The loop ends: if the context is cancelled by the time of the `n`-th request for a task, then a
-- run with fuel for `n + 1` rounds returns.
pub run_returns :
    (w : World) (config : Config) (poll_interval : ℤ) (ctx : Context) (n fuel : ℕ) (h : History)
    → ((k : History) → n ≤ claims k → w.is_done k ≡ true)
    → n ≤ claims h + fuel
    → (run w (service w config) poll_interval (suc fuel) ctx h).0 ≢ running
unfolding run
run_returns w config poll_interval ctx n zero h cancelled enough =
    let done : (turn w (service w config) poll_interval ctx h).0 ≡ stop none =
      done_turn w config poll_interval ctx h (cancelled h (omega arith)) in
    rw (run-stop w (service w config) poll_interval ctx zero h done) (λ e. cc)
run_returns w config poll_interval ctx n (suc fuel) h cancelled enough =
    let next = turn w (service w config) poll_interval ctx h in
    elim (Turn-cases next.0) [
      | inl go ↦ rw (run-again w (service w config) poll_interval ctx (suc fuel) h go) (
          run_returns w config poll_interval ctx n fuel next.1 cancelled
            (omega (arith, claims-turn w config poll_interval ctx h go)))
      | inr (e, halt) ↦
          rw (run-stop w (service w config) poll_interval ctx (suc fuel) h halt) (λ e. cc)
    ]
