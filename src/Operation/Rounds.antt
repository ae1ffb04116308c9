-- ===== src/Operation/Rounds.antt =====
-- One round of the loop: a claimed task is carried through, and which errors end the loop.
use mail_suite.Base.{
  ℕ, zero, suc, ◌≡◌, refl, ◌≢◌, inl, inr, true, false, Option, none, some, ◌∷◌, arith, Bool-cases,
  ap, ◌∙◌,
}
use mail_suite.Base.Int.{ℤ}
use mail_suite.Errors.{Error, Result, ok, fail, lease_lost, cause_of, is_lease_lost}
use mail_suite.Operation.{ClaimRequest, ClaimedMailboxOperation, Resolution}
use mail_suite.Operation.Config.{Config, valid_claim}
use mail_suite.Operation.World.{Context, without_cancel, claimed, History, World, receipts}
use mail_suite.Operation.Service.{claim_next, execute}
use mail_suite.Operation.Receipts.{IsFenced, execute_settles}
use mail_suite.Operation.Runner.{stop, returned, after_execute, after_claim, turn, run}
use mail_suite.Operation.Loop.{service, Turn-cases, run-again, run-stop, history-after_execute}

-- The request of a worker for its next task.
abbrev pub request : Config → ClaimRequest
request config = record {
  owner_id = config.owner_id;
  lease_duration = config.lease_duration;
  max_attempts = config.max_attempts;
}

-- A valid task that the ledger hands out is settled in the same round by one fenced receipt, also
-- when the context is cancelled right after the claim.
pub turn_settles :
    (w : World) (config : Config) (poll_interval : ℤ) (ctx : Context) (h : History)
    (op : ClaimedMailboxOperation)
    → w.is_done h ≡ false
    → w.claim_mailbox_operation h ctx (request config) ≡ ok (some op)
    → valid_claim config op ≡ true
    → (r : Resolution) × (receipts (turn w (service w config) poll_interval ctx h).1
        ≡ r ∷ receipts h)
      × IsFenced op r
unfolding turn claim_next after_claim
turn_settles w config poll_interval ctx h op live found valid =
    let h' : History = claimed ctx (request config) ∷ h in
    let (c, r, work, last, _, silent, fenced) =
      execute_settles w config (without_cancel ctx) op h' valid in
    (r, rw (live, found, history-after_execute) (ap receipts last ∙ ap (λ l. r ∷ l) silent), fenced)

-- Why a run may end with an error: the ledger could not be asked for a task, or the execution of a
-- task failed, but not because its lease was lost.
pub data Fatal (w : World) (config : Config) (ctx : Context) (err : Error) : Type 0 where
  claim_failed :
      (h : History)
      → w.claim_mailbox_operation h ctx (request config) ≡ fail err
      → Fatal w config ctx err
  execution_failed :
      (op : ClaimedMailboxOperation) (h : History)
      → (execute w config (without_cancel ctx) op h).0 ≡ some err
      → cause_of err ≢ lease_lost
      → Fatal w config ctx err

module _ (w : World) (config : Config) (poll_interval : ℤ) (ctx : Context) (err : Error) where
  after_execute-Fatal :
      (e : Option Error) (h : History)
      → (after_execute w (service w config) poll_interval e h).0 ≡ stop (some err)
      → (e ≡ some err) × (cause_of err ≢ lease_lost)
  unfolding after_execute is_lease_lost
  after_execute-Fatal none h s = absurd (cc)
  after_execute-Fatal (some e) h s = ground arith

  after_claim-Fatal :
      (h : History) (r : Result (Option ClaimedMailboxOperation)) (h' : History)
      → w.claim_mailbox_operation h ctx (request config) ≡ r
      → (after_claim w (service w config) poll_interval ctx r h').0 ≡ stop (some err)
      → Fatal w config ctx err
  unfolding after_claim
  after_claim-Fatal h (fail e) h' asked s = claim_failed h (asked ∙ ground arith)
  after_claim-Fatal h (ok none) h' asked s = absurd (ground arith)
  after_claim-Fatal h (ok (some op)) h' asked s =
      let (failed, kept) =
        after_execute-Fatal (execute w config (without_cancel ctx) op h').0
          (execute w config (without_cancel ctx) op h').1 s in
      execution_failed op h' failed kept

  turn-Fatal :
      (h : History)
      → (turn w (service w config) poll_interval ctx h).0 ≡ stop (some err)
      → Fatal w config ctx err
  unfolding turn claim_next
  turn-Fatal h s = elim (Bool-cases (w.is_done h)) [
    | inl done ↦ absurd (cc (rw done at s))
    | inr live ↦ after_claim-Fatal h _ (claimed ctx (request config) ∷ h) refl (rw live at s)
  ]

-- `Run` returns an error only for a reason of `Fatal`; losing a lease never ends a worker.
pub run_error :
    (w : World) (config : Config) (poll_interval : ℤ) (ctx : Context) (err : Error) (fuel : ℕ)
    (h : History)
    → (run w (service w config) poll_interval fuel ctx h).0 ≡ returned (some err)
    → Fatal w config ctx err
unfolding run
run_error w config poll_interval ctx err zero h e = absurd (cc)
run_error w config poll_interval ctx err (suc fuel) h e =
    let next = turn w (service w config) poll_interval ctx h in
    elim (Turn-cases next.0) [
      | inl go ↦
          run_error w config poll_interval ctx err fuel next.1
            (rw (run-again w (service w config) poll_interval ctx fuel h go) at e)
      | inr (o, halt) ↦
          let returned_o : returned o ≡ returned (some err) =
            rw (run-stop w (service w config) poll_interval ctx fuel h halt) at e in
          turn-Fatal w config poll_interval ctx err h (halt ∙ cc)
    ]
