-- ===== src/Operation/Runner.antt =====
-- src/backend/internal/operation/runner.go: the loop that claims and executes. The loop ends only on
-- cancellation or an error, so `run` takes fuel and says when it ran out.
use mail_suite.Base.{ℕ, zero, suc, Bool, ◌&&◌, ◌||◌, Option, none, some, ◌∷◌, if◌then◌else◌}
use mail_suite.Base.Int.{ℤ, pos, leb_ℤ}
use mail_suite.Errors.{
  Error, plain, invalid_configuration, cause_of, Result, ok, fail, is_lease_lost,
  is_deadline_exceeded,
}
use mail_suite.Operation.{ClaimedMailboxOperation}
use mail_suite.Operation.World.{Context, without_cancel, polled, History, World}

-- `Executor`: what a runner needs of a service.
pub record Executor : Type 0 where
  pub claim_next : Context → History → Result (Option ClaimedMailboxOperation) × History
  pub execute : Context → ClaimedMailboxOperation → History → Option Error × History

-- A runner is its poll interval; the flag says that the executor is nil.
unfoldable pub new_runner : Bool → ℤ → Result ℤ
new_runner no_executor poll_interval =
    if no_executor || leb_ℤ poll_interval (pos 0)
    then fail (plain invalid_configuration)
    else ok poll_interval

-- How one round of the loop ends: `Run` returns, or goes round again.
pub data Turn : Type 0 where
  stop : Option Error → Turn
  again : Turn

-- How `run` ends: `Run` returned, or the fuel is spent and it is still running.
pub data Exit : Type 0 where
  returned : Option Error → Exit
  running : Exit

module _ (w : World) (x : Executor) (poll_interval : ℤ) where
  unfoldable pub wait_for_next_poll : History → Bool × History
  wait_for_next_poll h = (w.poll_fires h poll_interval, polled poll_interval ∷ h)

  unfoldable pub after_execute : Option Error → History → Turn × History
  unfolding is_lease_lost is_deadline_exceeded
  after_execute none h = (again, h)
  after_execute (some err) h =
      if is_lease_lost (cause_of err)
      then (again, h)
      else if w.is_done h && is_deadline_exceeded (cause_of err)
      then (stop none, h)
      else (stop (some err), h)

  unfoldable pub after_claim :
      Context → Result (Option ClaimedMailboxOperation) → History → Turn × History
  unfolding wait_for_next_poll
  after_claim ctx (fail err) h = (stop (if w.is_done h then none else some err), h)
  after_claim ctx (ok none) h =
      let (fires, h') = wait_for_next_poll h in (if fires then again else stop none, h')
  after_claim ctx (ok (some op)) h =
      let (err, h') = x.execute (without_cancel ctx) op h in after_execute err h'

  -- One round of the loop of `Run`.
  unfoldable pub turn : Context → History → Turn × History
  turn ctx h =
      if w.is_done h
      then (stop none, h)
      else (let (claim, h') = x.claim_next ctx h in after_claim ctx claim h')

  unfoldable pub run : ℕ → Context → History → Exit × History
  run zero ctx h = (running, h)
  run (suc fuel) ctx h =
      let (t, h') = turn ctx h in elim t [ stop err ↦ (returned err, h') | again ↦ run fuel ctx h' ]
