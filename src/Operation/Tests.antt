-- ===== src/Operation/Tests.antt =====
-- A worker with one task, on which each call succeeds.
use mail_suite.Base.{
  ◌≡◌, refl, ◌≢◌, ◌^◌, ◌*◌, codes, true, false, none, some, [], ◌∷◌, ◌++◌, arith, leb,
}
use Prim.Native.Nat.{min}
use mail_suite.Base.Int.{pos, pos_part, ◌+ℤ◌, ◌-ℤ◌, wrap64}
use mail_suite.Errors.{Error, plain, ok, fail, opaque}
use mail_suite.Mailcore.{
  MailboxStatus, ObservedMailbox, EnsureMailboxCommand, InspectMailboxQuery, payload_version,
}
use mail_suite.Operation.{Status, ClaimedMailboxOperation, Resolution}
use mail_suite.Operation.Config.{
  Config, valid_claim, claimable_prior_status, matches_desired, retry_delay,
}
use mail_suite.Operation.Backoff.{IsAccepted, retry_delay_closed}
use mail_suite.Operation.World.{
  Context, clock_read, ensured, inspected, resolved, History, World, receipts,
}
use mail_suite.Operation.Service.{
  claim_next, execute, attempt_deadline, run_adapter, ensure_then_inspect, after_ensure, inspect,
  conclude, resolve,
}
use mail_suite.Operation.Settled.{calls}
use mail_suite.Operation.Receipts.{
  IsOrdered, IsFenced, IsDesired, execute_settles, success_observed, inspect_first,
}
use mail_suite.Operation.Runner.{returned, running, turn, run, after_claim}
use mail_suite.Operation.Loop.{service, claims, run_returns}

abbrev pub config : Config
config = record {
  owner_id = 7;
  lease_duration = pos 100;
  attempt_timeout = pos 30;
  lease_safety_margin = pos 5;
  base_retry_delay = pos 10;
  max_retry_delay = pos 80;
  max_attempts = pos 5;
}

abbrev pub task : ClaimedMailboxOperation
task = record {
  operation_id = 1;
  tenant_id = 2;
  mailbox_id = 3;
  domain_id = 4;
  address = codes "a@b.c";
  desired_revision = pos 1;
  configuration_hash = 99;
  attempt_number = pos 1;
  prior_status = Status.pending;
  lease_owner_id = 7;
  lease_epoch = pos 1;
  lease_expires_at = pos 1100;
}

abbrev pub desired : ObservedMailbox
desired = record {
  mailbox_id = 3;
  status = MailboxStatus.active;
  revision = pos 1;
  configuration_hash = 99;
  inspected_at = pos 1000;
}

-- Every call succeeds; the context is cancelled after the first request for a task.
abbrev pub world : World
world = record {
  now = λ h. pos 1000;
  ensure_mailbox = λ h c cmd. none;
  inspect_mailbox = λ h c q. ok desired;
  claim_mailbox_operation = λ h c r. ok (some task);
  resolve_mailbox_operation = λ h c r. none;
  is_done = λ h. leb 1 (claims h);
  poll_fires = λ h d. true;
}

-- The ledger cannot be reached.
abbrev outage : Error
outage = plain (opaque [])

abbrev world_without_ledger : World
world_without_ledger = record world {
  claim_mailbox_operation = λ h c r. fail outage;
  is_done = λ h. false;
}

abbrev pub background : Context
background = record { deadline = none }

abbrev pub attempt : Context
attempt = record { deadline = some (pos 1035) }

abbrev pub adapter : Context
adapter = record { deadline = some (pos 1030) }

abbrev pub command : EnsureMailboxCommand
command = record {
  operation_id = 1;
  mailbox_id = 3;
  domain_id = 4;
  address = codes "a@b.c";
  desired_revision = pos 1;
  configuration_hash = 99;
  payload_version = payload_version;
  deadline = pos 1030;
}

abbrev pub query : InspectMailboxQuery
query = record {
  mailbox_id = 3;
  domain_id = 4;
  address = codes "a@b.c";
  desired_revision = pos 1;
  configuration_hash = 99;
  deadline = pos 1030;
}

abbrev pub success : Resolution
success = record {
  operation_id = 1;
  attempt_number = pos 1;
  lease_owner_id = 7;
  lease_epoch = pos 1;
  desired_revision = pos 1;
  status = Status.succeeded;
  next_attempt_delay = pos 0;
  error_code = [];
  observation = some desired;
}

abbrev pub work_done : History
work_done = inspected adapter query ∷ ensured adapter command ∷ clock_read ∷ clock_read ∷ []

pub task_valid : valid_claim config task ≡ true
unfolding valid_claim claimable_prior_status
task_valid = refl

pub executed : (execute world config background task []).1 ≡ resolved attempt success ∷ work_done
unfolding execute attempt_deadline run_adapter ensure_then_inspect after_ensure inspect conclude
    resolve valid_claim claimable_prior_status matches_desired wrap64 ◌+ℤ◌ ◌-ℤ◌
executed = refl

execute_settles_example :
    (c : Context) × (r : Resolution) × (work : History) × ((execute world config background task
        []).1
      ≡ resolved c r ∷ work)
    × ((execute world config background task []).0 ≡ world.resolve_mailbox_operation work c r)
    × (receipts work ≡ receipts [])
    × IsFenced task r
execute_settles_example = execute_settles world config background task [] task_valid

success_observed_example :
    (o : ObservedMailbox) × (k : History) × (ac : Context) × (q : InspectMailboxQuery)
    × (success.observation ≡ some o)
    × (work_done ≡ inspected ac q ∷ k)
    × (world.inspect_mailbox k ac q ≡ ok o)
    × IsDesired task o
    × (success.error_code ≡ [])
success_observed_example =
    success_observed world config background task [] attempt success work_done task_valid executed
      refl

-- The same task after an attempt whose lease ran out.
abbrev resumed : ClaimedMailboxOperation
resumed = record task { prior_status = Status.running }

resumed_valid : valid_claim config resumed ≡ true
unfolding valid_claim claimable_prior_status
resumed_valid = refl

inspect_first_example :
    (fresh : History) × (c : Context) × (r : Resolution) × ((execute world config background resumed
        []).1
      ≡ resolved c r ∷ fresh ++ [])
    × IsOrdered resumed.prior_status (calls fresh)
inspect_first_example = inspect_first world config background resumed [] resumed_valid

run_returns_example : (run world (service world config) (pos 1) 2 background []).0 ≢ running
run_returns_example =
    run_returns world config (pos 1) background 1 1 [] (λ k h. ground (arith, h)) (omega arith)

ends_in_outage :
    (run world_without_ledger (service world_without_ledger config) (pos 1) 1 background []).0
    ≡ returned (some outage)
unfolding run turn claim_next after_claim
ends_in_outage = refl

pub config-IsAccepted : IsAccepted config
unfolding ◌+ℤ◌
config-IsAccepted = record {
  owner = λ e. omega (arith, e);
  lease = omega arith;
  timeout = omega arith;
  margin = omega arith;
  fits = omega arith;
  base = omega arith;
  cap = omega arith;
  attempts = omega arith;
  attempts_fit = omega arith;
}

-- After the fifth attempt the delay is the maximum.
retry_delay_closed_example :
    retry_delay config (pos 5)
    ≡ pos (min (pos_part config.max_retry_delay) (pos_part config.base_retry_delay * 2 ^ 4))
retry_delay_closed_example =
    retry_delay_closed config 4 config-IsAccepted (omega arith, omega arith)
