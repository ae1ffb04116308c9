-- ===== src/Ledger/Tests.antt =====
-- An operation of the ledger with its first claim, and the statements on it.
use mail_suite.Base.{◌≡◌, refl, codes, true, none, some, [], arith}
use mail_suite.Base.Int.{pos, ◌+ℤ◌, ◌<ℤ◌}
use mail_suite.Errors.{ok}
use mail_suite.Mailcore.{MailboxStatus}
use mail_suite.Operation.{Status}
use mail_suite.Ledger.Lookup.{OperationColumns, get_operation, foreign_operation_hidden}
use mail_suite.Ledger.{valid_mailbox_resolution, valid_observation, valid_observed_mailbox_status}
use mail_suite.Ledger.Rows.{
  Observation, Entry, claimable, claim_entry, finalizable, ResolveParams, resolvable,
  resolve_attempt, resolve_entry,
}
use mail_suite.Ledger.Invariant.{
  Step, claim, resolve, Reach, here, next, IsConsistent, Reach-IsConsistent,
}
use mail_suite.Ledger.Fencing.{fencing, Waits, nothing_stranded}
use mail_suite.Operation.Tests.{
  config, task, world, background, attempt, success, work_done, task_valid, executed,
  config-IsAccepted,
}
use mail_suite.Ledger.Receipt.{receipt_accepted}
use mail_suite.Mailcore.{ObservedMailbox, InspectMailboxQuery}
use mail_suite.Operation.World.{Context, History}
use mail_suite.Errors.{plain, provisioning_error, idempotency_conflict, fail}
use mail_suite.Base.{if◌then◌else◌, ◌==◌, false, ◌∷◌}
use mail_suite.Provisioning.{PreparedRequest, RequestMailboxResult}
use mail_suite.Ledger.Requests.{
  Store, Surroundings, find_operation, is_taken, insert_operation, insert_mailbox, after_commit,
  with_operation, after_insert, after_find, request_stored,
}
use mail_suite.Ledger.Replay.{request_idempotent}
use mail_suite.Ledger.Atomic.{IsAtomic, request_atomic}

abbrev created : Entry
created = record {
  id = 1;
  mailbox_id = 3;
  status = Status.pending;
  desired_revision = pos 1;
  configuration_hash = 99;
  attempt_count = pos 0;
  next_attempt_at = pos 10;
  lease_owner_id = none;
  lease_epoch = pos 0;
  lease_expires_at = none;
  last_error_code = none;
  observation = none;
  mailbox_desired = MailboxStatus.active;
  mailbox_revision = pos 1;
  mailbox_observation = none;
  attempts = [];
}

created-IsConsistent : IsConsistent created
created-IsConsistent = record {
  count = refl;
  epoch = refl;
  numbered = tt;
  open_attempt = λ run. ground arith;
  closed_attempts = λ stop. tt;
  leased = λ run. ground arith;
  unleased = λ stop. (refl, refl);
  proved = λ s. ground arith;
}

abbrev leased_entry : Entry
leased_entry = claim_entry (pos 20) 7 (pos 100) created

can_claim : claimable (pos 20) (pos 5) created ≡ true
unfolding claimable
can_claim = refl

abbrev claim_step : Step created leased_entry
claim_step = claim (pos 20) (pos 5) (pos 100) 7 can_claim refl

abbrev observed : Observation
observed = record {
  mailbox_id = 3;
  status = MailboxStatus.active;
  revision = pos 1;
  configuration_hash = 99;
  at = pos 30;
}

abbrev params : ResolveParams
params = record {
  operation_id = 1;
  lease_owner_id = 7;
  lease_epoch = pos 1;
  attempt_number = pos 1;
  desired_revision = pos 1;
  result_status = Status.succeeded;
  observation = some observed;
  next_attempt_delay = pos 0;
  error_code = [];
}

can_resolve : resolvable (pos 40) params leased_entry ≡ true
unfolding resolvable claim_entry ◌+ℤ◌
can_resolve = refl

finds_attempt : (resolve_attempt params leased_entry.attempts).1 ≡ true
unfolding resolve_attempt claim_entry ◌+ℤ◌
finds_attempt = refl

abbrev succeeded_entry : Entry
succeeded_entry = resolve_entry (pos 40) params leased_entry

abbrev history : Reach created succeeded_entry
history = next (next here claim_step) (resolve (pos 40) params refl can_resolve finds_attempt refl)

Reach-IsConsistent_example : IsConsistent succeeded_entry
Reach-IsConsistent_example = Reach-IsConsistent history created-IsConsistent

fencing_example : created.lease_epoch <ℤ params.lease_epoch
fencing_example = fencing claim_step here (pos 40) params tt can_resolve

can_reclaim : claimable (pos 200) (pos 5) leased_entry ≡ true
unfolding claimable claim_entry ◌+ℤ◌
can_reclaim = refl

leased-IsConsistent : IsConsistent leased_entry
leased-IsConsistent = Reach-IsConsistent (next here claim_step) created-IsConsistent

nothing_stranded_example : Waits (pos 40) (pos 5) leased_entry
unfolding claimable finalizable claim_entry ◌+ℤ◌
nothing_stranded_example =
    nothing_stranded (pos 40) (pos 5) leased_entry leased-IsConsistent refl (omega arith) refl refl

reads_valid :
    (k : History) (c : Context) (q : InspectMailboxQuery) (read : ObservedMailbox)
    → world.inspect_mailbox k c q ≡ ok read
    → valid_observation (some read) ≡ true
unfolding valid_observation valid_observed_mailbox_status
reads_valid k c q read e = ground (arith, e)

receipt_accepted_example : valid_mailbox_resolution success ≡ true
receipt_accepted_example =
    receipt_accepted world config background task [] attempt success work_done reads_valid
      config-IsAccepted (omega arith, omega arith) task_valid executed

abbrev empty_store : Store
empty_store = record { operations = []; mailboxes = []; provisionable = λ d t. true }

-- Nothing fails and no one else commits.
abbrev calm : Surroundings
calm = record {
  begin_fails = none;
  lookup_fails = none;
  domain_fails = none;
  operation_fails = none;
  second_lookup_fails = none;
  mailbox_fails = none;
  event_fails = none;
  commit_fails = none;
  commit_lands = true;
  others = λ s. s;
  new_mailbox_id = 50;
  new_operation_id = 60;
}

abbrev prepared : PreparedRequest
prepared = record {
  tenant_id = 1;
  domain_id = 2;
  local_part = codes "jo";
  display_name = codes "Jo";
  idempotency_key = codes "key-0123456789ab";
  request_hash = 4;
}

abbrev requested : RequestMailboxResult
requested = record { mailbox_id = 50; operation_id = 60; replayed = false }

abbrev stored : Store
stored = insert_mailbox calm prepared (insert_operation calm prepared empty_store)

stores : request_stored calm prepared empty_store ≡ (ok requested, stored)
unfolding request_stored after_find find_operation after_insert with_operation is_taken after_commit
    insert_operation insert_mailbox
stores = refl

request_idempotent_example : request_stored calm prepared stored ≡ (
  if prepared.request_hash == prepared.request_hash
      then ok (record {
        mailbox_id = requested.mailbox_id;
        operation_id = requested.operation_id;
        replayed = true;
      })
      else fail (plain (provisioning_error idempotency_conflict)),
  stored,
)
request_idempotent_example =
    request_idempotent calm calm prepared prepared empty_store stored stored requested stores refl
      refl refl refl refl

request_atomic_example :
    IsAtomic calm prepared empty_store (request_stored calm prepared empty_store)
request_atomic_example = request_atomic calm prepared empty_store

-- An operation of the tenant 2.
abbrev foreign : OperationColumns
foreign = record {
  id = 9;
  tenant_id = 2;
  kind = codes "mailbox.provision";
  resource_type = codes "mailbox";
  resource_id = 3;
  status = codes "pending";
}

foreign_operation_hidden_example : get_operation none 1 9 (foreign ∷ []) ≡ get_operation none 1 9 []
foreign_operation_hidden_example = foreign_operation_hidden none 1 9 [] [] foreign refl
