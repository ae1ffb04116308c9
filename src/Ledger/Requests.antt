-- ===== src/Ledger/Requests.antt =====
-- `ProvisioningRepository.RequestMailbox` as a transaction on the stored rows. Each insert is made in the
-- transaction's own view of the store, which becomes the store at the commit and is dropped where the
-- transaction ends without one. Other transactions may commit between its first look at the operations
-- and its first insert; what they commit after that holds another key, since the insert makes them wait,
-- and so is taken as committed before it. Outbox events are left out of the store, and so is encoding
-- the event's payload, which cannot fail.
use mail_suite.Base.{
  Text, Uuid, Bool, false, ◌&&◌, ◌||◌, not, Option, none, some, List, [], ◌∷◌, ◌==◌, ◌=ₜ◌, is_empty,
  if◌then◌else◌,
}
use mail_suite.Errors.{
  Error, cause_of, Result, ok, fail, is_canceled, is_deadline_exceeded, domain_unavailable,
  mailbox_already_exists, persistence_unavailable,
}
use mail_suite.Provisioning.{PreparedRequest, RequestMailboxResult, new_error}
use mail_suite.Ledger.{StoredOperation, idempotent_result}

pub record OperationRow : Type 0 where
  pub tenant_id : Uuid
  pub idempotency_key : Text
  pub stored : StoredOperation

pub record MailboxRow : Type 0 where
  pub id : Uuid
  pub tenant_id : Uuid
  pub domain_id : Uuid
  pub local_part : Text
  pub display_name : Option Text

pub record Store : Type 0 where
  pub operations : List OperationRow
  pub mailboxes : List MailboxRow
  -- whether `GetProvisionableDomain` finds a domain of a tenant
  pub provisionable : Uuid → Uuid → Bool

-- What happens around the transaction: the failures of its statements, the commits of others, the
-- new identifiers, and whether a commit that reports a failure took place.
pub record Surroundings : Type 0 where
  pub begin_fails : Option Error
  pub lookup_fails : Option Error
  pub domain_fails : Option Error
  pub operation_fails : Option Error
  pub second_lookup_fails : Option Error
  pub mailbox_fails : Option Error
  pub event_fails : Option Error
  pub commit_fails : Option Error
  pub commit_lands : Bool
  pub others : Store → Store
  pub new_mailbox_id : Uuid
  pub new_operation_id : Uuid

unfoldable pub persistence_error : Error → Error
unfolding is_canceled is_deadline_exceeded
persistence_error err =
    if is_canceled (cause_of err) || is_deadline_exceeded (cause_of err)
    then err
    else new_error persistence_unavailable

-- `GetOperationByIdempotencyKey`, and the conflict that `InsertOperation` looks for.
unfoldable pub find_operation : Uuid → Text → List OperationRow → Option StoredOperation
find_operation tenant_id key [] = none
find_operation tenant_id key (o ∷ l) =
    let rest = find_operation tenant_id key l in
    if o.tenant_id == tenant_id && o.idempotency_key =ₜ key then some o.stored else rest

-- The constraint `mailboxes_domain_local_part_unique`.
unfoldable pub is_taken : Uuid → Text → List MailboxRow → Bool
is_taken domain_id local_part [] = false
is_taken domain_id local_part (m ∷ l) =
    let rest = is_taken domain_id local_part l in
    m.domain_id == domain_id && m.local_part =ₜ local_part || rest

abbrev pub Outcome : Type 0
Outcome = Result RequestMailboxResult × Store

-- `if err != nil { return …, persistenceError(err) }`, with the store left as it is.
abbrev pub unless_fails : Option Error → Store → Outcome → Outcome
unless_fails none s next = next
unless_fails (some err) s next = (fail (persistence_error err), s)

module _ (around : Surroundings) (request : PreparedRequest) where
  -- `InsertOperation` for a key that is free.
  unfoldable pub insert_operation : Store → Store
  insert_operation s = record s {
    operations =
        record {
          tenant_id = request.tenant_id;
          idempotency_key = request.idempotency_key;
          stored = record {
            id = around.new_operation_id;
            resource_id = around.new_mailbox_id;
            request_hash = request.request_hash;
          };
        }
        ∷ s.operations;
  }

  -- `InsertMailbox` for an address that is free.
  unfoldable pub insert_mailbox : Store → Store
  insert_mailbox s = record s {
    mailboxes =
        record {
          id = around.new_mailbox_id;
          tenant_id = request.tenant_id;
          domain_id = request.domain_id;
          local_part = request.local_part;
          display_name = if is_empty request.display_name then none else some request.display_name;
        }
        ∷ s.mailboxes;
  }

  -- `tx.Commit` with the store as others see it and the transaction's view of it.
  unfoldable pub after_commit : Option Error → Store → Store → Outcome
  after_commit none committed view = (
    ok (record {
      mailbox_id = around.new_mailbox_id;
      operation_id = around.new_operation_id;
      replayed = false;
    }),
    view,
  )
  after_commit (some err) committed view =
      (fail (persistence_error err), if around.commit_lands then view else committed)

  -- From `InsertMailbox` on, in a view that has the operation.
  unfoldable pub with_operation : Store → Store → Outcome
  with_operation committed view = unless_fails around.mailbox_fails committed (
      if is_taken request.domain_id request.local_part view.mailboxes
      then (fail (new_error mailbox_already_exists), committed)
      else unless_fails around.event_fails committed
          (after_commit around.commit_fails committed (insert_mailbox view)))

  -- From the answer to `InsertOperation` on.
  unfoldable pub after_insert : Option StoredOperation → Store → Outcome
  after_insert (some existing) s =
      unless_fails around.second_lookup_fails s (idempotent_result existing request.request_hash, s)
  after_insert none s = with_operation s (insert_operation s)

  -- From the answer to the first lookup on.
  unfoldable pub after_find : Option StoredOperation → Store → Outcome
  after_find (some existing) s = (idempotent_result existing request.request_hash, s)
  after_find none s = unless_fails around.domain_fails s (
      if not (s.provisionable request.domain_id request.tenant_id)
      then (fail (new_error domain_unavailable), s)
      else (let seen : Store = around.others s in
          unless_fails around.operation_fails seen (
            after_insert (find_operation request.tenant_id request.idempotency_key seen.operations)
              seen)))

  unfoldable pub request_stored : Store → Outcome
  request_stored s = unless_fails around.begin_fails s (
      unless_fails around.lookup_fails s
        (after_find (find_operation request.tenant_id request.idempotency_key s.operations) s))
