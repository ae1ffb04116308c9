-- ===== src/Ledger/Replay.antt =====
-- A request for a mailbox may be sent again: what the second request is told.
use mail_suite.Base.{
  ◌≡◌, refl, subst, ap, ◌∙◌, inl, inr, Digest, true, not, Option, none, some, arith, ◌==◌, =ₜ_refl,
  Bool-cases, if◌then◌else◌,
}
use mail_suite.Errors.{Error, plain, ok, fail, idempotency_conflict, provisioning_error}
use mail_suite.Provisioning.{PreparedRequest, RequestMailboxResult}
use mail_suite.Ledger.{StoredOperation, idempotent_result}
use mail_suite.Ledger.Requests.{
  Store, Surroundings, find_operation, is_taken, Outcome, unless_fails, insert_operation,
  insert_mailbox, after_commit, with_operation, after_insert, after_find, request_stored,
}

-- The operation of a request, as a successful answer names it.
pub record IsRecorded (r : PreparedRequest) (result : RequestMailboxResult) (s : Store)
    : Type 0 where
  pub stored : StoredOperation
  pub found : find_operation r.tenant_id r.idempotency_key s.operations ≡ some stored
  pub same_request : stored.request_hash ≡ r.request_hash
  pub operation : stored.id ≡ result.operation_id
  pub mailbox : stored.resource_id ≡ result.mailbox_id

-- What an outcome leaves behind if it is a success.
abbrev Records : PreparedRequest → Outcome → Type 0
Records r (ok result, s) = IsRecorded r result s
Records r (fail e, s) = Unit {0}

outage-Records :
    (r : PreparedRequest) (outage : Option Error) (s : Store) (next : Outcome)
    → Records r next
    → Records r (unless_fails outage s next)
outage-Records r none s next h = h
outage-Records r (some e) s next h = tt

existing-Records :
    (r : PreparedRequest) (existing : StoredOperation) (s : Store)
    → find_operation r.tenant_id r.idempotency_key s.operations ≡ some existing
    → Records r (idempotent_result existing r.request_hash, s)
unfolding idempotent_result
existing-Records r existing s found = elim (Bool-cases (existing.request_hash == r.request_hash)) [
  | inl same ↦ rw same (record {
    stored = existing;
    found = found;
    same_request = ground arith;
    operation = refl;
    mailbox = refl;
  })
  | inr other ↦ rw other tt
]

module _ (around : Surroundings) (r : PreparedRequest) where
  commit-Records :
      (outage : Option Error) (committed s : Store)
      → Records r (
          after_commit around r outage committed
            (insert_mailbox around r (insert_operation around r s)))
  unfolding after_commit
  commit-Records (some e) committed s = tt
  commit-Records none committed s = record {
    stored = record {
      id = around.new_operation_id;
      resource_id = around.new_mailbox_id;
      request_hash = r.request_hash;
    };
    found =
        unfold insert_mailbox in
        unfold insert_operation in
        unfold find_operation in ground (arith, =ₜ_refl r.idempotency_key);
    same_request = refl;
    operation = refl;
    mailbox = refl;
  }

  mailbox-Records :
      (committed s : Store)
      → Records r (with_operation around r committed (insert_operation around r s))
  unfolding with_operation
  mailbox-Records committed s =
      outage-Records r around.mailbox_fails committed _
        (elim (Bool-cases
          (is_taken r.domain_id r.local_part (insert_operation around r s).mailboxes)) [
            | inl taken ↦ rw taken tt
            | inr free ↦ rw free (
                outage-Records r around.event_fails committed _
                  (commit-Records around.commit_fails committed s))
          ])

  insert-Records :
      (found : Option StoredOperation) (s : Store)
      → find_operation r.tenant_id r.idempotency_key s.operations ≡ found
      → Records r (after_insert around r found s)
  unfolding after_insert
  insert-Records (some existing) s found =
      outage-Records r around.second_lookup_fails s _ (existing-Records r existing s found)
  insert-Records none s found = mailbox-Records s s

  find-Records :
      (found : Option StoredOperation) (s : Store)
      → find_operation r.tenant_id r.idempotency_key s.operations ≡ found
      → Records r (after_find around r found s)
  unfolding after_find
  find-Records (some existing) s found = existing-Records r existing s found
  find-Records none s found =
      outage-Records r around.domain_fails s _
        (elim (Bool-cases (not (s.provisionable r.domain_id r.tenant_id))) [
          | inl closed ↦ rw closed tt
          | inr provisionable ↦ rw provisionable (
              outage-Records r around.operation_fails (around.others s) _
                (insert-Records _ (around.others s) refl))
        ])

  request-Records : (s : Store) → Records r (request_stored around r s)
  unfolding request_stored
  request-Records s =
      outage-Records r around.begin_fails s _
        (outage-Records r around.lookup_fails s _ (find-Records _ s refl))

replay :
    (around : Surroundings) (r : PreparedRequest) (t : Store) (stored : StoredOperation)
    → find_operation r.tenant_id r.idempotency_key t.operations ≡ some stored
    → around.begin_fails ≡ none
    → around.lookup_fails ≡ none
    → request_stored around r t ≡ (idempotent_result stored r.request_hash, t)
unfolding request_stored after_find
replay around r t stored found begun looked = rw (begun, looked, found) refl

answer :
    (stored : StoredOperation) (result : RequestMailboxResult) (first hash : Digest)
    → stored.request_hash ≡ first
    → stored.id ≡ result.operation_id
    → stored.resource_id ≡ result.mailbox_id
    → idempotent_result stored hash ≡ (
        if hash == first
        then ok (record {
          mailbox_id = result.mailbox_id;
          operation_id = result.operation_id;
          replayed = true;
        })
        else fail (plain (provisioning_error idempotency_conflict)))
unfolding idempotent_result
answer stored result first hash same operation mailbox = ground arith

-- A successful request may be sent again: as long as the ledger still has the operation of its tenant
-- and key, whatever else was stored since and whatever the other statements would do, a later
-- request under that tenant and key whose begin and lookup succeed changes nothing; with the same
-- hash it is told the same mailbox and operation, as a replay, and with another hash it is refused as
-- a conflict.
pub request_idempotent :
    (around later : Surroundings) (r again : PreparedRequest) (s s' t : Store)
    (result : RequestMailboxResult)
    → request_stored around r s ≡ (ok result, s')
    → find_operation r.tenant_id r.idempotency_key t.operations
      ≡ find_operation r.tenant_id r.idempotency_key s'.operations
    → again.tenant_id ≡ r.tenant_id
    → again.idempotency_key ≡ r.idempotency_key
    → later.begin_fails ≡ none
    → later.lookup_fails ≡ none
    → request_stored later again t ≡ (
      if again.request_hash == r.request_hash
          then ok (record {
            mailbox_id = result.mailbox_id;
            operation_id = result.operation_id;
            replayed = true;
          })
          else fail (plain (provisioning_error idempotency_conflict)),
      t,
    )
request_idempotent around later r again s s' t result done kept tenant key begun looked =
    let recorded : IsRecorded r result s' = subst (Records r) done (request-Records around r s) in
    let found : find_operation again.tenant_id again.idempotency_key t.operations
        ≡ some recorded.stored =
      rw (tenant, key) (kept ∙ recorded.found) in
    replay later again t recorded.stored found begun looked
    ∙ ap (λ x. (x, t))
        (answer recorded.stored result r.request_hash again.request_hash recorded.same_request
          recorded.operation recorded.mailbox)
