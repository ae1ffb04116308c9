-- ===== src/Ledger/Atomic.antt =====
-- The transaction of a mailbox request does all of its work or none of it.
use mail_suite.Base.{
  Bool, Text, [], ◌∷◌, ap, is_empty, if◌then◌else◌, ◌≡◌, refl, inl, inr, ◌⊎◌, Digest, true, false,
  Option, none, some, ◌==◌, Bool-cases,
}
use mail_suite.Errors.{Error, Result, ok, fail}
use mail_suite.Provisioning.{PreparedRequest, RequestMailboxResult}
use mail_suite.Ledger.{StoredOperation, idempotent_result}
use mail_suite.Ledger.Requests.{
  MailboxRow, Store, Surroundings, find_operation, is_taken, Outcome, unless_fails,
  insert_operation, insert_mailbox, after_commit, with_operation, after_insert, after_find,
  request_stored,
}

-- A success that is a replay, or a failure.
abbrev pub CreatesNothing : Result RequestMailboxResult → Type 0
CreatesNothing (ok result) = result.replayed ≡ true
CreatesNothing (fail e) = Unit {0}

-- The key was free for the tenant, the address was free, and the domain was open.
pub record IsFresh (r : PreparedRequest) (s seen : Store) : Type 0 where
  pub key : find_operation r.tenant_id r.idempotency_key seen.operations ≡ none
  pub address : is_taken r.domain_id r.local_part seen.mailboxes ≡ false
  pub domain : s.provisionable r.domain_id r.tenant_id ≡ true

-- `none` for the empty text.
abbrev pub name_or_none : Text → Option Text
name_or_none [] = none
name_or_none (c ∷ t) = some (c ∷ t)

-- One row was added to each table, the operation naming the mailbox as its resource.
pub record HasBoth (around : Surroundings) (r : PreparedRequest) (before after : Store)
    : Type 0 where
  pub operation :
      after.operations
      ≡ record {
        tenant_id = r.tenant_id;
        idempotency_key = r.idempotency_key;
        stored = record {
          id = around.new_operation_id;
          resource_id = around.new_mailbox_id;
          request_hash = r.request_hash;
        };
      }
        ∷ before.operations
  pub mailbox :
      after.mailboxes
      ≡ record {
        id = around.new_mailbox_id;
        tenant_id = r.tenant_id;
        domain_id = r.domain_id;
        local_part = r.local_part;
        display_name = name_or_none r.display_name;
      }
        ∷ before.mailboxes
  pub domains : after.provisionable ≡ before.provisionable

pub data IsAtomic (around : Surroundings) (r : PreparedRequest) (s : Store) (o : Outcome)
    : Type 0 where
  untouched : (o.1 ≡ s) ⊎ (o.1 ≡ around.others s) → CreatesNothing o.0 → IsAtomic around r s o
  created :
      o.0
        ≡ ok (record {
          mailbox_id = around.new_mailbox_id;
          operation_id = around.new_operation_id;
          replayed = false;
        })
      → HasBoth around r (around.others s) o.1
      → IsFresh r s (around.others s)
      → IsAtomic around r s o
  unconfirmed :
      (e err : Error)
      → around.commit_fails ≡ some err
      → around.commit_lands ≡ true
      → o.0 ≡ fail e
      → HasBoth around r (around.others s) o.1
      → IsFresh r s (around.others s)
      → IsAtomic around r s o

replay-CreatesNothing :
    (existing : StoredOperation) (hash : Digest) → CreatesNothing (idempotent_result existing hash)
unfolding idempotent_result
replay-CreatesNothing existing hash = elim (Bool-cases (existing.request_hash == hash)) [
  | inl same ↦ rw same refl
  | inr other ↦ rw other tt
]

empty_none : (t : Text) → (if is_empty t then none else some t) ≡ name_or_none t
empty_none [] = refl
empty_none (c ∷ t) = refl

module _ (around : Surroundings) (r : PreparedRequest) (s : Store) where
  outage-IsAtomic :
      (outage : Option Error) (now : Store) (next : Outcome)
      → (now ≡ s) ⊎ (now ≡ around.others s)
      → IsAtomic around r s next
      → IsAtomic around r s (unless_fails outage now next)
  outage-IsAtomic none now next same h = h
  outage-IsAtomic (some e) now next same h = untouched same tt

  abbrev both : Store
  both = insert_mailbox around r (insert_operation around r (around.others s))

  inserted-HasBoth : HasBoth around r (around.others s) both
  unfolding insert_mailbox insert_operation
  inserted-HasBoth = record {
    operation = refl;
    mailbox = ap (λ n. named n ∷ (around.others s).mailboxes) (empty_none r.display_name);
    domains = refl;
  }
    where
      named : Option Text → MailboxRow
      named n = record {
        id = around.new_mailbox_id;
        tenant_id = r.tenant_id;
        domain_id = r.domain_id;
        local_part = r.local_part;
        display_name = n;
      }

  failed-IsAtomic :
      (lands : Bool) (err e : Error)
      → around.commit_fails ≡ some err
      → around.commit_lands ≡ lands
      → IsFresh r s (around.others s)
      → IsAtomic around r s (fail e, if lands then both else around.others s)
  failed-IsAtomic true err e c l fresh = unconfirmed e err c l refl inserted-HasBoth fresh
  failed-IsAtomic false err e c l fresh = untouched (inr refl) tt

  commit-IsAtomic :
      (outage : Option Error)
      → around.commit_fails ≡ outage
      → IsFresh r s (around.others s)
      → IsAtomic around r s (after_commit around r outage (around.others s) both)
  unfolding after_commit
  commit-IsAtomic none c fresh = created refl inserted-HasBoth fresh
  commit-IsAtomic (some e) c fresh = failed-IsAtomic _ e _ c refl fresh

  mailbox-IsAtomic :
      find_operation r.tenant_id r.idempotency_key (around.others s).operations ≡ none
      → s.provisionable r.domain_id r.tenant_id ≡ true
      → IsAtomic around r s
          (with_operation around r (around.others s) (insert_operation around r (around.others s)))
  unfolding with_operation insert_operation
  mailbox-IsAtomic key open_domain =
      outage-IsAtomic around.mailbox_fails (around.others s) _ (inr refl)
        (elim (Bool-cases (is_taken r.domain_id r.local_part (around.others s).mailboxes)) [
          | inl taken ↦ rw taken (untouched (inr refl) tt)
          | inr free ↦ rw free (
              outage-IsAtomic around.event_fails (around.others s) _ (inr refl) (
                commit-IsAtomic around.commit_fails refl
                  (record { key = key; address = free; domain = open_domain })))
        ])

  insert-IsAtomic :
      (found : Option StoredOperation)
      → find_operation r.tenant_id r.idempotency_key (around.others s).operations ≡ found
      → s.provisionable r.domain_id r.tenant_id ≡ true
      → IsAtomic around r s (after_insert around r found (around.others s))
  unfolding after_insert
  insert-IsAtomic (some existing) found open_domain =
      outage-IsAtomic around.second_lookup_fails (around.others s) _ (inr refl)
        (untouched (inr refl) (replay-CreatesNothing existing r.request_hash))
  insert-IsAtomic none found open_domain = mailbox-IsAtomic found open_domain

  find-IsAtomic :
      (found : Option StoredOperation) → IsAtomic around r s (after_find around r found s)
  unfolding after_find
  find-IsAtomic (some existing) =
      untouched (inl refl) (replay-CreatesNothing existing r.request_hash)
  find-IsAtomic none =
      outage-IsAtomic around.domain_fails s _ (inl refl)
        (elim (Bool-cases (s.provisionable r.domain_id r.tenant_id)) [
          | inl open_domain ↦ rw open_domain (
              outage-IsAtomic around.operation_fails (around.others s) _ (inr refl)
                (insert-IsAtomic _ refl open_domain))
          | inr closed ↦ rw closed (untouched (inl refl) tt)
        ])

-- A mailbox request stores its operation together with its mailbox or neither. Nothing is stored
-- but what others commit, and then the answer is a failure or a replay; or one row is added to each of
-- the two tables, with the fields of the request and the operation naming the mailbox, on a free key, a
-- free address and a domain that was open, and the answer is a success with their ids that is no replay,
-- or the failure of a commit that took place all the same.
pub request_atomic :
    (around : Surroundings) (r : PreparedRequest) (s : Store)
    → IsAtomic around r s (request_stored around r s)
unfolding request_stored
request_atomic around r s =
    outage-IsAtomic around r s around.begin_fails s _ (inl refl)
      (outage-IsAtomic around r s around.lookup_fails s _ (inl refl) (find-IsAtomic around r s _))
