-- ===== src/Ledger/Fencing.antt =====
-- Leases and settlement over the life of an operation: what later statements can no longer do.
use mail_suite.Base.{
  ◌≡◌, refl, ◌≢◌, Bool-cases, sym, subst, ap, ◌∙◌, inl, inr, Bool, true, false, ◌||◌, Option, none,
  some, arith,
}
use mail_suite.Base.Int.{ℤ, pos, ◌≤ℤ◌, ◌<ℤ◌, +ℤ_parts}
use mail_suite.Operation.{Status}
use mail_suite.Ledger.Rows.{
  Entry, is_waiting, is_running, is_active, claimable, claim_entry, finalizable, finalize_entry,
  ResolveParams, resolvable, resolve_entry, expired,
}
use mail_suite.Ledger.Invariant.{
  Step, claim, finalize, resolve, revise, Reach, here, next, resolvable-Resolvable, IsConsistent,
}

-- The leases up to epoch `k` are spent: a running operation has a later one.
abbrev Spent : ℤ → Entry → Type 0
Spent k e = (k ≤ℤ e.lease_epoch) × (is_running e.status ≡ true → k <ℤ e.lease_epoch)

Step-Spent : (k : ℤ) (e f : Entry) → Step e f → Spent k e → Spent k f
unfolding claim_entry finalize_entry resolve_entry
Step-Spent k e f (claim now max_attempts lease owner can eq) s =
    subst (Spent k) (sym eq) (ground (arith, +ℤ_parts e.lease_epoch (pos 1)))
Step-Spent k e f (finalize now max_attempts can eq) s = subst (Spent k) (sym eq) (ground arith)
Step-Spent k e f (resolve now p rest can found eq) s = subst (Spent k) (sym eq) (ground arith)
Step-Spent k e f (revise revision desired grown eq) s = subst (Spent k) (sym eq) s

Reach-Spent : {e f : Entry} (k : ℤ) → Reach e f → Spent k e → Spent k f
Reach-Spent k here s = s
Reach-Spent k (next {f} {g} r step) s = Step-Spent k f g step (Reach-Spent k r s)

-- A claim, a finalization or a resolution, not a revision of the mailbox.
abbrev pub IsStatement : {e f : Entry} → Step e f → Type 0
IsStatement (claim _ _ _ _ _ _) = Unit {0}
IsStatement (finalize _ _ _ _) = Unit {0}
IsStatement (resolve _ _ _ _ _ _) = Unit {0}
IsStatement (revise _ _ _ _) = ⊥

Statement-Spent : (e f : Entry) (s : Step e f) → IsStatement s → Spent e.lease_epoch f
unfolding claim_entry finalize_entry resolve_entry
Statement-Spent e f (claim now max_attempts lease owner can eq) i =
    subst (Spent e.lease_epoch) (sym eq) (ground (arith, +ℤ_parts e.lease_epoch (pos 1)))
Statement-Spent e f (finalize now max_attempts can eq) i =
    subst (Spent e.lease_epoch) (sym eq) (ground arith)
Statement-Spent e f (resolve now p rest can found eq) i =
    subst (Spent e.lease_epoch) (sym eq) (ground arith)
Statement-Spent e f (revise revision desired grown eq) i = absurd i

-- Once a claim, a finalization or a resolution has changed an operation, a receipt under the lease
-- epoch that it had before, or an earlier one, is refused ever after, whatever statements and
-- revisions run in between and at whatever instant: a receipt that is accepted has a later epoch.
pub fencing :
    {e f g : Entry} (s : Step e f) (r : Reach f g) (now : ℤ) (p : ResolveParams)
    → IsStatement s
    → resolvable now p g ≡ true
    → e.lease_epoch <ℤ p.lease_epoch
fencing {e} {f} {g} s r now p i can =
    let d = resolvable-Resolvable now p g can in
    subst (λ k. e.lease_epoch <ℤ k) d.epoch
      ((Reach-Spent e.lease_epoch r (Statement-Spent e f s i)).1 d.run)

abbrev pub is_settled : Status → Bool
is_settled Status.succeeded = true
is_settled Status.failed = true
is_settled Status.dead = true
is_settled Status.superseded = true
is_settled _ = false

-- The entry with the mailbox as it stands in another.
abbrev pub with_mailbox : Entry → Entry → Entry
with_mailbox e f = record e {
  mailbox_revision = f.mailbox_revision;
  mailbox_desired = f.mailbox_desired;
}

settled_step : (e f : Entry) → Step e f → is_settled e.status ≡ true → f ≡ with_mailbox e f
unfolding claimable finalizable
settled_step e f (claim now max_attempts lease owner can eq) s = ground arith
settled_step e f (finalize now max_attempts can eq) s = ground arith
settled_step e f (resolve now p rest can found eq) s =
    let run = (resolvable-Resolvable now p e can).run in ground arith
settled_step e f (revise revision desired grown eq) s =
    subst (λ x. x ≡ with_mailbox e x) (sym eq) refl

-- A settled operation (succeeded, failed, dead or superseded) stays as it is: whatever statements
-- and revisions run, its status, lease, epoch, evidence and attempts are what they were, and only
-- the revision and the desired status of its mailbox may differ.
pub settled_stays : {e f : Entry} → Reach e f → is_settled e.status ≡ true → f ≡ with_mailbox e f
settled_stays here s = refl
settled_stays {e} (next {f} {g} r step) s =
    let before = settled_stays r s in
    let same : f.status ≡ e.status = ap (λ x. x.status) before in
    settled_step f g step (ap is_settled same ∙ s) ∙ ap (λ x. with_mailbox x g) before

-- While the ledger would accept a receipt for an operation, no worker can claim it: each instant
-- at which a claim succeeds is later than each at which a receipt would.
pub lease_exclusive :
    (now later max_attempts : ℤ) (p : ResolveParams) (e : Entry)
    → resolvable now p e ≡ true
    → claimable later max_attempts e ≡ true
    → now <ℤ later
unfolding claimable
lease_exclusive now later max_attempts p e live can =
    let d = resolvable-Resolvable now p e live in
    let run = d.run in let unexpired_now = d.live in ground arith

-- Why an operation may have to wait.
pub data Waits (now max_attempts : ℤ) (e : Entry) : Type 0 where
  leased :
      (until : ℤ)
      → is_running e.status ≡ true
      → e.lease_expires_at ≡ some until
      → now <ℤ until
      → Waits now max_attempts e
  scheduled : is_waiting e.status ≡ true → now <ℤ e.next_attempt_at → Waits now max_attempts e
  inactive : is_active e.mailbox_desired ≡ false → Waits now max_attempts e

lease_runs :
    (now max_attempts : ℤ) (e : Entry) (lease : Option ℤ)
    → e.lease_expires_at ≡ lease
    → lease ≢ none
    → is_running e.status ≡ true
    → expired lease now ≡ false
    → Waits now max_attempts e
lease_runs now max_attempts e none eq some_lease run live = absurd (some_lease refl)
lease_runs now max_attempts e (some until) eq some_lease run live =
    leased until run eq (ground arith)

-- An operation that waits or runs is not stranded: where its ledger entry is consistent and its mailbox's
-- revision is not below its own, and no worker could claim or finalize it now, a live lease still
-- holds it, or it waits for a later attempt time, or its mailbox is not desired active.
pub nothing_stranded :
    (now max_attempts : ℤ) (e : Entry)
    → IsConsistent e
    → (is_waiting e.status || is_running e.status) ≡ true
    → e.desired_revision ≤ℤ e.mailbox_revision
    → claimable now max_attempts e ≡ false
    → finalizable now max_attempts e ≡ false
    → Waits now max_attempts e
unfolding claimable finalizable
nothing_stranded now max_attempts e c s r unclaimed unfinal =
    elim (Bool-cases (is_active e.mailbox_desired)) [
      | inr off ↦ inactive off
      | inl on ↦ elim (Bool-cases (is_running e.status)) [
        | inl run ↦
            lease_runs now max_attempts e e.lease_expires_at refl (c.leased run) run (ground arith)
        | inr stop ↦ scheduled (ground arith) (ground arith)
      ]
    ]
