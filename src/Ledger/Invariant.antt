-- ===== src/Ledger/Invariant.antt =====
-- What holds of an operation in the ledger, whatever statements workers run on it and whenever.
use mail_suite.Base.{
  ℕ, suc, ◌≡◌, refl, ap, ◌∙◌, ◌≢◌, inl, inr, sym, subst, Text, Uuid, Digest, true, false, Option,
  none, some, List, arith, length, Bool-cases, codes, if◌then◌else◌,
}
use mail_suite.Base.Int.{ℤ, pos, ◌≤ℤ◌, ◌+ℤ◌, =ℤ→eq}
use mail_suite.Mailcore.{MailboxStatus, active}
use mail_suite.Operation.{Status}
use mail_suite.Ledger.Rows.{
  Observation, Attempt, Entry, is_running, is_succeeded, claimable, claim_entry, finalizable,
  finalize_entry, ResolveParams, resolvable, resolve_attempt, resolve_entry, complete, unexpired,
  final_status, final_code,
}
use mail_suite.Ledger.Attempts.{
  AllClosed, HeadOpen, IsNumbered, length-complete, complete-IsNumbered, complete_latest,
  length-resolve_attempt, resolve_attempt-IsNumbered, resolve_latest,
}

-- One statement on an operation at some instant, or a change of the mailbox by the control plane,
-- which never lowers the revision.
pub data Step (e f : Entry) : Type 0 where
  claim :
      (now max_attempts lease : ℤ) (owner : Uuid)
      → claimable now max_attempts e ≡ true
      → f ≡ claim_entry now owner lease e
      → Step e f
  finalize :
      (now max_attempts : ℤ)
      → finalizable now max_attempts e ≡ true
      → f ≡ finalize_entry now e
      → Step e f
  resolve :
      (now : ℤ) (p : ResolveParams)
      → is_running p.result_status ≡ false
      → resolvable now p e ≡ true
      → (resolve_attempt p e.attempts).1 ≡ true
      → f ≡ resolve_entry now p e
      → Step e f
  revise :
      (revision : ℤ) (desired : MailboxStatus)
      → e.mailbox_revision ≤ℤ revision
      → f ≡ record e { mailbox_revision = revision; mailbox_desired = desired }
      → Step e f

pub data Reach (e : Entry) : Entry → Type 0 where
  here : Reach e e
  next : {f g : Entry} → Reach e f → Step f g → Reach e g

-- The mailbox was read as active, at the operation's revision and configuration.
abbrev pub IsProof : Option Observation → ℤ → Digest → Type 0
IsProof none revision hash = ⊥
IsProof (some o) revision hash =
    (o.status ≡ active) × (o.revision ≡ revision) × (o.configuration_hash ≡ hash)

pub record IsConsistent (e : Entry) : Type 0 where
  pub count : e.attempt_count ≡ pos (length e.attempts)
  pub epoch : e.lease_epoch ≡ pos (length e.attempts)
  pub numbered : IsNumbered e.attempts
  pub open_attempt : is_running e.status ≡ true → HeadOpen e.lease_owner_id e.attempts
  pub closed_attempts : is_running e.status ≡ false → AllClosed e.attempts
  pub leased : is_running e.status ≡ true → e.lease_expires_at ≢ none
  pub unleased :
      is_running e.status ≡ false → (e.lease_owner_id ≡ none) × (e.lease_expires_at ≡ none)
  pub proved :
      e.status ≡ Status.succeeded
      → IsProof e.mailbox_observation e.desired_revision e.configuration_hash

next_count : (z : ℤ) (n m : ℕ) → z ≡ pos n → m ≡ n → z +ℤ pos 1 ≡ pos (suc m)
unfolding ◌+ℤ◌
next_count z n m e same = ground arith

-- Closing the latest attempt of a consistent entry, if it is open.
abbrev closed_latest : Entry → Status → Option Text → List Attempt
closed_latest e result code =
    if is_running e.status
    then complete e.attempt_count e.lease_epoch result code e.attempts
    else e.attempts

closed_latest-AllClosed :
    (e : Entry) (result : Status) (code : Option Text)
    → IsConsistent e
    → AllClosed (closed_latest e result code)
closed_latest-AllClosed e result code c = elim (Bool-cases (is_running e.status)) [
  | inl run ↦
      rw (run, c.count, c.epoch)
        (complete_latest result code e.lease_owner_id (pos (length e.attempts)) e.attempts refl
          c.numbered (c.open_attempt run))
  | inr stop ↦ rw stop (c.closed_attempts stop)
]

length-closed_latest :
    (e : Entry) (result : Status) (code : Option Text)
    → length (closed_latest e result code) ≡ length e.attempts
length-closed_latest e result code =
    ground (arith, length-complete e.attempt_count e.lease_epoch result code e.attempts)

closed_latest-IsNumbered :
    (e : Entry) (result : Status) (code : Option Text)
    → IsNumbered e.attempts
    → IsNumbered (closed_latest e result code)
closed_latest-IsNumbered e result code n =
    ground (arith, complete-IsNumbered e.attempt_count e.lease_epoch result code e.attempts)

pub claim-IsConsistent :
    (now lease : ℤ) (owner : Uuid) (e : Entry)
    → IsConsistent e
    → IsConsistent (claim_entry now owner lease e)
unfolding claim_entry
claim-IsConsistent now lease owner e c =
    let result : Status = Status.unknown in
    let code : Option Text = some (codes "WORKER_LEASE_EXPIRED") in
    let same = length-closed_latest e result code in
    let count : e.attempt_count +ℤ pos 1 ≡ pos (suc (length (closed_latest e result code))) =
      next_count e.attempt_count (length e.attempts) _ c.count same in
    let epoch : e.lease_epoch +ℤ pos 1 ≡ pos (suc (length (closed_latest e result code))) =
      next_count e.lease_epoch (length e.attempts) _ c.epoch same in
    record {
      count = count;
      epoch = epoch;
      numbered = (count, epoch, closed_latest-IsNumbered e result code c.numbered);
      open_attempt = λ run. (refl, refl, closed_latest-AllClosed e result code c);
      closed_attempts = λ stop. ground arith;
      leased = λ run. ground arith;
      unleased = λ stop. ground arith;
      proved = λ s. ground arith;
    }

pub finalize-IsConsistent :
    (now : ℤ) (e : Entry) → IsConsistent e → IsConsistent (finalize_entry now e)
unfolding finalize_entry
finalize-IsConsistent now e c =
    let result : Status = final_status e in
    let code : Option Text = some (final_code e) in
    let same = length-closed_latest e result code in
    record {
      count = c.count ∙ ap pos (sym same);
      epoch = c.epoch ∙ ap pos (sym same);
      numbered = closed_latest-IsNumbered e result code c.numbered;
      open_attempt = λ run. ground arith;
      closed_attempts = λ stop. closed_latest-AllClosed e result code c;
      leased = λ run. ground arith;
      unleased = λ stop. (refl, refl);
      proved = λ s. ground arith;
    }

-- What the guard of the statement says.
pub record Resolvable (now : ℤ) (p : ResolveParams) (e : Entry) : Type 0 where
  pub named : e.id ≡ p.operation_id
  pub run : is_running e.status ≡ true
  pub holder : e.lease_owner_id ≡ some p.lease_owner_id
  pub epoch : e.lease_epoch ≡ p.lease_epoch
  pub count : e.attempt_count ≡ p.attempt_number
  pub revision : e.desired_revision ≡ p.desired_revision
  pub live : unexpired e.lease_expires_at now ≡ true
  pub evidence :
      p.result_status ≡ Status.succeeded
      → IsProof p.observation e.desired_revision e.configuration_hash

pub resolvable-Resolvable :
    (now : ℤ) (p : ResolveParams) (e : Entry) → resolvable now p e ≡ true → Resolvable now p e
unfolding resolvable
resolvable-Resolvable now p e ok = ground (
  arith,
  =ℤ→eq e.lease_epoch p.lease_epoch,
  =ℤ→eq e.attempt_count p.attempt_number,
  =ℤ→eq e.desired_revision p.desired_revision,
)

IsProof-kept :
    (p : ResolveParams) (e : Entry)
    → p.result_status ≡ Status.succeeded
    → IsProof p.observation e.desired_revision e.configuration_hash
    → IsProof
        (if is_succeeded p.result_status then p.observation else e.mailbox_observation)
        e.desired_revision
        e.configuration_hash
IsProof-kept p e s proof = rw s proof

pub resolve-IsConsistent :
    (now : ℤ) (p : ResolveParams) (e : Entry)
    → is_running p.result_status ≡ false
    → Resolvable now p e
    → IsConsistent e
    → IsConsistent (resolve_entry now p e)
unfolding resolve_entry
resolve-IsConsistent now p e rest r c =
    let same = length-resolve_attempt p e.attempts in
    let closed =
      (resolve_latest p e.attempts (sym r.count ∙ c.count) (sym r.epoch ∙ c.epoch) c.numbered
        (subst (λ h. HeadOpen h e.attempts) r.holder (c.open_attempt r.run))).1 in
    record {
      count = c.count ∙ ap pos (sym same);
      epoch = c.epoch ∙ ap pos (sym same);
      numbered = resolve_attempt-IsNumbered p e.attempts c.numbered;
      open_attempt = λ run. ground arith;
      closed_attempts = λ stop. closed;
      leased = λ run. ground arith;
      unleased = λ stop. (refl, refl);
      proved = λ s. IsProof-kept p e s (r.evidence s);
    }

-- Every statement keeps the ledger consistent.
pub Step-IsConsistent : (e f : Entry) → Step e f → IsConsistent e → IsConsistent f
Step-IsConsistent e f (claim now max_attempts lease owner can eq) c =
    subst IsConsistent (sym eq) (claim-IsConsistent now lease owner e c)
Step-IsConsistent e f (finalize now max_attempts can eq) c =
    subst IsConsistent (sym eq) (finalize-IsConsistent now e c)
Step-IsConsistent e f (resolve now p rest can found eq) c =
    subst IsConsistent (sym eq)
      (resolve-IsConsistent now p e rest (resolvable-Resolvable now p e can) c)
Step-IsConsistent e f (revise revision desired grown eq) c = subst IsConsistent (sym eq) (record {
  count = c.count;
  epoch = c.epoch;
  numbered = c.numbered;
  open_attempt = c.open_attempt;
  closed_attempts = c.closed_attempts;
  leased = c.leased;
  unleased = c.unleased;
  proved = c.proved;
})

-- Whatever sequence of statements and revisions runs on an operation that was consistent: its
-- attempt count and its lease epoch count its attempts, which are numbered from one without gaps;
-- while it runs it has a lease and just the latest attempt is open, held by the lease's owner;
-- otherwise it has no lease and no open attempt; and if it succeeded, its mailbox was observed
-- active at the operation's own revision and configuration.
pub Reach-IsConsistent : {e f : Entry} → Reach e f → IsConsistent e → IsConsistent f
Reach-IsConsistent here c = c
Reach-IsConsistent (next {f} {g} r s) c = Step-IsConsistent f g s (Reach-IsConsistent r c)
