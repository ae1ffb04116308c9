-- ===== src/Accounts/Ended.antt =====
-- Revoked sessions: `RevokeSession` and the later lookups of `ResolveSession`.
use mail_suite.Base.{
  ℕ, Uuid, inl, inr, Text, Digest, ◌≡◌, refl, ap, ◌∙◌, Bool, true, false, ◌&&◌, ◌||◌, not, Option,
  none, some, List, [], ◌∷◌, ◌==◌, ==→eq, arith, Bool-cases, if◌then◌else◌,
}
use mail_suite.Base.Int.{ℤ, pos, ◌=ℤ◌}
use mail_suite.Errors.{auth_required, Error, Result, ok, fail}
use mail_suite.Identity.{new_error, SessionToCreate, RevocationReason, valid_revocation_reason}
use mail_suite.Identity.World as identity
use mail_suite.Identity.Sessions.{after_lookup}
use mail_suite.Accounts.{IdentityRepository, SessionRow, Store, timestamptz}
use mail_suite.Accounts.Rows.{
  is_unset, session_row, session_taken, is_live, touch_row, touch_rows, Target, by_digest,
  is_target, revoke_row, revoke_rows,
}
use mail_suite.Accounts.Sessions.{update_revoked, revoke_session, unless_failed}
use mail_suite.Accounts.Resolve.{find_session, Interruptions, with_found, resolve_session}
use mail_suite.Accounts.Changes.{
  Change, same, flow_in, flow_used, session_in, touched, revoked, step-Change,
}
use mail_suite.Accounts.Steps.{Later, kept_later}

unfoldable pub has_digest : Digest → List SessionRow → Bool
has_digest d [] = false
has_digest d (row ∷ rows) = row.session_digest == d || has_digest d rows

-- Every session with the digest was revoked.
unfoldable dead : Digest → List SessionRow → Bool
dead d [] = true
dead d (row ∷ rows) = (not (row.session_digest == d) || not (is_unset row.revoked)) && dead d rows

abbrev IsDead : Digest → List SessionRow → Type 0
IsDead d rows = (has_digest d rows ≡ true) × (dead d rows ≡ true)

free_digest :
    (session : SessionToCreate) (rows : List SessionRow)
    → session_taken session rows ≡ false
    → has_digest session.session_digest rows ≡ false
unfolding session_taken has_digest
free_digest session [] h = refl
free_digest session (row ∷ rows) h = ground (arith, free_digest session rows)

apart :
    (c d : Digest) (rows : List SessionRow)
    → has_digest d rows ≡ true
    → has_digest c rows ≡ false
    → (c == d) ≡ false
apart c d rows h k = elim (Bool-cases (c == d)) [
  | inl equal ↦ absurd (ground (arith, ap (λ x. has_digest x rows) (==→eq c d equal)))
  | inr other ↦ other
]

session_front :
    (d : Digest) (session : SessionToCreate) (rows : List SessionRow)
    → IsDead d rows
    → (session.session_digest == d) ≡ false
    → IsDead d (session_row session ∷ rows)
unfolding has_digest dead session_row
session_front d session rows h other = (ground (arith, h.0), ground (arith, h.1))

module _ (d : Digest) where
  touch-IsDead :
      (id : Uuid) (at idle : ℤ) (rows : List SessionRow)
      → (has_digest d (touch_rows id at idle rows) ≡ has_digest d rows)
        × (dead d (touch_rows id at idle rows) ≡ dead d rows)
  unfolding has_digest dead touch_rows touch_row
  touch-IsDead id at idle [] = (refl, refl)
  touch-IsDead id at idle (row ∷ rows) =
      let rest = touch-IsDead id at idle rows in (ground (arith, rest.0), ground (arith, rest.1))

  revoke-has_digest :
      (target : Target) (at : ℤ) (reason : RevocationReason) (rows : List SessionRow)
      → has_digest d (revoke_rows target at reason rows) ≡ has_digest d rows
  unfolding has_digest revoke_rows revoke_row
  revoke-has_digest target at reason [] = refl
  revoke-has_digest target at reason (row ∷ rows) =
      ground (arith, revoke-has_digest target at reason rows)

  revoke-dead :
      (target : Target) (at : ℤ) (reason : RevocationReason) (rows : List SessionRow)
      → dead d rows ≡ true
      → dead d (revoke_rows target at reason rows) ≡ true
  unfolding dead revoke_rows revoke_row
  revoke-dead target at reason [] h = refl
  revoke-dead target at reason (row ∷ rows) h = ground (arith, revoke-dead target at reason rows)

  -- A revocation by the digest leaves none alive.
  revoke-kills :
      (at : ℤ) (reason : RevocationReason) (rows : List SessionRow)
      → dead d (revoke_rows (by_digest d) at reason rows) ≡ true
  unfolding dead revoke_rows revoke_row is_target
  revoke-kills at reason [] = refl
  revoke-kills at reason (row ∷ rows) = ground (arith, revoke-kills at reason rows)

  change-IsDead : (s t : Store) → Change s t → IsDead d s.sessions → IsDead d t.sessions
  change-IsDead s t (same f g) h = (ap (has_digest d) g ∙ h.0, ap (dead d) g ∙ h.1)
  change-IsDead s t (flow_in flow free f g) h = (ap (has_digest d) g ∙ h.0, ap (dead d) g ∙ h.1)
  change-IsDead s t (flow_used state cookie at f g) h =
      (ap (has_digest d) g ∙ h.0, ap (dead d) g ∙ h.1)
  change-IsDead s t (session_in session valid free f g) h =
      let other =
        apart session.session_digest d s.sessions h.0 (free_digest session s.sessions free) in
      let front = session_front d session s.sessions h other in
      (ap (has_digest d) g ∙ front.0, ap (dead d) g ∙ front.1)
  change-IsDead s t (touched id at idle f g) h =
      let kept = touch-IsDead id at idle s.sessions in
      (ap (has_digest d) g ∙ kept.0 ∙ h.0, ap (dead d) g ∙ kept.1 ∙ h.1)
  change-IsDead s t (revoked target at reason f g) h = (
    ap (has_digest d) g ∙ revoke-has_digest target at reason s.sessions ∙ h.0,
    ap (dead d) g ∙ revoke-dead target at reason s.sessions h.1,
  )

  dead-none :
      (s : Store) (at : ℤ) (rows : List SessionRow)
      → dead d rows ≡ true
      → find_session s d at rows ≡ none
  unfolding dead find_session is_live
  dead-none s at [] h = refl
  dead-none s at (row ∷ rows) h = ground (arith, dead-none s at rows)

  revoked_if :
      (c : Bool) (e : Error) (s : Store) (n : ℕ) (run : Result ℕ × Store)
      → (run.0 ≡ ok n → IsDead d run.1.sessions)
      → (if c then (fail e, s) else run).0 ≡ ok n
      → IsDead d (if c then (fail e, s) else run).1.sessions
  revoked_if true e s n run k h = cc
  revoked_if false e s n run k h = k h

  update-IsDead :
      (o : Option Error) (at : ℤ) (reason : RevocationReason) (s : Store) (n : ℕ)
      → has_digest d s.sessions ≡ true
      → (update_revoked o (by_digest d) at reason s).0 ≡ ok n
      → IsDead d (update_revoked o (by_digest d) at reason s).1.sessions
  unfolding update_revoked
  update-IsDead (some e) at reason s n there h = cc
  update-IsDead none at reason s n there h = (
    revoke-has_digest (by_digest d) (timestamptz at) reason s.sessions ∙ there,
    revoke-kills (timestamptz at) reason s.sessions,
  )

  revoke-IsDead :
      (o : Option Error) (at : ℤ) (reason : RevocationReason) (s : Store) (n : ℕ)
      → has_digest d s.sessions ≡ true
      → (revoke_session o d at reason s).0 ≡ ok n
      → IsDead d (revoke_session o d at reason s).1.sessions
  unfolding revoke_session
  revoke-IsDead o at reason s n there h =
      revoked_if (at =ℤ pos 0 || not (valid_revocation_reason reason)) _ s n _
        (update-IsDead o at reason s n there) h

dead_refused :
    (repository : IdentityRepository) (o : Interruptions) (d : Digest) (at : ℤ) (s : Store)
    → o.select_fails ≡ none
    → (at =ℤ pos 0) ≡ false
    → dead d s.sessions ≡ true
    → resolve_session repository o d at s ≡ (fail (new_error auth_required), s)
unfolding resolve_session with_found unless_failed
dead_refused repository o d at s reads set h =
    rw (set, reads, dead-none d s (timestamptz at) s.sessions h) refl

-- Once a session that is there was revoked, its cookie is anonymous to the login service whenever it is
-- looked up again, however often logins start and end, statements fail, sessions are touched and
-- accounts change in between: for a lookup that reaches the database, at an instant that is set.
pub revoked_anonymous :
    (w : identity.World) (service : identity.Service) (token : Text) (s t : Store)
    (o : Option Error) (digest : Digest) (at later_at : ℤ) (reason : RevocationReason) (n : ℕ)
    (repository : IdentityRepository) (i : Interruptions)
    → has_digest digest s.sessions ≡ true
    → (revoke_session o digest at reason s).0 ≡ ok n
    → Later (revoke_session o digest at reason s).1 t
    → i.select_fails ≡ none
    → (later_at =ℤ pos 0) ≡ false
    → after_lookup w service token (resolve_session repository i digest later_at t).0 ≡ ok none
unfolding after_lookup new_error
revoked_anonymous w service token s t o digest at later_at reason n repository i there done after
      reads set =
    let gone =
      kept_later (λ x. IsDead digest x.sessions)
        (λ x y step. change-IsDead digest x y (step-Change x y step)) _ t after
        (revoke-IsDead digest o at reason s n there done) in
    rw (dead_refused repository i digest later_at t reads set gone.1) refl
