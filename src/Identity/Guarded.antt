-- ===== src/Identity/Guarded.antt =====
-- What a resolved session proves of its cookie, and what `Logout` asks for before it revokes.
use mail_suite.Base.{
  ◌≡◌, refl, ◌≢◌, ◌⊎◌, inl, inr, ◌∙◌, Text, codes, Digest, true, false, ◌||◌, not, Option, none,
  some, [], ◌∷◌, ◌==◌, is_empty, arith, Bool-cases,
}
use mail_suite.Base.Int.{ℤ}
use mail_suite.Errors.{Error, Result, ok, fail, csrf_invalid}
use mail_suite.Identity.{new_error, Session, SessionView, RevocationReason, AuditEvent}
use mail_suite.Identity.Secret.{session_cookie, csrf_token}
use mail_suite.Identity.World.{
  RequestMetadata, LogoutResult, clock_read, id_drawn, session_revoked, History, World, Service,
}
use mail_suite.Identity.Service.{hash}
use mail_suite.Identity.Sessions.{
  after_lookup, resolve_session, logged_out, after_revoke, after_resolve, logout,
}

-- The session of a cookie, as the repository knows it now, and a CSRF token of its digest.
pub record IsSessionOf (w : World) (service : Service) (token : Text) (v : SessionView)
    : Type 0 where
  pub named : is_empty token ≡ false
  pub before : History
  pub at : ℤ
  pub found : w.resolve_session before (hash w service session_cookie token) at ≡ ok v.session
  pub bound : hash w service csrf_token v.csrf_token ≡ v.session.csrf_digest

lookup-IsSessionOf :
    (w : World) (service : Service) (token : Text) (v : SessionView) (found : Result Session)
    (k : History) (at : ℤ)
    → is_empty token ≡ false
    → w.resolve_session k (hash w service session_cookie token) at ≡ found
    → after_lookup w service token found ≡ ok (some v)
    → IsSessionOf w service token v
unfolding after_lookup
lookup-IsSessionOf w service token v (fail e) k at named found r = absurd (ground arith)
lookup-IsSessionOf w service token v (ok session) k at named found r = record {
  named = named;
  before = k;
  at = at;
  found = found ∙ ground arith;
  bound = ground arith;
}

-- A view is given only of a session that the repository resolved for the digest of this cookie, and
-- only if the CSRF token in the view has the digest that is stored with that session.
pub resolve_session_bound :
    (w : World) (service : Service) (token : Text) (h h' : History) (v : SessionView)
    → resolve_session w service token h ≡ (ok (some v), h')
    → IsSessionOf w service token v
unfolding resolve_session
resolve_session_bound w service token h h' v e = elim (Bool-cases (is_empty token)) [
  | inl blank ↦ absurd (ground arith)
  | inr named ↦
      lookup-IsSessionOf w service token v
        (w.resolve_session (clock_read ∷ h) (hash w service session_cookie token) (w.now h))
        (clock_read ∷ h) (w.now h) named refl (ground arith)
]

-- How a logout ends, from the view that `ResolveSession` gave and the history after it.
pub data Ended (w : World) (service : Service) (token csrf : Text)
    (view : Result (Option SessionView)) (work : History)
    : Result LogoutResult → History → Type 0 where
  anonymous : view ≡ ok none → Ended w service token csrf view work (ok (logged_out w service)) work
  unresolved : (e : Error) → view ≡ fail e → Ended w service token csrf view work (fail e) work
  refused :
      (v : SessionView)
      → view ≡ ok (some v)
      → (csrf ≡ []) ⊎ (hash w service csrf_token csrf ≢ v.session.csrf_digest)
      → Ended w service token csrf view work (fail (new_error csrf_invalid)) work
  revoked :
      (v : SessionView) (k : History) (at : ℤ) (audit : AuditEvent)
      → view ≡ ok (some v)
      → IsSessionOf w service token v
      → csrf ≢ []
      → hash w service csrf_token csrf ≡ v.session.csrf_digest
      → audit.principal_id ≡ some v.session.principal.id
      → audit.action ≡ codes "logout"
      → Ended w service token csrf view work
          (after_revoke w service (
            w.revoke_session_with_audit k
              (hash w service session_cookie token)
              at
              RevocationReason.logout
              audit))
          (session_revoked (hash w service session_cookie token) at RevocationReason.logout audit
            ∷ k)

empty_or_other :
    (csrf : Text) (d e : Digest) → (is_empty csrf || not (d == e)) ≡ true → (csrf ≡ []) ⊎ (d ≢ e)
empty_or_other [] d e h = inl refl
empty_or_other (c ∷ t) d e h = inr (λ same. absurd (ground arith))

neither_empty_nor_other :
    (csrf : Text) (d e : Digest) → (is_empty csrf || not (d == e)) ≡ false → (csrf ≢ []) × (d ≡ e)
neither_empty_nor_other [] d e h = absurd (ground arith)
neither_empty_nor_other (c ∷ t) d e h = (λ same. absurd (ground arith), ground arith)

resolve-Ended :
    (w : World) (service : Service) (token csrf : Text) (metadata : RequestMetadata)
    (view : Result (Option SessionView)) (h work : History)
    → resolve_session w service token h ≡ (view, work)
    → let run = after_resolve w service token csrf metadata view work in
      Ended w service token csrf view work run.0 run.1
unfolding after_resolve
resolve-Ended w service token csrf metadata (fail e) h work found = unresolved e refl
resolve-Ended w service token csrf metadata (ok none) h work found = anonymous refl
resolve-Ended w service token csrf metadata (ok (some v)) h work found =
    let session = resolve_session_bound w service token h work v found in
    let given : Digest = hash w service csrf_token csrf in
    elim (Bool-cases (is_empty csrf || not (given == v.session.csrf_digest))) [
      | inl bad ↦ rw bad (refused v refl (empty_or_other csrf given v.session.csrf_digest bad))
      | inr good ↦
          let (some_csrf, same) = neither_empty_nor_other csrf given v.session.csrf_digest good in
          rw good (
            revoked v (id_drawn ∷ clock_read ∷ work) (w.now work) _ refl session some_csrf same refl
              refl)
    ]

-- A logout with a cookie ends in one of four ways, after looking the session up: the browser was
-- anonymous, and nothing more is called; the lookup failed, and so does the logout; the CSRF token
-- was empty or had not the session's digest, and the logout is refused with nothing more called; or
-- it had, and the last call revoked that session, together with an audit that names its account.
pub logout_ends :
    (w : World) (service : Service) (token csrf : Text) (metadata : RequestMetadata) (h : History)
    → token ≢ []
    → Ended w service token csrf
        (resolve_session w service token h).0
        (resolve_session w service token h).1
        (logout w service token csrf metadata h).0
        (logout w service token csrf metadata h).1
unfolding logout
logout_ends w service [] csrf metadata h named = absurd (named refl)
logout_ends w service (c ∷ t) csrf metadata h named =
    let (view, work) = resolve_session w service (c ∷ t) h in
    resolve-Ended w service (c ∷ t) csrf metadata view h work refl
