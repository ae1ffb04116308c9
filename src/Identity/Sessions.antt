-- ===== src/Identity/Sessions.antt =====
-- `ResolveSession` and `Logout`. A nil view is `none`: the browser is anonymous.
use mail_suite.Base.{
  Text, codes, Digest, ◌||◌, not, Option, none, some, [], ◌∷◌, ◌==◌, is_empty, if◌then◌else◌,
}
use mail_suite.Base.Int.{ℤ}
use mail_suite.Errors.{Error, Result, ok, fail, cause_of, csrf_invalid}
use mail_suite.Identity.{new_error, Session, SessionView, RevocationReason, AuditEvent}
use mail_suite.Identity.Secret.{session_cookie, csrf_token, derive_csrf_token}
use mail_suite.Identity.World.{
  RequestMetadata, LogoutResult, clock_read, id_drawn, session_resolved, session_revoked, History,
  World, Service, Run,
}
use mail_suite.Identity.Service.{is_auth_required, hash, audit_event}

module _ (w : World) (service : Service) where
  unfoldable pub after_lookup : Text → Result Session → Result (Option SessionView)
  after_lookup session_token (fail err) =
      if is_auth_required (cause_of err) then ok none else fail err
  after_lookup session_token (ok session) =
      let csrf : Text = derive_csrf_token w.crypto service.hasher session_token in
      if hash w service csrf_token csrf == session.csrf_digest
      then ok (some (record { session = session; csrf_token = csrf }))
      else ok none

  unfoldable pub resolve_session : Text → Run (Option SessionView)
  resolve_session session_token h =
      if is_empty session_token
      then (ok none, h)
      else let digest : Digest = hash w service session_cookie session_token in
        let now : ℤ = w.now h in
        let h1 : History = clock_read ∷ h in
        (
          after_lookup session_token (w.resolve_session h1 digest now),
          session_resolved digest now ∷ h1,
        )

  abbrev pub logged_out : LogoutResult
  logged_out = record { provider_logout_url = service.provider_logout_url }

  abbrev pub after_revoke : Option Error → Result LogoutResult
  after_revoke (some err) = fail err
  after_revoke none = ok logged_out

  -- The part of `Logout` that follows `ResolveSession`.
  unfoldable pub after_resolve :
      Text → Text → RequestMetadata → Result (Option SessionView) → Run LogoutResult
  after_resolve session_token csrf metadata (fail err) h = (fail err, h)
  after_resolve session_token csrf metadata (ok none) h = (ok logged_out, h)
  after_resolve session_token csrf metadata (ok (some view)) h =
      if is_empty csrf || not (hash w service csrf_token csrf == view.session.csrf_digest)
      then (fail (new_error csrf_invalid), h)
      else let now : ℤ = w.now h in
        let h1 : History = clock_read ∷ h in
        let audit : AuditEvent =
          audit_event w service metadata (some view.session.principal.id) (codes "logout")
            (codes "succeeded") [] now h1 in
        let h2 : History = id_drawn ∷ h1 in
        let digest : Digest = hash w service session_cookie session_token in
        (
          after_revoke (w.revoke_session_with_audit h2 digest now RevocationReason.logout audit),
          session_revoked digest now RevocationReason.logout audit ∷ h2,
        )

  unfoldable pub logout : Text → Text → RequestMetadata → Run LogoutResult
  logout session_token csrf metadata h =
      if is_empty session_token
      then (ok logged_out, h)
      else let (view, h1) = resolve_session session_token h in
        after_resolve session_token csrf metadata view h1
