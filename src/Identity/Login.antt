-- ===== src/Identity/Login.antt =====
-- `CompleteLogin` and `RejectLogin`. Where one returns after a failed call, what follows the call is
-- a function of the call's result.
use mail_suite.Base.{
  Text, codes, Digest, Bool, true, false, ◌&&◌, ◌||◌, not, some, [], ◌∷◌, ◌==◌, is_empty,
  if◌then◌else◌,
}
use mail_suite.Base.Int.{ℤ, ◌+ℤ◌}
use mail_suite.Errors.{Result, ok, fail, auth_forbidden, auth_flow_invalid, persistence_unavailable}
use mail_suite.Identity.{
  new_error, AccountType, administrator, Principal, ConsumedAuthFlow, SessionToCreate,
  CreatedSession, AuditEvent, default_session_idle_timeout, default_session_absolute_timeout,
}
use mail_suite.Identity.Secret.{
  session_cookie, auth_flow_state, auth_flow_cookie, oidc_nonce, csrf_token, derive_csrf_token,
}
use mail_suite.Identity.Pkce.{decrypt}
use mail_suite.Identity.World.{
  OidcIdentity, RequestMetadata, CallbackInput, CallbackResult, clock_read, token_drawn, id_drawn,
  flow_consumed, principal_resolved, session_created, code_exchanged, History, World, Service, Run,
}
use mail_suite.Identity.Service.{
  normalize_provider_error, landing_for, mfa_satisfied, hash, audit_event, login_failure,
}

abbrev pub is_administrator : AccountType → Bool
is_administrator administrator = true
is_administrator _ = false

module _ (w : World) (service : Service) where
  unfoldable pub after_create_session :
      ConsumedAuthFlow → Principal → Text → Result CreatedSession → Run CallbackResult
  after_create_session flow principal session_token (fail err) h = (fail err, h)
  after_create_session flow principal session_token (ok created) h = (
    ok (record {
      session_token = session_token;
      expires_at = created.absolute_expires_at;
      redirect_to = landing_for principal.account_type flow.return_to;
    }),
    h,
  )

  -- The session that `CompleteLogin` stores, its audit event, and their storing.
  unfoldable pub after_token :
      CallbackInput
      → ℤ
      → ConsumedAuthFlow
      → OidcIdentity
      → Principal
      → Result Text
      → Run CallbackResult
  after_token input now flow external principal (fail err) h =
      login_failure w service input.metadata (new_error persistence_unavailable) h
  after_token input now flow external principal (ok session_token) h =
      let csrf : Text = derive_csrf_token w.crypto service.hasher session_token in
      let session : SessionToCreate = record {
        id = w.new_id h;
        session_digest = hash w service session_cookie session_token;
        principal_id = principal.id;
        oidc_issuer = external.issuer;
        oidc_subject = external.subject;
        oidc_session_id = external.session_id;
        csrf_digest = hash w service csrf_token csrf;
        created_at = now;
        idle_expires_at = now +ℤ default_session_idle_timeout;
        absolute_expires_at = now +ℤ default_session_absolute_timeout;
      } in
      let h1 : History = id_drawn ∷ h in
      let audit : AuditEvent =
        audit_event w service input.metadata (some principal.id) (codes "login") (codes "succeeded")
          [] now h1 in
      let h2 : History = id_drawn ∷ h1 in
      after_create_session flow principal session_token
        (w.create_session_with_audit h2 session audit) (session_created session audit ∷ h2)

  unfoldable pub after_principal :
      CallbackInput → ℤ → ConsumedAuthFlow → OidcIdentity → Result Principal → Run CallbackResult
  after_principal input now flow external (fail err) h =
      login_failure w service input.metadata err h
  after_principal input now flow external (ok principal) h =
      if is_administrator principal.account_type && not (mfa_satisfied service.mfa_policy external)
      then login_failure w service input.metadata (new_error auth_forbidden) h
      else after_token input now flow external principal (w.new_token h) (token_drawn ∷ h)

  unfoldable pub after_exchange :
      CallbackInput → ℤ → ConsumedAuthFlow → Result OidcIdentity → Run CallbackResult
  after_exchange input now flow (fail err) h =
      login_failure w service input.metadata (normalize_provider_error err) h
  after_exchange input now flow (ok external) h =
      if not (hash w service oidc_nonce external.nonce == flow.nonce_digest)
        || is_empty external.issuer
        || is_empty external.subject
      then login_failure w service input.metadata (new_error auth_flow_invalid) h
      else after_principal input now flow external
          (w.resolve_principal h external.issuer external.subject)
          (principal_resolved external.issuer external.subject ∷ h)

  unfoldable pub after_decrypt :
      CallbackInput → ℤ → ConsumedAuthFlow → Result Text → Run CallbackResult
  after_decrypt input now flow (fail err) h = login_failure w service input.metadata err h
  after_decrypt input now flow (ok verifier) h =
      after_exchange input now flow (w.exchange h input.code verifier)
        (code_exchanged input.code verifier ∷ h)

  unfoldable pub after_consume : CallbackInput → ℤ → Result ConsumedAuthFlow → Run CallbackResult
  after_consume input now (fail err) h = login_failure w service input.metadata err h
  after_consume input now (ok flow) h =
      after_decrypt input now flow
        (decrypt w.aead service.pkce flow.pkce_verifier_ciphertext flow.encryption_key_id) h

  unfoldable pub complete_login : CallbackInput → Run CallbackResult
  complete_login input h =
      if is_empty input.state
        || is_empty input.browser_cookie
        || is_empty input.code
        || is_empty input.metadata.request_id
      then (fail (new_error auth_flow_invalid), h)
      else let now : ℤ = w.now h in
        let h1 : History = clock_read ∷ h in
        let state : Digest = hash w service auth_flow_state input.state in
        let cookie : Digest = hash w service auth_flow_cookie input.browser_cookie in
        after_consume input now (w.consume_auth_flow h1 state cookie now)
          (flow_consumed state cookie now ∷ h1)

  unfoldable pub reject_login : Text → Text → RequestMetadata → Run (Unit {0})
  reject_login state browser_cookie metadata h =
      if is_empty state || is_empty browser_cookie || is_empty metadata.request_id
      then (if is_empty metadata.request_id
          then (fail (new_error auth_flow_invalid), h)
          else login_failure w service metadata (new_error auth_flow_invalid) h)
      else let now : ℤ = w.now h in
        let h1 : History = clock_read ∷ h in
        let state_digest : Digest = hash w service auth_flow_state state in
        let cookie_digest : Digest = hash w service auth_flow_cookie browser_cookie in
        let h2 : History = flow_consumed state_digest cookie_digest now ∷ h1 in
        elim (w.consume_auth_flow h1 state_digest cookie_digest now) [
          | fail err ↦ login_failure w service metadata err h2
          | ok flow ↦ login_failure w service metadata (new_error auth_flow_invalid) h2
        ]
