-- ===== src/Identity/StartLogin.antt =====
-- `StartLogin`. Where it returns after a failed call, what follows the call is a function of the call's
-- result.
use mail_suite.Base.{ℕ, Text, Option, none, some, List, ◌∷◌, is_empty, if◌then◌else◌}
use mail_suite.Base.Int.{ℤ, ◌+ℤ◌}
use mail_suite.Errors.{Error, Result, ok, fail, invalid_request, persistence_unavailable}
use mail_suite.Identity.{new_error, AuthFlowToCreate, default_auth_flow_lifetime}
use mail_suite.Identity.Secret.{auth_flow_state, auth_flow_cookie, oidc_nonce}
use mail_suite.Identity.Pkce.{encrypt, pkce_challenge}
use mail_suite.Identity.ReturnPath.{normalize_return_path}
use mail_suite.Identity.World.{
  RequestMetadata, LoginStart, clock_read, token_drawn, id_drawn, nonce_drawn, flow_created,
  authorization_requested, History, World, Service, Run,
}
use mail_suite.Identity.Service.{
  normalize_provider_error, default_mailbox_landing, hash, login_failure,
}

-- The four values of `newFlowSecrets`.
pub record FlowSecrets : Type 0 where
  pub state : Text
  pub browser_cookie : Text
  pub nonce : Text
  pub verifier : Text

module _ (w : World) (service : Service) where
  -- One round of the loop of `newFlowSecrets`.
  abbrev pub draw : {A : Type 0} → (Text → Run A) → Run A
  draw k h = elim (w.new_token h) [
    | fail err ↦ (fail (new_error persistence_unavailable), token_drawn ∷ h)
    | ok value ↦ k value (token_drawn ∷ h)
  ]

  unfoldable pub new_flow_secrets : Run FlowSecrets
  new_flow_secrets = draw (λ state. draw (λ browser_cookie. draw (λ nonce. draw (λ verifier h. (
    ok (record {
      state = state;
      browser_cookie = browser_cookie;
      nonce = nonce;
      verifier = verifier;
    }),
    h,
  )))))

  unfoldable pub after_url : RequestMetadata → FlowSecrets → ℤ → Result Text → Run LoginStart
  after_url metadata secrets expires_at (fail err) h =
      login_failure w service metadata (normalize_provider_error err) h
  after_url metadata secrets expires_at (ok url) h = (
    ok (record {
      authorization_url = url;
      browser_cookie = secrets.browser_cookie;
      expires_at = expires_at;
    }),
    h,
  )

  unfoldable pub after_create_flow :
      RequestMetadata → FlowSecrets → Text → ℤ → Option Error → Run LoginStart
  after_create_flow metadata secrets challenge expires_at (some err) h =
      login_failure w service metadata err h
  after_create_flow metadata secrets challenge expires_at none h =
      after_url metadata secrets expires_at
        (w.authorization_url h secrets.state secrets.nonce challenge)
        (authorization_requested secrets.state secrets.nonce challenge ∷ h)

  -- The flow that `StartLogin` stores, and its storing.
  unfoldable pub after_encrypt :
      RequestMetadata → Text → FlowSecrets → Text → Result (List ℕ × Text) → Run LoginStart
  after_encrypt metadata return_to secrets challenge (fail err) h =
      login_failure w service metadata err h
  after_encrypt metadata return_to secrets challenge (ok (ciphertext, key_id)) h =
      let now : ℤ = w.now h in
      let h1 : History = clock_read ∷ h in
      let expires_at : ℤ = now +ℤ default_auth_flow_lifetime in
      let flow : AuthFlowToCreate = record {
        id = w.new_id h1;
        state_digest = hash w service auth_flow_state secrets.state;
        browser_cookie_digest = hash w service auth_flow_cookie secrets.browser_cookie;
        nonce_digest = hash w service oidc_nonce secrets.nonce;
        pkce_verifier_ciphertext = ciphertext;
        encryption_key_id = key_id;
        return_to = return_to;
        created_at = now;
        expires_at = expires_at;
      } in
      let h2 : History = id_drawn ∷ h1 in
      after_create_flow metadata secrets challenge expires_at (w.create_auth_flow h2 flow)
        (flow_created flow ∷ h2)

  unfoldable pub after_challenge :
      RequestMetadata → Text → FlowSecrets → Result Text → Run LoginStart
  after_challenge metadata return_to secrets (fail err) h = login_failure w service metadata err h
  after_challenge metadata return_to secrets (ok challenge) h =
      after_encrypt metadata return_to secrets challenge
        (encrypt w.aead service.pkce (w.new_nonce h) secrets.verifier) (nonce_drawn ∷ h)

  unfoldable pub after_secrets : RequestMetadata → Text → Result FlowSecrets → Run LoginStart
  after_secrets metadata return_to (fail err) h = login_failure w service metadata err h
  after_secrets metadata return_to (ok secrets) h =
      after_challenge metadata return_to secrets (pkce_challenge w.challenge_of secrets.verifier) h

  unfoldable pub after_normalize : RequestMetadata → Result Text → Run LoginStart
  after_normalize metadata (fail err) h = login_failure w service metadata err h
  after_normalize metadata (ok return_to) h =
      let (secrets, h1) = new_flow_secrets h in after_secrets metadata return_to secrets h1

  unfoldable pub start_login : Text → RequestMetadata → Run LoginStart
  start_login return_to metadata h =
      if is_empty metadata.request_id
      then (fail (new_error invalid_request), h)
      else after_normalize metadata
          (normalize_return_path w.host
            (if is_empty return_to then default_mailbox_landing else return_to))
          h
