-- ===== src/Identity/Started.antt =====
-- What `StartLogin` has stored when it answers.
use mail_suite.Base.{
  ◌≡◌, refl, subst, inl, inr, ℕ, Text, Option, none, some, List, ◌∷◌, is_empty, arith, Bool-cases,
  if◌then◌else◌,
}
use mail_suite.Base.Int.{ℤ, ◌+ℤ◌}
use mail_suite.Errors.{Error, Result, ok, fail}
use mail_suite.Identity.{AuthFlowToCreate, default_auth_flow_lifetime}
use mail_suite.Identity.Secret.{auth_flow_state, auth_flow_cookie, oidc_nonce}
use mail_suite.Identity.Pkce.{encrypt, pkce_challenge}
use mail_suite.Identity.ReturnPath.{normalize_return_path}
use mail_suite.Identity.World.{
  RequestMetadata, LoginStart, clock_read, id_drawn, nonce_drawn, flow_created,
  authorization_requested, History, World, Service,
}
use mail_suite.Identity.Service.{
  hash, default_mailbox_landing, after_audit, login_failure, normalize_provider_error,
}
use mail_suite.Identity.StartLogin.{
  FlowSecrets, after_url, after_create_flow, after_encrypt, after_challenge, after_secrets,
  after_normalize, start_login,
}

-- The flow of a started login. The provider is asked with the secrets of which the flow keeps digests.
pub record Started (w : World) (service : Service) (requested : Text) (start : LoginStart)
    (h' : History) : Type 0 where
  pub secrets : FlowSecrets
  pub flow : AuthFlowToCreate
  pub before_create : History
  pub random : Option (List ℕ)
  pub stored : w.create_auth_flow before_create flow ≡ none
  pub last :
      h'
      ≡ authorization_requested secrets.state secrets.nonce (w.challenge_of secrets.verifier)
        ∷ flow_created flow
        ∷ before_create
  pub cookie : start.browser_cookie ≡ secrets.browser_cookie
  pub state_digest : flow.state_digest ≡ hash w service auth_flow_state secrets.state
  pub cookie_digest :
      flow.browser_cookie_digest ≡ hash w service auth_flow_cookie secrets.browser_cookie
  pub nonce_digest : flow.nonce_digest ≡ hash w service oidc_nonce secrets.nonce
  pub sealed :
      encrypt w.aead service.pkce random secrets.verifier
      ≡ ok (flow.pkce_verifier_ciphertext, flow.encryption_key_id)
  pub expiry : start.expires_at ≡ flow.expires_at
  pub lifetime : flow.expires_at ≡ flow.created_at +ℤ default_auth_flow_lifetime
  pub return_to : normalize_return_path w.host requested ≡ ok flow.return_to

abbrev Starts : World → Service → Text → Result LoginStart × History → Type 0
Starts w service requested (ok start, h') = Started w service requested start h'
Starts w service requested (fail e, h') = Unit {0}

module _ (w : World) (service : Service) (requested : Text) where
  audit-Starts :
      (e : Error) (answer : Option Error) (h : History)
      → Starts w service requested (after_audit e answer, h)
  audit-Starts e none h = tt
  audit-Starts e (some failure) h = tt

  failure-Starts :
      (metadata : RequestMetadata) (e : Error) (h : History)
      → Starts w service requested (login_failure w service metadata e h)
  unfolding login_failure
  failure-Starts metadata e h = audit-Starts e _ _

  url-Starts :
      (metadata : RequestMetadata) (secrets : FlowSecrets) (expires : ℤ) (url : Result Text)
      (h : History)
      → ((start : LoginStart)
          → start.browser_cookie ≡ secrets.browser_cookie
          → start.expires_at ≡ expires
          → Started w service requested start h)
      → Starts w service requested (after_url w service metadata secrets expires url h)
  unfolding after_url
  url-Starts metadata secrets expires (fail e) h started =
      failure-Starts metadata (normalize_provider_error e) h
  url-Starts metadata secrets expires (ok url) h started = started _ refl refl

  flow-Starts :
      (metadata : RequestMetadata) (secrets : FlowSecrets) (challenge : Text) (expires : ℤ)
      (answer : Option Error) (h : History)
      → (answer ≡ none
          → (start : LoginStart) → start.browser_cookie ≡ secrets.browser_cookie
          → start.expires_at ≡ expires
          → Started w service requested start
              (authorization_requested secrets.state secrets.nonce challenge ∷ h))
      → Starts w service requested
          (after_create_flow w service metadata secrets challenge expires answer h)
  unfolding after_create_flow
  flow-Starts metadata secrets challenge expires (some e) h started = failure-Starts metadata e h
  flow-Starts metadata secrets challenge expires none h started =
      url-Starts metadata secrets expires _ _ (started refl)

  encrypt-Starts :
      (metadata : RequestMetadata) (return_to : Text) (secrets : FlowSecrets)
      (random : Option (List ℕ)) (sealed : Result (List ℕ × Text)) (h : History)
      → normalize_return_path w.host requested ≡ ok return_to
      → encrypt w.aead service.pkce random secrets.verifier ≡ sealed
      → Starts w service requested (
          after_encrypt w service metadata return_to secrets
            (w.challenge_of secrets.verifier)
            sealed
            h)
  unfolding after_encrypt
  encrypt-Starts metadata return_to secrets random (fail e) h normal sealed =
      failure-Starts metadata e h
  encrypt-Starts metadata return_to secrets random (ok (ciphertext, key_id)) h normal sealed =
      flow-Starts metadata secrets (w.challenge_of secrets.verifier)
        (w.now h +ℤ default_auth_flow_lifetime) _ _
        (λ stored start cookie expires. record {
          secrets = secrets;
          flow = _;
          before_create = id_drawn ∷ clock_read ∷ h;
          random = random;
          stored = stored;
          last = refl;
          cookie = cookie;
          state_digest = refl;
          cookie_digest = refl;
          nonce_digest = refl;
          sealed = sealed;
          expiry = expires;
          lifetime = refl;
          return_to = normal;
        })

  challenge-Starts :
      (metadata : RequestMetadata) (return_to : Text) (secrets : FlowSecrets)
      (challenge : Result Text) (h : History)
      → normalize_return_path w.host requested ≡ ok return_to
      → pkce_challenge w.challenge_of secrets.verifier ≡ challenge
      → Starts w service requested
          (after_challenge w service metadata return_to secrets challenge h)
  unfolding after_challenge pkce_challenge
  challenge-Starts metadata return_to secrets (fail e) h normal asked = failure-Starts metadata e h
  challenge-Starts metadata return_to secrets (ok challenge) h normal asked =
      let same : w.challenge_of secrets.verifier ≡ challenge = ground arith in
      subst
        (λ c.
          Starts w service requested
            (after_challenge w service metadata return_to secrets (ok c) h))
        same
        (encrypt-Starts metadata return_to secrets (w.new_nonce h) _ (nonce_drawn ∷ h) normal refl)

  secrets-Starts :
      (metadata : RequestMetadata) (return_to : Text) (secrets : Result FlowSecrets) (h : History)
      → normalize_return_path w.host requested ≡ ok return_to
      → Starts w service requested (after_secrets w service metadata return_to secrets h)
  unfolding after_secrets
  secrets-Starts metadata return_to (fail e) h normal = failure-Starts metadata e h
  secrets-Starts metadata return_to (ok secrets) h normal =
      challenge-Starts metadata return_to secrets _ h normal refl

  normalize-Starts :
      (metadata : RequestMetadata) (normal : Result Text) (h : History)
      → normalize_return_path w.host requested ≡ normal
      → Starts w service requested (after_normalize w service metadata normal h)
  unfolding after_normalize
  normalize-Starts metadata (fail e) h normal = failure-Starts metadata e h
  normalize-Starts metadata (ok return_to) h normal = secrets-Starts metadata return_to _ _ normal

abbrev pub requested_path : Text → Text
requested_path return_to = if is_empty return_to then default_mailbox_landing else return_to

start_login-Starts :
    (w : World) (service : Service) (return_to : Text) (metadata : RequestMetadata) (h : History)
    → Starts w service (requested_path return_to) (start_login w service return_to metadata h)
unfolding start_login
start_login-Starts w service return_to metadata h =
    elim (Bool-cases (is_empty metadata.request_id)) [
      | inl blank ↦ rw blank tt
      | inr named ↦
          rw named (normalize-Starts w service (requested_path return_to) metadata _ h refl)
    ]

-- A login that is started has stored its flow just before it asked the provider for the address: the
-- flow keeps the digests of the state and the nonce that the provider is given and of the cookie that
-- the browser is given, the sealed verifier of the provider's challenge, and the normal form of the
-- return path, `/mail/inbox` if none was given; it expires ten minutes after it was made, and the
-- browser's cookie with it.
pub start_login_stores :
    (w : World) (service : Service) (return_to : Text) (metadata : RequestMetadata) (h h' : History)
    (start : LoginStart)
    → start_login w service return_to metadata h ≡ (ok start, h')
    → Started w service (requested_path return_to) start h'
start_login_stores w service return_to metadata h h' start e =
    subst (Starts w service (requested_path return_to)) e
      (start_login-Starts w service return_to metadata h)
