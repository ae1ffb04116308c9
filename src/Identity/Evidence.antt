-- ===== src/Identity/Evidence.antt =====
-- What a login that succeeded rests on, and how one that was refused ends.
use mail_suite.Base.{◌≡◌, Text, codes, true, false, none, some, ◌∷◌, is_empty}
use mail_suite.Base.Int.{ℤ, ◌+ℤ◌}
use mail_suite.Errors.{Error, Result, ok, fail}
use mail_suite.Identity.{
  Principal, ConsumedAuthFlow, SessionToCreate, CreatedSession, AuditEvent,
  default_session_absolute_timeout,
}
use mail_suite.Identity.Secret.{
  session_cookie, auth_flow_state, auth_flow_cookie, oidc_nonce, csrf_token, derive_csrf_token,
}
use mail_suite.Identity.Pkce.{decrypt}
use mail_suite.Identity.World.{
  OidcIdentity, CallbackInput, CallbackResult, session_created, audited, History, World, Service,
}
use mail_suite.Identity.Service.{failure_category, landing_for, mfa_satisfied, hash}
use mail_suite.Identity.Login.{is_administrator}

-- The provider's answer, checked against the flow that this browser started.
pub record Proven (w : World) (service : Service) (input : CallbackInput) (now : ℤ)
    (flow : ConsumedAuthFlow) (external : OidcIdentity) : Type 0 where
  pub before_consume : History
  pub before_exchange : History
  pub verifier : Text
  pub consumed :
      w.consume_auth_flow before_consume
        (hash w service auth_flow_state input.state)
        (hash w service auth_flow_cookie input.browser_cookie)
        now
      ≡ ok flow
  pub decrypted :
      decrypt w.aead service.pkce flow.pkce_verifier_ciphertext flow.encryption_key_id ≡ ok verifier
  pub exchanged : w.exchange before_exchange input.code verifier ≡ ok external
  pub nonce : hash w service oidc_nonce external.nonce ≡ flow.nonce_digest
  pub issuer : is_empty external.issuer ≡ false
  pub subject : is_empty external.subject ≡ false

-- The account of that identity, and that its strong authentication sufficed.
pub record Admitted (w : World) (service : Service) (external : OidcIdentity)
    (principal : Principal) : Type 0 where
  pub before_resolve : History
  pub resolved : w.resolve_principal before_resolve external.issuer external.subject ≡ ok principal
  pub strong :
      is_administrator principal.account_type ≡ true
      → mfa_satisfied service.mfa_policy external ≡ true

-- The session of that account, stored together with the audit of the login.
pub record Stored (w : World) (service : Service) (now : ℤ) (flow : ConsumedAuthFlow)
    (external : OidcIdentity) (principal : Principal) (r : CallbackResult) (h' : History)
    : Type 0 where
  pub before_create : History
  pub session : SessionToCreate
  pub audit : AuditEvent
  pub created : CreatedSession
  pub stored : w.create_session_with_audit before_create session audit ≡ ok created
  pub last : h' ≡ session_created session audit ∷ before_create
  pub owner : session.principal_id ≡ principal.id
  pub cookie : session.session_digest ≡ hash w service session_cookie r.session_token
  pub csrf :
      session.csrf_digest
      ≡ hash w service csrf_token (derive_csrf_token w.crypto service.hasher r.session_token)
  pub bounded : session.absolute_expires_at ≡ now +ℤ default_session_absolute_timeout
  pub audited_owner : audit.principal_id ≡ some principal.id
  pub audited_result : audit.result ≡ codes "succeeded"
  pub expiry : r.expires_at ≡ created.absolute_expires_at
  pub landing : r.redirect_to ≡ landing_for principal.account_type flow.return_to

pub record LoggedIn (w : World) (service : Service) (input : CallbackInput) (r : CallbackResult)
    (h' : History) : Type 0 where
  pub now : ℤ
  pub flow : ConsumedAuthFlow
  pub external : OidcIdentity
  pub principal : Principal
  pub proven : Proven w service input now flow external
  pub admitted : Admitted w service external principal
  pub session : Stored w service now flow external principal r h'

-- How a refused login ends: with a failure that was put into the audit, where the audit's own
-- failure takes the place of the cause; or at a session that could not be stored.
pub data Refused (w : World) (e : Error) (h' : History) : Type 0 where
  recorded :
      (k : History) (event : AuditEvent)
      → h' ≡ audited event ∷ k
      → w.record_audit k event ≡ none
      → event.principal_id ≡ none
      → event.result ≡ codes "failed"
      → event.failure_category ≡ failure_category e
      → Refused w e h'
  unrecorded :
      (k : History) (event : AuditEvent)
      → h' ≡ audited event ∷ k
      → w.record_audit k event ≡ some e
      → Refused w e h'
  unstored :
      (k : History) (session : SessionToCreate) (audit : AuditEvent)
      → h' ≡ session_created session audit ∷ k
      → w.create_session_with_audit k session audit ≡ fail e
      → Refused w e h'

abbrev pub Settles : World → Service → CallbackInput → Result CallbackResult × History → Type 0
Settles w service input (ok r, h') = LoggedIn w service input r h'
Settles w service input (fail e, h') = Refused w e h'
