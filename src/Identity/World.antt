-- ===== src/Identity/World.antt =====
-- What the service of src/backend/internal/identity/service.go is given, and what it calls: the
-- repository, the OIDC provider, the clock and the random sources, as functions of what was called
-- before. Contexts are handed on unchanged, and left out.
use mail_suite.Base.{ℕ, Text, Uuid, Digest, Option, List}
use mail_suite.Base.Int.{ℤ}
use mail_suite.Errors.{Error, Result}
use mail_suite.Identity.{
  AuthFlowToCreate, ConsumedAuthFlow, Principal, SessionToCreate, CreatedSession, Session,
  RevocationReason, AuditEvent,
}
use mail_suite.Identity.Secret.{Crypto, SecretHasher}
use mail_suite.Identity.Pkce.{Aead, PkceCipher}
use mail_suite.Identity.ReturnPath.{Host}

pub record OidcIdentity : Type 0 where
  pub issuer : Text
  pub subject : Text
  pub session_id : Text
  pub nonce : Text
  pub acr : Text
  pub amr : List Text

pub record MfaPolicy : Type 0 where
  pub allowed_acr : List Text
  pub required_amr : List Text

pub record RequestMetadata : Type 0 where
  pub request_id : Text
  pub source : Text

pub record LoginStart : Type 0 where
  pub authorization_url : Text
  pub browser_cookie : Text
  pub expires_at : ℤ

pub record CallbackInput : Type 0 where
  pub state : Text
  pub browser_cookie : Text
  pub code : Text
  pub metadata : RequestMetadata

pub record CallbackResult : Type 0 where
  pub session_token : Text
  pub expires_at : ℤ
  pub redirect_to : Text

pub record LogoutResult : Type 0 where
  pub provider_logout_url : Text

-- A call of the service to its surroundings.
pub data Event : Type 0 where
  clock_read token_drawn id_drawn nonce_drawn : Event
  flow_created : AuthFlowToCreate → Event
  flow_consumed : Digest → Digest → ℤ → Event
  principal_resolved : Text → Text → Event
  session_created : SessionToCreate → AuditEvent → Event
  session_resolved : Digest → ℤ → Event
  session_revoked : Digest → ℤ → RevocationReason → AuditEvent → Event
  audited : AuditEvent → Event
  authorization_requested : Text → Text → Text → Event
  code_exchanged : Text → Text → Event

-- The latest first.
abbrev pub History : Type 0
History = List Event

pub record World : Type 0 where
  pub now : History → ℤ
  pub new_token : History → Result Text
  pub new_id : History → Uuid
  pub new_nonce : History → Option (List ℕ)
  pub create_auth_flow : History → AuthFlowToCreate → Option Error
  pub consume_auth_flow : History → Digest → Digest → ℤ → Result ConsumedAuthFlow
  pub resolve_principal : History → Text → Text → Result Principal
  pub create_session_with_audit : History → SessionToCreate → AuditEvent → Result CreatedSession
  pub resolve_session : History → Digest → ℤ → Result Session
  pub revoke_session_with_audit :
      History → Digest → ℤ → RevocationReason → AuditEvent → Option Error
  pub record_audit : History → AuditEvent → Option Error
  pub authorization_url : History → Text → Text → Text → Result Text
  pub exchange : History → Text → Text → Result OidcIdentity
  pub crypto : Crypto
  pub aead : Aead
  pub host : Host
  -- `sha256.Sum256` with `base64.RawURLEncoding`
  pub challenge_of : Text → Text

pub record Service : Type 0 where
  pub provider_logout_url : Text
  pub hasher : SecretHasher
  pub pkce : PkceCipher
  pub mfa_policy : MfaPolicy

-- A computation of the service: what it calls and what it returns.
abbrev pub Run : Type 0 → Type 0
Run A = History → Result A × History
