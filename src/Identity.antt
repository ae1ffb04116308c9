-- ===== src/Identity.antt =====
-- src/backend/internal/identity/identity.go: accounts, login flows, sessions and audit events.
-- Instants are nanoseconds since Go's zero time; a cookie, token or claim is its text.
pub mod Secret
pub mod Pkce
pub mod ReturnPath
pub mod World
pub mod Service
pub mod StartLogin
pub mod Login
pub mod Sessions
pub mod Evidence
pub mod Settlement
pub mod Authenticated
pub mod Landing
pub mod Guarded
pub mod Started
pub mod Tests
use mail_suite.Base.{
  ℕ, ◌*◌, Text, codes, Uuid, Digest, Bool, true, false, Option, List, if◌then◌else◌,
}
use mail_suite.Base.Int.{ℤ, pos, ltb_ℤ}
use mail_suite.Errors.{IdentityCode, persistence_unavailable, identity_error, Error, plain}

-- `time.Duration` constants, in nanoseconds.
abbrev pub minute : ℕ → ℤ
minute n = pos (n * 60000000000)

abbrev pub default_auth_flow_lifetime : ℤ
default_auth_flow_lifetime = minute 10

abbrev pub default_session_idle_timeout : ℤ
default_session_idle_timeout = minute 30

abbrev pub default_session_absolute_timeout : ℤ
default_session_absolute_timeout = minute 480

abbrev pub default_session_touch_interval : ℤ
default_session_touch_interval = minute 5

abbrev pub permission_portal_admin_access : Text
permission_portal_admin_access = codes "portal.admin.access"

pub data AccountType : Type 0 where
  mailbox administrator : AccountType
  other : Text → AccountType

unfoldable pub valid_account_type : AccountType → Bool
valid_account_type mailbox = true
valid_account_type administrator = true
valid_account_type (AccountType.other s) = false

-- An unknown code becomes `AUTH_SERVICE_UNAVAILABLE`.
unfoldable pub new_error : IdentityCode → Error
new_error (IdentityCode.other s) = plain (identity_error persistence_unavailable)
new_error code = plain (identity_error code)

pub record Mailbox : Type 0 where
  pub id : Uuid
  pub address : Text

pub record Principal : Type 0 where
  pub id : Uuid
  pub tenant_id : Uuid
  pub account_type : AccountType
  pub display_name : Text
  pub mailbox : Option Mailbox

pub record AuthFlowToCreate : Type 0 where
  pub id : Uuid
  pub state_digest : Digest
  pub browser_cookie_digest : Digest
  pub nonce_digest : Digest
  pub pkce_verifier_ciphertext : List ℕ
  pub encryption_key_id : Text
  pub return_to : Text
  pub created_at : ℤ
  pub expires_at : ℤ

pub record ConsumedAuthFlow : Type 0 where
  pub id : Uuid
  pub nonce_digest : Digest
  pub pkce_verifier_ciphertext : List ℕ
  pub encryption_key_id : Text
  pub return_to : Text
  pub expires_at : ℤ
  pub consumed_at : ℤ

pub record SessionToCreate : Type 0 where
  pub id : Uuid
  pub session_digest : Digest
  pub principal_id : Uuid
  pub oidc_issuer : Text
  pub oidc_subject : Text
  pub oidc_session_id : Text
  pub csrf_digest : Digest
  pub created_at : ℤ
  pub idle_expires_at : ℤ
  pub absolute_expires_at : ℤ

pub record CreatedSession : Type 0 where
  pub id : Uuid
  pub principal_id : Uuid
  pub created_at : ℤ
  pub idle_expires_at : ℤ
  pub absolute_expires_at : ℤ

pub record Session : Type 0 where
  pub id : Uuid
  pub principal : Principal
  pub permissions : List Text
  pub created_at : ℤ
  pub last_seen_at : ℤ
  pub idle_expires_at : ℤ
  pub absolute_expires_at : ℤ
  pub csrf_digest : Digest

-- `Session.ExpiresAt`
unfoldable pub expires_at : Session → ℤ
expires_at session =
    if ltb_ℤ session.idle_expires_at session.absolute_expires_at
    then session.idle_expires_at
    else session.absolute_expires_at

pub data RevocationReason : Type 0 where
  logout rotation backchannel_sid backchannel_subject : RevocationReason
  principal_disabled permission_revoked : RevocationReason
  other : Text → RevocationReason

unfoldable pub valid_revocation_reason : RevocationReason → Bool
valid_revocation_reason (RevocationReason.other s) = false
valid_revocation_reason _ = true

pub record AuditEvent : Type 0 where
  pub id : Uuid
  pub principal_id : Option Uuid
  pub action : Text
  pub result : Text
  pub failure_category : Text
  pub source_digest : Digest
  pub request_id : Text
  pub occurred_at : ℤ

-- `SessionView` of src/backend/internal/identity/service.go.
pub record SessionView : Type 0 where
  pub session : Session
  pub csrf_token : Text
