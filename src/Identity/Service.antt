-- ===== src/Identity/Service.antt =====
-- The methods of `Service` of src/backend/internal/identity/service.go.
use mail_suite.Base.{
  Text, codes, Uuid, Digest, Bool, true, false, ◌&&◌, ◌||◌, Option, none, some, List, [], ◌∷◌, ◌==◌,
  ◌=ₜ◌, is_empty, has_prefix, if◌then◌else◌,
}
use mail_suite.Base.Int.{ℤ}
use mail_suite.Errors.{
  IdentityCode, Cause, Error, plain, cause_of, Result, ok, fail, is_canceled, is_deadline_exceeded,
  persistence_unavailable,
}
use mail_suite.Identity.{new_error, AccountType, mailbox, administrator, AuditEvent}
use mail_suite.Identity.Secret.{Purpose, source, digest}
use mail_suite.Identity.World.{
  OidcIdentity, MfaPolicy, RequestMetadata, clock_read, id_drawn, audited, History, World, Service,
  Run,
}

-- `HasErrorCode` for the three codes that the service tests for.
abbrev pub is_auth_required : Cause → Bool
is_auth_required (Cause.identity_error IdentityCode.auth_required) = true
is_auth_required _ = false

abbrev pub is_auth_forbidden : Cause → Bool
is_auth_forbidden (Cause.identity_error IdentityCode.auth_forbidden) = true
is_auth_forbidden _ = false

abbrev pub is_persistence_unavailable : Cause → Bool
is_persistence_unavailable (Cause.identity_error IdentityCode.persistence_unavailable) = true
is_persistence_unavailable _ = false

abbrev pub is_identity_error : Cause → Bool
is_identity_error (Cause.identity_error c) = true
is_identity_error _ = false

unfoldable pub failure_category : Error → Text
failure_category err =
    if is_auth_forbidden (cause_of err)
    then codes "access_denied"
    else if is_persistence_unavailable (cause_of err)
    then codes "provider_unavailable"
    else codes "invalid_flow"

-- `normalizeProviderError`, for an error that is not nil.
unfoldable pub normalize_provider_error : Error → Error
unfolding is_canceled is_deadline_exceeded
normalize_provider_error err =
    if is_canceled (cause_of err) || is_deadline_exceeded (cause_of err)
    then err
    else if is_identity_error (cause_of err)
    then err
    else new_error persistence_unavailable

-- The text before the first `?`.
unfoldable pub path_only : Text → Text
path_only [] = []
path_only (c ∷ t) = let rest = path_only t in if c == b'?' then [] else c ∷ rest

abbrev pub default_mailbox_landing : Text
default_mailbox_landing = codes "/mail/inbox"

abbrev pub default_admin_landing : Text
default_admin_landing = codes "/admin/overview"

-- `path == portal || strings.HasPrefix(path, portal+"/")`
abbrev pub in_portal : Text → Text → Text → Bool
in_portal portal portal_slash path = path =ₜ portal || has_prefix path portal_slash

unfoldable pub landing_for : AccountType → Text → Text
landing_for mailbox candidate =
    if in_portal (codes "/mail") (codes "/mail/") (path_only candidate)
    then candidate
    else default_mailbox_landing
landing_for administrator candidate =
    if in_portal (codes "/admin") (codes "/admin/") (path_only candidate)
    then candidate
    else default_admin_landing
landing_for (AccountType.other s) candidate = codes "/forbidden"

-- `slices.Contains`
abbrev pub has_text : List Text → Text → Bool
has_text [] t = false
has_text (u ∷ l) t = u =ₜ t || has_text l t

abbrev pub has_all : List Text → List Text → Bool
has_all have [] = true
has_all have (t ∷ l) = has_text have t && has_all have l

abbrev pub has_none : List Text → Bool
has_none [] = true
has_none (t ∷ l) = false

unfoldable pub mfa_satisfied : MfaPolicy → OidcIdentity → Bool
mfa_satisfied policy external =
    (has_none policy.allowed_acr || has_text policy.allowed_acr external.acr)
    && has_all external.amr policy.required_amr

-- The guard of `NewService`; the first argument says whether a dependency is nil.
unfoldable pub new_service : Bool → Service → Result Service
new_service missing service =
    if missing
    then fail (plain (Cause.opaque (codes "认证服务依赖不能为空")))
    else if is_empty service.provider_logout_url
    then fail (plain (Cause.opaque (codes "OIDC provider 前台退出地址不能为空")))
    else if has_none service.mfa_policy.allowed_acr && has_none service.mfa_policy.required_amr
    then fail (plain (Cause.opaque (codes "管理员 MFA 策略不能为空")))
    else ok service

-- An audit that fails takes the place of the cause.
abbrev pub after_audit : {A : Type 0} → Error → Option Error → Result A
after_audit cause (some audit_error) = fail audit_error
after_audit cause none = fail cause

module _ (w : World) (service : Service) where
  abbrev pub hash : Purpose → Text → Digest
  hash purpose secret = digest w.crypto service.hasher purpose secret

  -- The event that `auditEvent` builds with the next identifier.
  abbrev pub audit_event :
      RequestMetadata → Option Uuid → Text → Text → Text → ℤ → History → AuditEvent
  audit_event metadata principal_id action result failure occurred_at h = record {
    id = w.new_id h;
    principal_id = principal_id;
    action = action;
    result = result;
    failure_category = failure;
    source_digest = hash source metadata.source;
    request_id = metadata.request_id;
    occurred_at = occurred_at;
  }

  unfoldable pub login_failure : {A : Type 0} → RequestMetadata → Error → Run A
  login_failure metadata cause h =
      let h1 : History = clock_read ∷ h in
      let event : AuditEvent =
        audit_event metadata none (codes "login") (codes "failed") (failure_category cause)
          (w.now h) h1 in
      let h2 : History = id_drawn ∷ h1 in
      (after_audit cause (w.record_audit h2 event), audited event ∷ h2)
