-- ===== src/Accounts.antt =====
-- src/backend/internal/data/postgres/identity_repository.go with query/identity.sql: login flows,
-- sessions, accounts and audits as rows. Here are the rows, the checks of what is stored, and the
-- reading of an account.
pub mod Rows
pub mod Flows
pub mod Sessions
pub mod Resolve
pub mod Steps
pub mod Changes
pub mod Spent
pub mod Once
pub mod Ended
pub mod Lifetimes
pub mod Entitled
pub mod Live
pub mod Atomic
mod Tests
use mail_suite.Base.{
  ℕ, ◌+◌, ◌*◌, ◌/◌, Text, codes, Uuid, nil_uuid, Digest, Bool, false, ◌&&◌, ◌||◌, not, Option, none,
  some, List, [], ◌∷◌, ◌++◌, length, ltb, ◌==◌, ◌=ₜ◌, is_empty, trim_space, if◌then◌else◌,
}
use mail_suite.Base.Int.{ℤ, pos, negsuc, ◌+ℤ◌, leb_ℤ, ltb_ℤ, ◌=ℤ◌}
use mail_suite.Errors.{
  invalid_request, auth_forbidden, persistence_unavailable, Error, plain, opaque, cause_of, Result,
  ok, fail, is_canceled, is_deadline_exceeded,
}
use mail_suite.Identity.{
  default_auth_flow_lifetime, default_session_idle_timeout, default_session_absolute_timeout,
  AccountType, new_error, Mailbox, Principal, AuthFlowToCreate, SessionToCreate, RevocationReason,
  AuditEvent,
}
use mail_suite.Identity.ReturnPath.{Host, normalize_return_path}

pub record IdentityRepository : Type 0 where
  pub idle_timeout : ℤ
  pub touch_interval : ℤ

unfoldable pub new_identity_repository : Bool → ℤ → ℤ → Result IdentityRepository
new_identity_repository has_pool idle_timeout touch_interval =
    if not has_pool
    then fail (plain (opaque (codes "身份 repository 需要 PostgreSQL 连接池")))
    else if leb_ℤ idle_timeout (pos 0) || ltb_ℤ default_session_idle_timeout idle_timeout
    then fail (plain (opaque (codes "会话空闲超时必须大于零且不超过 30 分钟")))
    else if leb_ℤ touch_interval (pos 0) || ltb_ℤ idle_timeout touch_interval
    then fail (plain (opaque (codes "会话访问写入间隔必须大于零且不超过空闲超时")))
    else ok (record { idle_timeout = idle_timeout; touch_interval = touch_interval })

unfoldable pub identity_persistence_error : Error → Error
identity_persistence_error err =
    if is_canceled (cause_of err) || is_deadline_exceeded (cause_of err)
    then err
    else new_error persistence_unavailable

-- An instant as the database keeps it: whole microseconds, rounded down.
unfoldable pub timestamptz : ℤ → ℤ
timestamptz (pos n) = pos (n / 1000 * 1000)
timestamptz (negsuc n) = negsuc (n / 1000 * 1000 + 999)

unfoldable pub nullable_text : Text → Option Text
nullable_text value = if is_empty value then none else some value

pub record FlowRow : Type 0 where
  pub id : Uuid
  pub state_digest : Digest
  pub browser_cookie_digest : Digest
  pub nonce_digest : Digest
  pub pkce_verifier_ciphertext : List ℕ
  pub encryption_key_id : Text
  pub return_to : Text
  pub created_at : ℤ
  pub expires_at : ℤ
  pub consumed_at : Option ℤ

pub record SessionRow : Type 0 where
  pub id : Uuid
  pub session_digest : Digest
  pub principal_id : Uuid
  pub oidc_issuer : Text
  pub oidc_subject : Text
  pub oidc_session_id : Option Text
  pub csrf_digest : Digest
  pub created_at : ℤ
  pub last_seen_at : ℤ
  pub idle_expires_at : ℤ
  pub absolute_expires_at : ℤ
  pub revoked : Option (ℤ × RevocationReason)

-- An account with its tenant and mailbox, as the statements join them. `is_active` is the status of the
-- account, `serves_mailbox` that its mailbox is of its tenant and active.
pub record PrincipalRow : Type 0 where
  pub id : Uuid
  pub tenant_id : Uuid
  pub oidc_issuer : Text
  pub oidc_subject : Text
  pub account_type : AccountType
  pub display_name : Text
  pub mailbox_id : Option Uuid
  pub mailbox_local_part : Option Text
  pub mailbox_domain : Option Text
  pub is_active : Bool
  pub tenant_active : Bool
  pub serves_mailbox : Bool

-- The permissions of an account are in the order of the statement.
pub record Store : Type 0 where
  pub flows : List FlowRow
  pub sessions : List SessionRow
  pub principals : List PrincipalRow
  pub permissions : Uuid → List Text
  pub audits : List AuditEvent

-- The checks of `CreateAuthFlow`; `normalized` is what `NormalizeReturnPath` makes of the path.
unfoldable pub is_normal : Text → Result Text → Bool
is_normal return_to (ok normalized) = normalized =ₜ return_to
is_normal return_to (fail e) = false

unfoldable pub rejects_flow : Host → AuthFlowToCreate → Bool
rejects_flow host flow =
    flow.id == nil_uuid
    || ltb (length flow.pkce_verifier_ciphertext) 32
    || ltb 4096 (length flow.pkce_verifier_ciphertext)
    || is_empty flow.encryption_key_id
    || not (flow.encryption_key_id =ₜ trim_space flow.encryption_key_id)
    || not (is_normal flow.return_to (normalize_return_path host flow.return_to))
    || flow.created_at =ℤ pos 0
    || leb_ℤ flow.expires_at flow.created_at
    || ltb_ℤ (flow.created_at +ℤ default_auth_flow_lifetime) flow.expires_at

-- The checks of `createSession`.
unfoldable pub rejects_session : SessionToCreate → Bool
rejects_session session =
    session.id == nil_uuid
    || session.principal_id == nil_uuid
    || is_empty session.oidc_issuer
    || is_empty session.oidc_subject
    || session.created_at =ℤ pos 0
    || leb_ℤ session.idle_expires_at session.created_at
    || ltb_ℤ (session.created_at +ℤ default_session_idle_timeout) session.idle_expires_at
    || leb_ℤ session.absolute_expires_at session.created_at
    || ltb_ℤ session.absolute_expires_at session.idle_expires_at
    || ltb_ℤ (session.created_at +ℤ default_session_absolute_timeout) session.absolute_expires_at

-- The checks of `createAudit`.
unfoldable pub rejects_audit : AuditEvent → Bool
rejects_audit event =
    let succeeded : Bool = event.result =ₜ codes "succeeded" in
    let failed : Bool = event.result =ₜ codes "failed" in
    event.id == nil_uuid
    || is_empty event.action
    || not succeeded && not failed
    || succeeded && not (is_empty event.failure_category)
    || failed && is_empty event.failure_category
    || is_empty event.request_id
    || event.occurred_at =ℤ pos 0

-- The mailbox of a row, which only an account of the type `mailbox` has, and must have.
unfoldable pub mailbox_from :
    AccountType → Option Uuid → Option Text → Option Text → Result (Option Mailbox)
mailbox_from AccountType.mailbox (some id) (some local_part) (some domain) =
    ok (some (record { id = id; address = local_part ++ b'@' ∷ domain }))
mailbox_from AccountType.mailbox _ _ _ = fail (new_error auth_forbidden)
mailbox_from AccountType.administrator none none none = ok none
mailbox_from AccountType.administrator _ _ _ = fail (new_error auth_forbidden)
mailbox_from (AccountType.other s) _ _ _ = fail (new_error auth_forbidden)

unfoldable pub principal_with : PrincipalRow → Result (Option Mailbox) → Result Principal
principal_with row (fail e) = fail e
principal_with row (ok mailbox) = ok (record {
  id = row.id;
  tenant_id = row.tenant_id;
  account_type = row.account_type;
  display_name = row.display_name;
  mailbox = mailbox;
})

unfoldable pub principal_from_row : PrincipalRow → Result Principal
principal_from_row row =
    principal_with row
      (mailbox_from row.account_type row.mailbox_id row.mailbox_local_part row.mailbox_domain)

abbrev pub has_text : Text → List Text → Bool
has_text t [] = false
has_text t (u ∷ us) = u =ₜ t || has_text t us

-- The part of the `WHERE` clauses on the account: active, with an active tenant, and with a mailbox
-- that serves or the permission for the administration.
unfoldable pub has_entry : AccountType → Bool → List Text → Bool
has_entry AccountType.mailbox serves permissions = serves
has_entry AccountType.administrator serves permissions =
    has_text (codes "portal.admin.access") permissions
has_entry (AccountType.other s) serves permissions = false

unfoldable pub is_admitted : Store → PrincipalRow → Bool
is_admitted s row =
    row.is_active
    && row.tenant_active
    && has_entry row.account_type row.serves_mailbox (s.permissions row.id)

-- `GetActivePrincipalByExternalIdentity`
unfoldable pub find_principal : Store → Text → Text → List PrincipalRow → Option PrincipalRow
find_principal s issuer subject [] = none
find_principal s issuer subject (row ∷ rows) =
    let rest = find_principal s issuer subject rows in
    if row.oidc_issuer =ₜ issuer && row.oidc_subject =ₜ subject && is_admitted s row
    then some row
    else rest

unfoldable pub found_principal : Option PrincipalRow → Result Principal
found_principal none = fail (new_error auth_forbidden)
found_principal (some row) = principal_from_row row

-- `outage` is the error of the statement, if it fails.
unfoldable pub resolve_principal : Option Error → Text → Text → Store → Result Principal
resolve_principal outage issuer subject s =
    if is_empty issuer || is_empty subject then fail (new_error invalid_request) else elim outage [
      | some e ↦ fail (identity_persistence_error e)
      | none ↦ found_principal (find_principal s issuer subject s.principals)
    ]
