-- ===== src/Authorization.antt =====
-- src/backend/internal/authorization/authorization.go: what a request is allowed to do.
pub mod Permissions
pub mod Access
pub mod Mutation
pub mod Boundary
mod Tests
use mail_suite.Base.{
  Text, Uuid, nil_uuid, Digest, Bool, true, false, ◌&&◌, ◌||◌, not, Option, none, some, List, [],
  ◌∷◌, ltb, ◌==◌, ◌=ₜ◌, is_empty, trim_space, if◌then◌else◌,
}
use mail_suite.Base.Int.{ℤ}
use mail_suite.Errors.{
  AuthorizationCode, auth_required, auth_forbidden, not_found, authorization_error, Error, plain,
  Result, ok, fail, ◌>>◌, reject_if,
}
use mail_suite.Identity.{
  AccountType, mailbox, administrator, valid_account_type, Mailbox, Principal, SessionView,
  permission_portal_admin_access,
}

-- An unknown code becomes `AUTH_FORBIDDEN`.
unfoldable pub new_error : AuthorizationCode → Error
new_error (AuthorizationCode.other s) = plain (authorization_error auth_forbidden)
new_error code = plain (authorization_error code)

pub record Context : Type 0 where
  pub principal_id : Uuid
  pub tenant_id : Uuid
  pub account_type : AccountType
  pub mailbox_id : Uuid
  pub permissions : List Text
  pub csrf_digest : Digest
  pub csrf_verified : Bool
  pub request_id : Text

-- The order of Go strings: on UTF-8 it is the order of the code points.
unfoldable pub less : Text → Text → Bool
less t [] = false
less [] (d ∷ u) = true
less (c ∷ t) (d ∷ u) = ltb c d || c == d && less t u

unfoldable pub insert : Text → List Text → List Text
insert p [] = p ∷ []
insert p (q ∷ l) = if less q p then q ∷ insert p l else p ∷ q ∷ l

-- `sort.Strings`
unfoldable pub sort : List Text → List Text
unfolding insert
sort [] = []
sort (p ∷ l) = insert p (sort l)

-- What `sort.SearchStrings` leaves of a sorted list: the elements from the first that is not less.
unfoldable pub from_search : List Text → Text → List Text
from_search [] p = []
from_search (q ∷ l) p = let rest = from_search l p in if less q p then rest else q ∷ l

-- `index < len(permissions) && permissions[index] == permission`
abbrev pub starts_with : List Text → Text → Bool
starts_with [] p = false
starts_with (q ∷ l) p = q =ₜ p

unfoldable pub has_permission : Context → Text → Bool
has_permission context permission =
    starts_with (from_search context.permissions permission) permission

-- The helper `mailboxID`.
abbrev pub id_of_mailbox : Option Mailbox → Uuid
id_of_mailbox none = nil_uuid
id_of_mailbox (some m) = m.id

abbrev pub is_mailbox : AccountType → Bool
is_mailbox mailbox = true
is_mailbox _ = false

abbrev pub is_administrator : AccountType → Bool
is_administrator administrator = true
is_administrator _ = false

abbrev pub is_none : Option Mailbox → Bool
is_none none = true
is_none (some m) = false

-- `principal.Mailbox == nil || principal.Mailbox.ID == uuid.Nil` is the same test of `id_of_mailbox`.
unfoldable pub rejects_mailbox : Principal → Bool
rejects_mailbox principal =
    if is_mailbox principal.account_type
    then is_none principal.mailbox || id_of_mailbox principal.mailbox == nil_uuid
    else not (is_none principal.mailbox)

-- What a `*http.Request` tells, by the canonical names of its headers.
pub record Request : Type 0 where
  pub method : Text
  pub content_length : ℤ
  pub header : Text → List Text

pub record Url : Type 0 where
  pub scheme : Text
  pub host : Text
  pub path : Text
  pub raw_query : Text

-- What the package takes from Go's library: SHA-256, `url.ParseRequestURI`, `mime.ParseMediaType`.
pub record Host : Type 0 where
  pub sha256 : Text → Digest
  pub parse_request_uri : Text → Option Url
  pub parse_media_type : Text → Option Text

unfoldable pub new_context : Host → Option SessionView → Text → Result Context
new_context host none request_id = fail (new_error auth_required)
new_context host (some view) request_id = do
  let principal = view.session.principal
  reject_if
      (principal.id == nil_uuid
        || principal.tenant_id == nil_uuid
        || not (valid_account_type principal.account_type)
        || is_empty (trim_space request_id)
        || is_empty (trim_space view.csrf_token))
      (new_error auth_required)
  reject_if (rejects_mailbox principal) (new_error auth_forbidden)
  ok (record {
    principal_id = principal.id;
    tenant_id = principal.tenant_id;
    account_type = principal.account_type;
    mailbox_id = id_of_mailbox principal.mailbox;
    permissions = sort view.session.permissions;
    csrf_digest = host.sha256 view.csrf_token;
    csrf_verified = false;
    request_id = trim_space request_id;
  })

unfoldable pub verify_csrf : Host → Context → Text → Bool
verify_csrf host context token = not (is_empty token) && host.sha256 token == context.csrf_digest

unfoldable pub require_administrator : Context → Option Error
require_administrator context =
    if not (is_administrator context.account_type)
      || not (has_permission context permission_portal_admin_access)
    then some (new_error auth_forbidden)
    else none

unfoldable pub require_mailbox : Context → Uuid → Option Error
require_mailbox context resource_mailbox_id =
    if not (is_mailbox context.account_type)
      || resource_mailbox_id == nil_uuid
      || not (context.mailbox_id == resource_mailbox_id)
    then some (new_error not_found)
    else none

pub record Resource : Type 0 where
  pub tenant_id : Uuid
  pub mailbox_id : Uuid

unfoldable pub require_resource : Context → Resource → Option Error
require_resource context resource =
    if resource.tenant_id == nil_uuid || not (context.tenant_id == resource.tenant_id)
    then some (new_error not_found)
    else if is_administrator context.account_type
    then require_administrator context
    else require_mailbox context resource.mailbox_id
