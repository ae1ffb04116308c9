-- ===== src/Authorization/Tests.antt =====
-- A mailbox account's session and a request of its browser.
use mail_suite.Base.{
  ◌≡◌, refl, ◌≢◌, ◌↔◌, ◌⊎◌, Text, nil_uuid, codes, true, false, none, some, List, [], ◌∷◌, arith,
  ◌=ₜ◌, is_space, trim_space, trim_left, trim_right, byte_len, if◌then◌else◌,
}
use mail_suite.Base.Int.{pos}
use mail_suite.Errors.{ok}
use mail_suite.Identity.{
  AccountType, mailbox, administrator, SessionView, permission_portal_admin_access,
  valid_account_type,
}
use mail_suite.Authorization.{
  Context, Request, Host, Resource, new_context, rejects_mailbox, sort, insert, less,
  has_permission, require_resource, require_mailbox,
}
use mail_suite.Authorization.Access.{require_resource_exact}

abbrev origin : Text
origin = codes "https://m.x"

abbrev host : Host
host = record {
  sha256 = λ t. byte_len t;
  parse_request_uri =
      λ t. some (record { scheme = codes "https"; host = codes "m.x"; path = []; raw_query = [] });
  parse_media_type = λ t. some t;
}

abbrev view : SessionView
view = record {
  session = record {
    id = 1;
    principal = record {
      id = 2;
      tenant_id = 3;
      account_type = mailbox;
      display_name = codes "Jo";
      mailbox = some (record { id = 4; address = codes "jo@x" });
    };
    permissions = codes "b" ∷ codes "a" ∷ [];
    created_at = pos 1;
    last_seen_at = pos 1;
    idle_expires_at = pos 9;
    absolute_expires_at = pos 9;
    csrf_digest = 5;
  };
  csrf_token = codes "token";
}

abbrev context : Context
context = record {
  principal_id = 2;
  tenant_id = 3;
  account_type = mailbox;
  mailbox_id = 4;
  permissions = codes "a" ∷ codes "b" ∷ [];
  csrf_digest = 5;
  csrf_verified = false;
  request_id = codes "r1";
}

abbrev own : Resource
own = record { tenant_id = 3; mailbox_id = 4 }

abbrev another : Resource
another = record { tenant_id = 3; mailbox_id = 5 }

abbrev elsewhere : Resource
elsewhere = record { tenant_id = 8; mailbox_id = 4 }

context_made : new_context host (some view) (codes "r1") ≡ ok context
unfolding new_context rejects_mailbox valid_account_type sort insert less trim_space trim_left
    trim_right is_space
context_made = refl

own_granted : require_resource context own ≡ none
unfolding require_resource require_mailbox
own_granted = refl

require_resource_exact_example :
    (require_resource context own ≡ none)
    ↔ (own.tenant_id ≢ nil_uuid)
      × (context.tenant_id ≡ own.tenant_id)
      × ((context.account_type ≡ administrator)
            × (has_permission context permission_portal_admin_access ≡ true)
          ⊎ (context.account_type ≡ AccountType.mailbox)
            × (own.mailbox_id ≢ nil_uuid)
            × (context.mailbox_id ≡ own.mailbox_id))
require_resource_exact_example = require_resource_exact context own

another_refused : require_resource context another ≢ none
unfolding require_resource require_mailbox
another_refused e = ground (arith, e)

elsewhere_refused : require_resource context elsewhere ≢ none
unfolding require_resource require_mailbox
elsewhere_refused e = ground (arith, e)

abbrev header : Text → List Text
header name =
    if name =ₜ codes "Origin"
    then origin ∷ []
    else if name =ₜ codes "X-CSRF-Token"
    then codes "token" ∷ []
    else if name =ₜ codes "Content-Type"
    then codes "application/json" ∷ []
    else if name =ₜ codes "Idempotency-Key"
    then codes "key-0123456789ab" ∷ []
    else []

abbrev request : Request
request = record { method = codes "POST"; content_length = pos 2; header = header }

abbrev verified : Context
verified = record context { csrf_verified = true }
