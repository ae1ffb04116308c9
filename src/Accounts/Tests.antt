-- ===== src/Accounts/Tests.antt =====
-- A login flow, its session and their end, on a store with one account.
use mail_suite.Base.{
  ◌≡◌, refl, subst, ◌⊎◌, codes, true, false, none, some, [], ◌∷◌, All, to_lower, lower_char,
  contains, is_control, trim_space, trim_left, trim_right, is_space,
}
use mail_suite.Base.Int.{pos, ◌+ℤ◌}
use mail_suite.Errors.{Error, plain, opaque, ok, fail}
use mail_suite.Identity.{
  mailbox, AuthFlowToCreate, ConsumedAuthFlow, SessionToCreate, Session, AuditEvent, logout,
  valid_revocation_reason,
}
use mail_suite.Identity.ReturnPath.{
  RequestUri, Host, normalize_return_path, normalize_parsed, has_control_character, bad_query,
  with_query, is_protected_portal_path,
}
use mail_suite.Identity.Tests.{world, service}
use mail_suite.Identity.Sessions.{after_lookup}
use mail_suite.Accounts.{
  IdentityRepository, Store, PrincipalRow, SessionRow, timestamptz, is_normal, rejects_flow,
  rejects_session, mailbox_from, principal_with, principal_from_row, has_entry, is_admitted,
}
use mail_suite.Accounts.Rows.{
  flow_row, flow_taken, consumable, find_consumable, session_row, session_taken, is_live,
  find_touchable, is_target, revoked_count,
}
use mail_suite.Accounts.Flows.{
  insert_flow, create_auth_flow, consumed_flow, consumed_with, update_flow, consume_auth_flow,
}
use mail_suite.Accounts.Sessions.{
  insert_session, create_session, Outages, unless_failed, create_session_with_audit, update_revoked,
  revoke_session,
}
use mail_suite.Accounts.Resolve.{
  account_of, find_session, Interruptions, is_stale, touch, touched, whole_microseconds,
  with_permissions, with_found, resolve_session,
}
use mail_suite.Accounts.Steps.{Later, now, then_step, flow_created, session_created}
use mail_suite.Accounts.Once.{consumed_once}
use mail_suite.Accounts.Ended.{has_digest, revoked_anonymous}
use mail_suite.Accounts.Lifetimes.{IsBounded, lifetimes-IsBounded}
use mail_suite.Accounts.Live.{IsLive, Carries, resolved-IsLive}
use mail_suite.Accounts.Atomic.{recorded, login_atomic}

abbrev uri : RequestUri
uri = record {
  is_abs = false;
  host = [];
  opaque = [];
  path = codes "/mail";
  escaped_path = codes "/mail";
  raw_query = [];
  fragment = [];
}

abbrev host : Host
host = record {
  parse_request_uri = λ t. some uri;
  query_unescape = λ t. some t;
  clean = λ t. t;
  lower = λ r. r;
}

abbrev account : PrincipalRow
account = record {
  id = 7;
  tenant_id = 5;
  oidc_issuer = codes "i";
  oidc_subject = codes "s";
  account_type = mailbox;
  display_name = codes "Ann";
  mailbox_id = some 9;
  mailbox_local_part = some (codes "ann");
  mailbox_domain = some (codes "x.de");
  is_active = true;
  tenant_active = true;
  serves_mailbox = true;
}

abbrev empty_store : Store
empty_store = record {
  flows = [];
  sessions = [];
  principals = account ∷ [];
  permissions = λ id. [];
  audits = [];
}

abbrev flow : AuthFlowToCreate
flow = record {
  id = 1;
  state_digest = 11;
  browser_cookie_digest = 12;
  nonce_digest = 13;
  pkce_verifier_ciphertext = codes "abcdefghijklmnopqrstuvwxyzabcdef";
  encryption_key_id = codes "k";
  return_to = codes "/mail";
  created_at = pos 1000;
  expires_at = pos 9000;
}

abbrev with_flow : Store
with_flow = record empty_store { flows = flow_row flow ∷ [] }

abbrev consumed : ConsumedAuthFlow
consumed = record {
  id = 1;
  nonce_digest = 13;
  pkce_verifier_ciphertext = flow.pkce_verifier_ciphertext;
  encryption_key_id = codes "k";
  return_to = codes "/mail";
  expires_at = pos 9000;
  consumed_at = pos 2000;
}

flow_stored : (create_auth_flow host none flow empty_store).1 ≡ with_flow
unfolding create_auth_flow rejects_flow is_normal normalize_return_path normalize_parsed
    has_control_character is_control to_lower lower_char contains bad_query with_query
    is_protected_portal_path trim_space trim_left trim_right is_space insert_flow flow_taken ◌+ℤ◌
flow_stored = refl

flow_consumed_first : (consume_auth_flow none 11 12 (pos 2500) with_flow).0 ≡ ok consumed
unfolding consume_auth_flow update_flow consumed_with find_consumable consumable consumed_flow
    flow_row timestamptz
flow_consumed_first = refl

consumed_once_example :
    (e : Error) × ((consume_auth_flow none 11 12
        (pos 3000)
        (consume_auth_flow none 11 12 (pos 2500) with_flow).1).0
      ≡ fail e)
consumed_once_example =
    consumed_once empty_store with_flow (consume_auth_flow none 11 12 (pos 2500) with_flow).1 none
      none 11 12 12 (pos 2500) (pos 3000) consumed refl
      (subst (Later empty_store) flow_stored (then_step now (flow_created host none flow)))
      flow_consumed_first now

abbrev session : SessionToCreate
session = record {
  id = 21;
  session_digest = 31;
  principal_id = 7;
  oidc_issuer = codes "i";
  oidc_subject = codes "s";
  oidc_session_id = [];
  csrf_digest = 33;
  created_at = pos 1000;
  idle_expires_at = pos 5000;
  absolute_expires_at = pos 9000;
}

abbrev with_session : Store
with_session = record empty_store { sessions = session_row session ∷ [] }

session_stored : (create_session none session empty_store).1 ≡ with_session
unfolding create_session rejects_session insert_session session_taken ◌+ℤ◌
session_stored = refl

lifetimes-IsBounded_example : All IsBounded (create_session none session empty_store).1.sessions
lifetimes-IsBounded_example =
    lifetimes-IsBounded empty_store (create_session none session empty_store).1 refl
      (then_step now (session_created none session))

abbrev undisturbed : Interruptions
undisturbed = record {
  select_fails = none;
  permissions_fail = none;
  touch_fails = none;
  before_permissions = λ s. s;
  before_touch = λ s. s;
}

abbrev repository : IdentityRepository
repository = record { idle_timeout = pos 2000; touch_interval = pos 1000 }

abbrev resolved : Session
resolved = record {
  id = 21;
  principal = record {
    id = 7;
    tenant_id = 5;
    account_type = mailbox;
    display_name = codes "Ann";
    mailbox = some (record { id = 9; address = codes "ann@x.de" });
  };
  permissions = [];
  created_at = pos 1000;
  last_seen_at = pos 3000;
  idle_expires_at = pos 5000;
  absolute_expires_at = pos 9000;
  csrf_digest = 33;
}

session_found : (resolve_session repository undisturbed 31 (pos 3500) with_session).0 ≡ ok resolved
unfolding resolve_session unless_failed find_session is_live account_of is_admitted has_entry
    with_found with_permissions principal_from_row principal_with mailbox_from is_stale touch
    touched find_touchable whole_microseconds session_row timestamptz ◌+ℤ◌
session_found = refl

resolved-IsLive_example :
    (row : SessionRow) × (p : PrincipalRow) × IsLive with_session 31 (timestamptz (pos 3500)) row p
    × Carries with_session row p resolved
resolved-IsLive_example =
    resolved-IsLive repository undisturbed 31 (pos 3500) with_session resolved session_found

session_there : has_digest 31 with_session.sessions ≡ true
unfolding has_digest session_row
session_there = refl

session_revoked : (revoke_session none 31 (pos 4000) logout with_session).0 ≡ ok 1
unfolding revoke_session valid_revocation_reason update_revoked revoked_count is_target session_row
session_revoked = refl

revoked_anonymous_example :
    after_lookup world service
      (codes "t")
      (resolve_session repository undisturbed 31
        (pos 4500)
        (revoke_session none 31 (pos 4000) logout with_session).1).0
    ≡ ok none
revoked_anonymous_example =
    revoked_anonymous world service (codes "t") with_session
      (revoke_session none 31 (pos 4000) logout with_session).1 none 31 (pos 4000) (pos 4500) logout
      1 repository undisturbed session_there session_revoked now refl refl

abbrev event : AuditEvent
event = record {
  id = 41;
  principal_id = some 7;
  action = codes "login";
  result = codes "succeeded";
  failure_category = [];
  source_digest = 43;
  request_id = codes "r";
  occurred_at = pos 1000;
}

-- The audit fails after the session was inserted.
abbrev outages : Outages
outages = record {
  begin_fails = none;
  statement_fails = none;
  audit_fails = some (plain (opaque []));
  commit_fails = none;
  commit_lands = true;
}

login_atomic_example :
    let run = create_session_with_audit outages session event empty_store in
    ((run.1 ≡ empty_store) × (e : Error) × (run.0 ≡ fail e))
    ⊎ (run.1 ≡ recorded session event empty_store)
login_atomic_example = login_atomic outages session event empty_store
