-- ===== src/Identity/Tests.antt =====
-- A login from its start to its end, and a logout, with a library whose digests are lengths.
use mail_suite.Base.{
  ℕ, ◌≡◌, refl, ◌≢◌, Text, codes, false, Option, none, some, List, [], ◌∷◌, arith, length,
  is_control, to_lower, lower_char, contains,
}
use mail_suite.Base.Int.{pos, ◌+ℤ◌}
use mail_suite.Errors.{Error, plain, identity_error, auth_forbidden, ok, fail}
use mail_suite.Identity.{mailbox, Principal, ConsumedAuthFlow, Session, SessionView}
use mail_suite.Identity.Secret.{digest, derive_csrf_token, digest_message}
use mail_suite.Identity.Pkce.{
  Aead, PkceCipher, is_unreserved, valid_pkce_verifier, find_key, split, encrypt, decrypt, opened,
  open_with, decrypt-encrypt, pkce_challenge,
}
use mail_suite.Identity.ReturnPath.{
  RequestUri, Host, is_protected_portal_path, has_control_character, bad_query, with_query,
  normalize_parsed, normalize_return_path,
}
use mail_suite.Identity.ReturnPath.Safe.{IsPlain, IsSafe, normalize_return_path-IsSafe}
use mail_suite.Identity.World.{
  OidcIdentity, MfaPolicy, RequestMetadata, LoginStart, CallbackInput, CallbackResult, History,
  World, Service,
}
use mail_suite.Identity.Service.{landing_for, path_only, login_failure}
use mail_suite.Identity.StartLogin.{
  new_flow_secrets, after_url, after_create_flow, after_encrypt, after_challenge, after_secrets,
  after_normalize, start_login,
}
use mail_suite.Identity.Login.{
  after_create_session, after_token, after_principal, after_exchange, after_decrypt, after_consume,
  complete_login,
}
use mail_suite.Identity.Sessions.{after_lookup, resolve_session, logout}
use mail_suite.Identity.Evidence.{LoggedIn, Refused}
use mail_suite.Identity.Authenticated.{login_authenticated, login_refusals_audited}
use mail_suite.Identity.Guarded.{IsSessionOf, Ended, resolve_session_bound, logout_ends}
use mail_suite.Identity.Started.{Started, requested_path, start_login_stores}

-- Sealing writes a tag before the text, opening removes it.
abbrev untag : List ℕ → Option Text
untag [] = none
untag (c ∷ t) = some t

abbrev aead : Aead
aead = record {
  nonce_size = 2;
  seal = λ key nonce text ad. 1 ∷ text;
  open_sealed = λ key nonce sealed ad. untag sealed;
}

abbrev cipher : PkceCipher
cipher = record { current_key_id = codes "k"; keys = (codes "k", []) ∷ [] }

-- 43 characters.
abbrev verifier : Text
verifier = codes "abcdefghijklmnopqrstuvwxyzabcdefghijklmnopq"

abbrev nonce : List ℕ
nonce = 5 ∷ 6 ∷ []

abbrev sealed : List ℕ
sealed = 5 ∷ 6 ∷ 1 ∷ verifier

verifier_sealed : encrypt aead cipher (some nonce) verifier ≡ ok (sealed, codes "k")
unfolding encrypt valid_pkce_verifier is_unreserved find_key
verifier_sealed = refl

decrypt-encrypt_example : decrypt aead cipher sealed (codes "k") ≡ ok verifier
decrypt-encrypt_example =
    decrypt-encrypt aead cipher nonce sealed verifier (codes "k") (λ k n p ad. refl)
      (λ k n p ad. ground arith) refl verifier_sealed

abbrev secret : Text
secret = codes "a"

abbrev uri : RequestUri
uri = record {
  is_abs = false;
  host = [];
  opaque = [];
  path = codes "/mail/inbox";
  escaped_path = codes "/mail/inbox";
  raw_query = [];
  fragment = [];
}

abbrev host : Host
host = record {
  parse_request_uri = λ t. some uri;
  query_unescape = λ t. some t;
  clean = λ t. t;
  lower = λ r. r;
}

inbox_normal : normalize_return_path host (codes "/mail/inbox") ≡ ok (codes "/mail/inbox")
unfolding normalize_return_path normalize_parsed has_control_character is_control to_lower
    lower_char contains bad_query with_query is_protected_portal_path
inbox_normal = refl

normalize_return_path-IsSafe_example :
    IsPlain host (codes "/mail/inbox")
    × (parsed : RequestUri) × (host.parse_request_uri (codes "/mail/inbox") ≡ some parsed)
    × IsSafe host parsed (codes "/mail/inbox")
normalize_return_path-IsSafe_example =
    normalize_return_path-IsSafe host (codes "/mail/inbox") (codes "/mail/inbox") inbox_normal

abbrev policy : MfaPolicy
policy = record { allowed_acr = []; required_amr = codes "otp" ∷ [] }

abbrev external : OidcIdentity
external = record {
  issuer = codes "i";
  subject = codes "s";
  session_id = [];
  nonce = codes "n";
  acr = [];
  amr = codes "pwd" ∷ codes "otp" ∷ [];
}

abbrev principal : Principal
principal = record {
  id = 2;
  tenant_id = 3;
  account_type = mailbox;
  display_name = codes "Jo";
  mailbox = some (record { id = 4; address = codes "jo@x" });
}

abbrev flow : ConsumedAuthFlow
flow = record {
  id = 9;
  nonce_digest = 12;
  pkce_verifier_ciphertext = sealed;
  encryption_key_id = codes "k";
  return_to = codes "/mail/inbox";
  expires_at = pos 100;
  consumed_at = pos 50;
}

abbrev session : Session
session = record {
  id = 1;
  principal = principal;
  permissions = [];
  created_at = pos 1;
  last_seen_at = pos 1;
  idle_expires_at = pos 9;
  absolute_expires_at = pos 9;
  csrf_digest = 13;
}

-- A digest is the length of its message, and the base64 text of a digest is two characters.
abbrev pub world : World
world = record {
  now = λ h. pos 50;
  new_token = λ h. ok verifier;
  new_id = λ h. 77;
  new_nonce = λ h. some nonce;
  create_auth_flow = λ h f. none;
  consume_auth_flow = λ h state cookie at. ok flow;
  resolve_principal = λ h issuer subject. ok principal;
  create_session_with_audit = λ h s a. ok (record {
    id = s.id;
    principal_id = s.principal_id;
    created_at = s.created_at;
    idle_expires_at = s.idle_expires_at;
    absolute_expires_at = s.absolute_expires_at;
  });
  resolve_session = λ h d at. ok session;
  revoke_session_with_audit = λ h d at reason a. none;
  record_audit = λ h a. none;
  authorization_url = λ h state n challenge. ok (codes "https://idp");
  exchange = λ h code v. ok external;
  crypto = record { hmac = λ pepper message. length message; encode_base64 = λ d. codes "xy" };
  aead = aead;
  host = host;
  challenge_of = λ v. v;
}

-- The provider knows the subject, the repository does not.
abbrev unknown_subject : World
unknown_subject = record world {
  resolve_principal = λ h issuer subject. fail (plain (identity_error auth_forbidden));
}

abbrev pub service : Service
service = record {
  provider_logout_url = codes "https://idp/logout";
  hasher = record { pepper = [] };
  pkce = cipher;
  mfa_policy = policy;
}

abbrev metadata : RequestMetadata
metadata = record { request_id = codes "r1"; source = codes "1.2.3.4" }

abbrev input : CallbackInput
input = record {
  state = codes "st";
  browser_cookie = codes "co";
  code = codes "c";
  metadata = metadata;
}

abbrev ended_at : History
ended_at = (complete_login world service input []).1

abbrev logged_in : CallbackResult
logged_in = record {
  session_token = verifier;
  expires_at = pos 28800000000050;
  redirect_to = codes "/mail/inbox";
}

logs_in : complete_login world service input [] ≡ (ok logged_in, ended_at)
unfolding complete_login after_consume after_decrypt after_exchange after_principal after_token
    after_create_session decrypt open_with opened split find_key valid_pkce_verifier is_unreserved
    digest digest_message landing_for path_only derive_csrf_token ◌+ℤ◌
logs_in = refl

login_authenticated_example : LoggedIn world service input logged_in ended_at
login_authenticated_example = login_authenticated world service input [] ended_at logged_in logs_in

abbrev forbidden : Error
forbidden = plain (identity_error auth_forbidden)

abbrev refused_at : History
refused_at = (complete_login unknown_subject service input []).1

refuses : complete_login unknown_subject service input [] ≡ (fail forbidden, refused_at)
unfolding complete_login after_consume after_decrypt after_exchange after_principal login_failure
    decrypt open_with opened split find_key valid_pkce_verifier is_unreserved digest digest_message
refuses = refl

login_refusals_audited_example : Refused unknown_subject forbidden refused_at
login_refusals_audited_example =
    login_refusals_audited unknown_subject service input [] refused_at forbidden refl refuses

abbrev started_at : History
started_at = (start_login world service [] metadata []).1

abbrev start : LoginStart
start = record {
  authorization_url = codes "https://idp";
  browser_cookie = verifier;
  expires_at = pos 600000000050;
}

starts : start_login world service [] metadata [] ≡ (ok start, started_at)
unfolding start_login after_normalize normalize_return_path normalize_parsed has_control_character
    is_control to_lower lower_char contains bad_query with_query is_protected_portal_path
    new_flow_secrets after_secrets after_challenge pkce_challenge valid_pkce_verifier is_unreserved
    encrypt find_key after_encrypt after_create_flow after_url ◌+ℤ◌
starts = refl

start_login_stores_example : Started world service (requested_path []) start started_at
start_login_stores_example = start_login_stores world service [] metadata [] started_at start starts

abbrev view : SessionView
view = record { session = session; csrf_token = codes "xy" }

abbrev resolved_at : History
resolved_at = (resolve_session world service (codes "to") []).1

resolves : resolve_session world service (codes "to") [] ≡ (ok (some view), resolved_at)
unfolding resolve_session after_lookup digest digest_message derive_csrf_token
resolves = refl

resolve_session_bound_example : IsSessionOf world service (codes "to") view
resolve_session_bound_example =
    resolve_session_bound world service (codes "to") [] resolved_at view resolves

some_token : codes "to" ≢ []
some_token e = ground (arith, e)

logout_ends_example :
    Ended world service
      (codes "to")
      (codes "xy")
      (resolve_session world service (codes "to") []).0
      (resolve_session world service (codes "to") []).1
      (logout world service (codes "to") (codes "xy") metadata []).0
      (logout world service (codes "to") (codes "xy") metadata []).1
logout_ends_example = logout_ends world service (codes "to") (codes "xy") metadata [] some_token
