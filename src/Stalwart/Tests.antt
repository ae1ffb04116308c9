-- ===== src/Stalwart/Tests.antt =====
-- A server with the domain `b.c`, whose account `a` carries the metadata of the worker's task.
use mail_suite.Base.{
  ◌≡◌, refl, ◌⊎◌, Text, codes, true, false, Option, none, some, [], ◌∷◌, ◌=ₜ◌, arith, decimal_onto,
  decimal_from, decimal_from-decimal_onto, decimal_from-end, lacks-decimal_onto, ◌∙◌,
}
use mail_suite.Base.Int.{pos, ◌+ℤ◌}
use mail_suite.Errors.{Error, ok, fail}
use mail_suite.Mailcore.{ObservedMailbox}
use mail_suite.Operation.Config.{matches_desired, valid_claim, claimable_prior_status}
use mail_suite.Operation.World as operation
use mail_suite.Operation.World.{Context, resolved}
use mail_suite.Operation.Service.{
  execute, attempt_deadline, run_adapter, ensure_then_inspect, after_ensure, inspect, conclude,
  resolve,
}
use mail_suite.Base.Int.{wrap64, ◌-ℤ◌}
use mail_suite.Operation.Tests.{
  config, task, background, attempt, success, command, query, desired, task_valid,
  config-IsAccepted,
}
use mail_suite.Operation.Tests as worker
use mail_suite.Ledger.{valid_observation, valid_mailbox_resolution}
use mail_suite.Base.{
  split, grow, print_int_onto, parse_int, parse_unsigned, in_range, hex_onto, hex_digit,
  decode_hex32, hex_from, hex_value, to_lower, lower_char, trim_space, trim_left, trim_right,
  is_space, count, before, after,
}
use mail_suite.Errors.{permanent}
use mail_suite.Stalwart.{
  DomainObject, AccountObject, failure, error_code_domain_missing, validate_ensure_command,
  validate_inspect_query, split_address, read_timeout_error,
}
use mail_suite.Stalwart.Call.{
  fetch_session, request_json_as, read_answer, read_body, read_encoded, read_error, limit, decoded,
  read_session, own_path, foreign_url, find_domain, domain_of_ids, query_ids, named, all_named,
  call, call_as, read_response, read_triple, read_parts, find_account, account_of_ids, only_account,
  only_domain, read_objects, read_list,
}
use mail_suite.Stalwart.Metadata.{
  UuidText, Derivation, MailboxMetadata, format_metadata, parse_metadata, parse_parts, metadata_of,
}
use mail_suite.Stalwart.Tokens.{ReadToken, Sealing}
use mail_suite.Stalwart.World.{clock_read, History, MethodCall, response, Url, Json, World, Adapter}
use mail_suite.Stalwart.Written.{PrintsUuids, IsWritable, written, parse_metadata-format_metadata}
use mail_suite.Stalwart.Contract.{IsStable, Since}
use mail_suite.Stalwart.Adapter.{
  ensure_in_domain, observe_domain, observe_account, observe_metadata, ensure_existing_account,
  ensure_mailbox, inspect_mailbox,
}
use mail_suite.Stalwart.Ensured.{ensure_writes, ensure_errors-IsStable, IsBehind, never_lowers}
use mail_suite.Stalwart.Observed.{HasClock, inspect_valid}
use mail_suite.Stalwart.Converged.{
  command_for, query_for, ensured_matches, adapter_receipts_accepted,
}

-- UUIDs as decimal numbers.
abbrev pub uuids : UuidText
uuids = record { print = λ u. decimal_onto 40 u []; parse = λ t. decimal_from 0 t }

prints : PrintsUuids uuids
prints = record {
  parse-print = λ u h.
      decimal_from-decimal_onto 40 u [] (omega (arith, h)) (omega arith) ∙ decimal_from-end u;
  lacks-print = λ u. lacks-decimal_onto 40 u [] refl;
}

writable : IsWritable (command_for task (pos 1030))
writable = record {
  mailbox_id = omega arith;
  domain_id = omega arith;
  operation_id = omega arith;
  revision = (omega arith, omega arith);
  positive = omega arith;
  configuration_hash = omega arith;
}

abbrev pub derivation : Derivation
derivation = record { hmac = λ key message. message; encode_base64 = λ b. b }

-- A cipher that only puts a byte in front, for tokens that all read as one.
abbrev pub sealing_of : ReadToken → Sealing
sealing_of token = record {
  nonce_size = 1;
  overhead = 1;
  seal = λ k n p. 7 ∷ p;
  open_sealed = λ k n c. elim c [ [] ↦ none | b ∷ p ↦ some p ];
  marshal = λ v. some (1 ∷ []);
  unmarshal = λ p. some token;
  decode_base64 = λ t. some t;
}

abbrev pub account : AccountObject
account = record {
  id = codes "a1";
  name = codes "a";
  domain_id = codes "d1";
  description = format_metadata uuids (command_for task (pos 1030));
}

abbrev pub domain : DomainObject
domain = record { id = codes "d1"; name = codes "b.c" }

abbrev pub origin : Url
origin = record {
  scheme = codes "https";
  host = codes "mx";
  has_user = false;
  path = codes "/jmap";
  raw_query = [];
  fragment = [];
}

-- A response repeats the name of its method, and every reading of it is the same.
abbrev pub json : Json
json = record {
  session = λ b. some (record { api_url = codes "https://mx/jmap"; has_core = true });
  method_responses = λ b. some (b ∷ []);
  parts = λ b. some (b ∷ b ∷ codes "c0" ∷ []);
  text = λ b. some b;
  error_type = λ b. none;
  ids = λ b. some (codes "x" ∷ []);
  objects = λ b. some b;
  domains = λ b. some (domain ∷ []);
  accounts = λ b. some (account ∷ []);
  set_result = λ b. none;
  mailbox_session = λ b. none;
  email_page = λ b. none;
  email_list = λ b. none;
}

abbrev name_of : Option MethodCall → Text
name_of none = codes "session"
name_of (some call) = call.method_name

abbrev pub empty_token : ReadToken
empty_token = record {
  version = pos 1;
  purpose = [];
  mailbox_id = 0;
  domain_id = 0;
  revision = pos 0;
  configuration_hash = 0;
  expires_at = pos 0;
  message_id = [];
  blob_id = [];
  query_state = [];
  position = pos 0;
}

abbrev pub server : World
server = record {
  now = λ h. pos 1000;
  ctx_err = λ h c. none;
  answer = λ h c r. response 200 (name_of r.body) none;
  json = json;
  parse_url = λ t. some origin;
  equal_fold = λ a b. a =ₜ b;
  lower = λ c. c;
  uuids = uuids;
  derivation = derivation;
  sealing = sealing_of empty_token;
  random = λ h. some (9 ∷ []);
  parse_time = λ t. some (pos 5);
}

abbrev pub adapter : Adapter
adapter = record {
  scheme = codes "https";
  host = codes "mx";
  admin_username = codes "admin";
  admin_password = codes "secret";
  mailbox_key = [];
}

clock : HasClock server
clock h = refl

parse_metadata-format_metadata_example :
    parse_metadata uuids (format_metadata uuids (command_for task (pos 1030)))
    ≡ ok (written (command_for task (pos 1030)))
parse_metadata-format_metadata_example =
    parse_metadata-format_metadata uuids (command_for task (pos 1030)) prints writable

ensure_writes_example :
    Since
      (λ d. d ≡ format_metadata server.uuids command)
      []
      (ensure_mailbox server adapter background command []).1
ensure_writes_example = ensure_writes server adapter background command []

never_lowers_example :
    ((ensure_existing_account server adapter background (codes "/jmap") account command []).1 ≡ [])
    ⊎ ((m : MailboxMetadata) × (parse_metadata server.uuids account.description ≡ ok m)
        × IsBehind command m)
never_lowers_example = never_lowers server adapter background (codes "/jmap") account command []

-- The server has not heard of the account's domain.
abbrev elsewhere : World
elsewhere = record server { json = record json { ids = λ b. some [] } }

abbrev refused : Error
refused = failure permanent error_code_domain_missing

ensure_refused : (ensure_mailbox elsewhere adapter background command []).0 ≡ fail refused
unfolding ensure_mailbox ensure_in_domain validate_ensure_command split_address to_lower lower_char
    trim_space trim_left trim_right is_space count before after fetch_session request_json_as
    read_answer read_body read_encoded read_error read_timeout_error limit decoded read_session
    own_path foreign_url find_domain domain_of_ids query_ids named all_named call call_as
    read_response read_triple read_parts
ensure_refused = refl

ensure_errors-IsStable_example : IsStable elsewhere refused
ensure_errors-IsStable_example =
    ensure_errors-IsStable elsewhere adapter background command [] refused ensure_refused

inspected : (inspect_mailbox server adapter background query []).0 ≡ ok desired
unfolding inspect_mailbox observe_domain observe_account observe_metadata validate_inspect_query
    split_address to_lower lower_char trim_space trim_left trim_right is_space count before after
    fetch_session request_json_as read_answer read_body read_encoded read_error read_timeout_error
    limit decoded read_session own_path foreign_url find_domain domain_of_ids find_account
    account_of_ids only_account only_domain read_objects read_list query_ids named all_named call
    call_as read_response read_triple read_parts format_metadata parse_metadata parse_parts
    metadata_of split grow decimal_onto decimal_from print_int_onto parse_int parse_unsigned
    in_range hex_onto hex_digit decode_hex32 hex_from hex_value
inspected = refl

inspect_valid_example :
    (valid_observation (some desired) ≡ true) × (desired.mailbox_id ≡ query.mailbox_id)
inspect_valid_example = inspect_valid server adapter background query [] desired clock inspected

abbrev within : Context
within = record { deadline = some (pos 1030) }

abbrev h1 : History
h1 = (fetch_session server adapter within []).1

abbrev h2 : History
h2 = (find_domain server adapter within (codes "/jmap") (codes "b.c") h1).1

abbrev h3 : History
h3 = (find_account server adapter within (codes "/jmap") (codes "a") (codes "d1") h2).1

query_valid :
    validate_inspect_query server.lower (query_for task (pos 1030)) ≡ ok (codes "a", codes "b.c")
unfolding validate_inspect_query split_address to_lower lower_char trim_space trim_left trim_right
    is_space count before after
query_valid = refl

session_found : fetch_session server adapter within [] ≡ (ok (codes "/jmap"), h1)
unfolding fetch_session request_json_as read_answer read_body read_encoded read_error
    read_timeout_error limit decoded read_session own_path foreign_url
session_found = refl

domain_found :
    find_domain server adapter within (codes "/jmap") (codes "b.c") h1 ≡ (ok (some domain), h2)
unfolding find_domain domain_of_ids query_ids named all_named call call_as request_json_as
    read_answer read_body read_encoded read_error read_timeout_error limit decoded read_response
    read_triple read_parts only_domain read_objects read_list trim_space trim_left trim_right
    is_space
domain_found = refl

account_found :
    find_account server adapter within (codes "/jmap") (codes "a") (codes "d1") h2
    ≡ (ok (some account), h3)
unfolding find_account account_of_ids query_ids named all_named call call_as request_json_as
    read_answer read_body read_encoded read_error read_timeout_error limit decoded read_response
    read_triple read_parts only_account read_objects read_list trim_space trim_left trim_right
    is_space
account_found = refl

ensured_matches_example :
    (read : ObservedMailbox) × (inspect_mailbox server adapter background
        (query_for task (pos 1030))
        []
      ≡ (ok read, clock_read ∷ h3))
    × (matches_desired task read ≡ true)
ensured_matches_example =
    ensured_matches server adapter background task (pos 1030) (pos 1030) (codes "a", codes "b.c")
      (codes "/jmap") domain account [] h1 h2 h3 clock prints writable query_valid session_found
      domain_found account_found refl

-- A worker whose mail core is the adapter.
abbrev with_adapter : operation.World
with_adapter = record worker.world {
  inspect_mailbox = λ k c q. (inspect_mailbox server adapter c q []).0;
}

executed_with_adapter :
    (execute with_adapter config background task []).1 ≡ resolved attempt success ∷ worker.work_done
unfolding execute attempt_deadline run_adapter ensure_then_inspect after_ensure inspect conclude
    resolve valid_claim claimable_prior_status matches_desired wrap64 ◌+ℤ◌ ◌-ℤ◌ inspect_mailbox
executed_with_adapter = rw inspected refl

adapter_receipts_accepted_example : valid_mailbox_resolution success ≡ true
adapter_receipts_accepted_example =
    adapter_receipts_accepted with_adapter server adapter config background task [] attempt success
      worker.work_done clock (λ k ac q. ([], refl)) config-IsAccepted (omega arith, omega arith)
      task_valid executed_with_adapter
