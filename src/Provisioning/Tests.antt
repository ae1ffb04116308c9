-- ===== src/Provisioning/Tests.antt =====
-- A command with upper-case letters and blanks around its name.
use mail_suite.Base.{
  ◌≡◌, refl, codes, [], ◌∷◌, ◌++◌, arith, byte_len, is_space, is_control, trim_space, trim_left,
  trim_right, to_lower, lower_char, ends_with, contains, ◌==◌, if◌then◌else◌,
}
use mail_suite.Errors.{ok}
use mail_suite.Provisioning.{
  Host, RequestMailboxCommand, PreparedRequest, prepare_request, rejects_local_part,
  rejects_display_name, rejects_idempotency_key, is_local_char, is_key_char,
}
use mail_suite.Provisioning.Normal.{prepare_request_folds}

-- A table of lower case that knows the Kelvin sign alone.
abbrev host : Host
host = record {
  lower = λ r. if r == 0x212a then b'k' else r;
  uuid_string = λ u. u ∷ [];
  marshal = λ i. i.local_part;
  sha256 = λ t. byte_len t;
}

abbrev command : RequestMailboxCommand
command = record {
  tenant_id = 1;
  domain_id = 2;
  local_part = codes "Jo.K";
  display_name = codes " Jo ";
  idempotency_key = codes "key-0123456789ab";
}

abbrev prepared : PreparedRequest
prepared = record {
  tenant_id = 1;
  domain_id = 2;
  local_part = codes "jo.k";
  display_name = codes "Jo";
  idempotency_key = codes "key-0123456789ab";
  request_hash = 4;
}

prepares : prepare_request host command ≡ ok prepared
unfolding prepare_request rejects_local_part rejects_display_name rejects_idempotency_key
    is_local_char is_key_char is_space is_control trim_space trim_left trim_right to_lower
    lower_char ends_with contains
prepares = refl

prepare_request_folds_example :
    prepare_request host (record command { local_part = codes "jo." ++ 0x212a ∷ [] })
    ≡ prepare_request host (record command { local_part = codes "jo." ++ b'k' ∷ [] })
prepare_request_folds_example =
    prepare_request_folds host command (codes "jo.") [] 0x212a b'k' (omega arith) (omega arith) refl
      (omega arith) (omega arith)
