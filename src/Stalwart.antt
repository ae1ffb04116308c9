-- ===== src/Stalwart.antt =====
-- src/backend/internal/mailcore/stalwart/adapter.go: the mail core's adapter for Stalwart. Here are its
-- error codes and classes, the checks on its input, and the objects it reads.
pub mod Metadata
pub mod Tokens
pub mod Mail
pub mod World
pub mod Call
pub mod Adapter
pub mod Written
pub mod Contract
pub mod Reads
pub mod Sends
pub mod Ensured
pub mod Observed
pub mod Converged
pub mod Uncertain
mod Tests
pub mod Bound
pub mod Sealed
pub mod Reader
use mail_suite.Base.{
  ℕ, Text, codes, Uuid, nil_uuid, Digest, Bool, true, false, ◌&&◌, ◌||◌, not, Option, none, some,
  [], ◌∷◌, ltb, leb, ◌==◌, ◌=ₜ◌, is_empty, byte_len, all, trim_space, to_lower, count, before,
  after, if◌then◌else◌,
}
use mail_suite.Base.Int.{ℤ, pos, leb_ℤ, ◌=ℤ◌}
use mail_suite.Errors.{
  ErrorClass, retryable, permanent, unknown, Error, plain, cause_of, Result, ok, fail,
  is_deadline_exceeded,
}
use mail_suite.Mailcore.{
  new_error, payload_version, EnsureMailboxCommand, InspectMailboxQuery, ObservedMailbox,
  MailboxStatus,
}

abbrev pub error_code_authentication : Text
error_code_authentication = codes "MAIL_CORE_AUTHENTICATION_FAILED"

abbrev pub error_code_rate_limited : Text
error_code_rate_limited = codes "MAIL_CORE_RATE_LIMITED"

abbrev pub error_code_unavailable : Text
error_code_unavailable = codes "MAIL_CORE_UNAVAILABLE"

abbrev pub error_code_protocol_invalid : Text
error_code_protocol_invalid = codes "MAIL_CORE_PROTOCOL_INVALID"

abbrev pub error_code_domain_missing : Text
error_code_domain_missing = codes "MAIL_CORE_DOMAIN_MISSING"

abbrev pub error_code_resource_conflict : Text
error_code_resource_conflict = codes "MAIL_CORE_RESOURCE_CONFLICT"

abbrev pub error_code_configuration : Text
error_code_configuration = codes "MAIL_CORE_CONFIGURATION_INVALID"

abbrev pub error_code_mailbox_not_found : Text
error_code_mailbox_not_found = codes "MAIL_CORE_MAILBOX_NOT_FOUND"

abbrev pub error_code_message_not_found : Text
error_code_message_not_found = codes "MAIL_CORE_MESSAGE_NOT_FOUND"

abbrev pub error_code_cursor_invalid : Text
error_code_cursor_invalid = codes "MAIL_CORE_CURSOR_INVALID"

abbrev pub error_code_reference_invalid : Text
error_code_reference_invalid = codes "MAIL_CORE_REFERENCE_INVALID"

abbrev pub error_code_timeout : Text
error_code_timeout = codes "MAIL_CORE_TIMEOUT"

-- `mailcore.NewError` as an `error`.
abbrev pub failure : ErrorClass → Text → Error
failure class code = plain (new_error class code)

-- What a failed call of the HTTP client or of a read returns, and whether it is a `net.Error` that
-- says `Timeout()`.
pub record IoFailure : Type 0 where
  pub error : Error
  pub timed_out : Bool

unfoldable pub uncertain_class : Bool → ErrorClass
uncertain_class mutation = if mutation then unknown else retryable

unfoldable pub protocol_error : Error
protocol_error = failure permanent error_code_protocol_invalid

unfoldable pub is_deadline : Option Error → Bool
is_deadline none = false
is_deadline (some e) = is_deadline_exceeded (cause_of e)

-- `ctx_err` is `ctx.Err()`.
unfoldable pub read_timeout_error : Option Error → Option IoFailure → Bool → Option Error
read_timeout_error ctx_err none mutation = none
read_timeout_error ctx_err (some f) mutation =
    if mutation
    then none
    else if is_deadline ctx_err || is_deadline (some f.error) || f.timed_out
    then some (failure retryable error_code_timeout)
    else none

unfoldable pub transport_error : Option Error → Bool → Error
transport_error (some e) mutation = e
transport_error none mutation = failure (uncertain_class mutation) error_code_unavailable

unfoldable pub status_error : ℕ → Bool → Error
status_error status mutation =
    if status == 504
    then (if mutation
        then failure unknown error_code_unavailable
        else failure retryable error_code_timeout)
    else if status == 401 || status == 403
    then failure permanent error_code_authentication
    else if status == 429
    then failure retryable error_code_rate_limited
    else if status == 502 || status == 503
    then failure (uncertain_class mutation) error_code_unavailable
    else if leb 500 status
    then failure (uncertain_class mutation) error_code_unavailable
    else failure permanent error_code_protocol_invalid

unfoldable pub classify_set_error : Text → Error
classify_set_error error_type =
    if error_type =ₜ codes "rateLimit"
    then failure retryable error_code_rate_limited
    else if error_type =ₜ codes "serverUnavailable"
    then failure retryable error_code_unavailable
    else if error_type =ₜ codes "forbidden"
    then failure permanent error_code_authentication
    else failure permanent error_code_resource_conflict

unfoldable pub classify_method_error : Text → Bool → Error
classify_method_error error_type mutation =
    if error_type =ₜ codes "rateLimit"
    then failure retryable error_code_rate_limited
    else if error_type =ₜ codes "forbidden" || error_type =ₜ codes "accountNotFound"
    then failure permanent error_code_authentication
    else if error_type =ₜ codes "serverUnavailable"
    then failure (uncertain_class mutation) error_code_unavailable
    else failure (uncertain_class mutation) error_code_protocol_invalid

-- The local part and the domain of an address; `lower` is the lower case of a rune beyond ASCII.
unfoldable pub split_address : (ℕ → ℕ) → Text → Result (Text × Text)
split_address lower address =
    if not (address =ₜ to_lower lower (trim_space address)) || not (count b'@' address == 1)
    then fail (failure permanent error_code_configuration)
    else let local_part : Text = before b'@' address in
      let domain_name : Text = after b'@' address in
      if is_empty local_part
        || is_empty domain_name
        || ltb 320 (byte_len address)
        || not (all (λ c. leb 0x21 c && leb c 0x7e) address)
      then fail (failure permanent error_code_configuration)
      else ok (local_part, domain_name)

unfoldable pub validate_ensure_command : (ℕ → ℕ) → EnsureMailboxCommand → Result (Text × Text)
validate_ensure_command lower command =
    if command.operation_id == nil_uuid
      || command.mailbox_id == nil_uuid
      || command.domain_id == nil_uuid
      || leb_ℤ command.desired_revision (pos 0)
      || not (command.payload_version == payload_version)
      || command.deadline =ℤ pos 0
    then fail (failure permanent error_code_configuration)
    else split_address lower command.address

unfoldable pub validate_inspect_query : (ℕ → ℕ) → InspectMailboxQuery → Result (Text × Text)
validate_inspect_query lower query =
    if query.mailbox_id == nil_uuid
      || query.domain_id == nil_uuid
      || leb_ℤ query.desired_revision (pos 0)
      || query.deadline =ℤ pos 0
    then fail (failure permanent error_code_configuration)
    else split_address lower query.address

-- An absent mailbox has no revision and no configuration: the zero values.
unfoldable pub absent_observation : Uuid → ℤ → ObservedMailbox
absent_observation mailbox_id inspected_at = record {
  mailbox_id = mailbox_id;
  status = MailboxStatus.absent;
  revision = pos 0;
  configuration_hash = 0;
  inspected_at = inspected_at;
}

pub record DomainObject : Type 0 where
  pub id : Text
  pub name : Text

pub record AccountObject : Type 0 where
  pub id : Text
  pub name : Text
  pub domain_id : Text
  pub description : Text

-- Each map of a set response by its entries: the id of a created object, the type of a failure, and
-- for an update that something stands there.
pub record SetResult : Type 0 where
  pub created : Text → Option Text
  pub updated : Text → Bool
  pub not_created : Text → Option Text
  pub not_updated : Text → Option Text
