-- ===== src/Mailcore.antt =====
-- src/backend/internal/mailcore/mailcore.go: the contract between the worker and a mail core.
pub mod Classify
use mail_suite.Base.{
  ℕ, Text, codes, Uuid, Digest, Bool, true, false, ◌&&◌, ◌||◌, Option, none, some, [], ◌∷◌, length,
  leb, ◌==◌, all, if◌then◌else◌,
}
use mail_suite.Base.Int.{ℤ}
use mail_suite.Errors.{
  ErrorClass, retryable, permanent, unknown, Cause, adapter_error, Error, cause_of,
}

abbrev pub payload_version : ℕ
payload_version = 1

pub data MailboxStatus : Type 0 where
  absent active suspended : MailboxStatus
  other : Text → MailboxStatus

abbrev pub error_code_unknown : Text
error_code_unknown = codes "MAIL_CORE_OUTCOME_UNKNOWN"

abbrev pub error_code_not_converged : Text
error_code_not_converged = codes "MAIL_CORE_NOT_CONVERGED"

abbrev pub error_code_newer_revision : Text
error_code_newer_revision = codes "MAIL_CORE_NEWER_REVISION"

pub is_upper : ℕ → Bool
is_upper c = leb b'A' c && leb c b'Z'

pub is_code_char : ℕ → Bool
unfolding is_upper
is_code_char c = is_upper c || leb b'0' c && leb c b'9' || c == b'_'

-- `^[A-Z][A-Z0-9_]{2,63}$`
unfoldable pub matches_error_code : Text → Bool
unfolding is_upper is_code_char
matches_error_code [] = false
matches_error_code (c ∷ t) =
    is_upper c && leb 2 (length t) && leb (length t) 63 && all is_code_char t

unfoldable pub valid_error_class : ErrorClass → Bool
valid_error_class retryable = true
valid_error_class permanent = true
valid_error_class unknown = true
valid_error_class (ErrorClass.other s) = false

unfoldable pub new_error : ErrorClass → Text → Cause
unfolding valid_error_class
new_error class code =
    if valid_error_class class && matches_error_code code
    then adapter_error class code
    else adapter_error unknown error_code_unknown

-- What `errors.As(err, &adapterError)` finds in a chain.
unfoldable pub classify_cause : Cause → ErrorClass × Text
unfolding valid_error_class
classify_cause (adapter_error class code) =
    if valid_error_class class && matches_error_code code
    then (class, code)
    else (unknown, error_code_unknown)
classify_cause _ = (unknown, error_code_unknown)

-- `nil` is classified as two empty strings.
unfoldable pub classify_error : Option Error → ErrorClass × Text
unfolding classify_cause
classify_error none = (ErrorClass.other [], [])
classify_error (some e) = classify_cause (cause_of e)

-- `Deadline` and `InspectedAt` are instants: nanoseconds since Go's zero time.
pub record EnsureMailboxCommand : Type 0 where
  pub operation_id : Uuid
  pub mailbox_id : Uuid
  pub domain_id : Uuid
  pub address : Text
  pub desired_revision : ℤ
  pub configuration_hash : Digest
  pub payload_version : ℕ
  pub deadline : ℤ

pub record InspectMailboxQuery : Type 0 where
  pub mailbox_id : Uuid
  pub domain_id : Uuid
  pub address : Text
  pub desired_revision : ℤ
  pub configuration_hash : Digest
  pub deadline : ℤ

pub record ObservedMailbox : Type 0 where
  pub mailbox_id : Uuid
  pub status : MailboxStatus
  pub revision : ℤ
  pub configuration_hash : Digest
  pub inspected_at : ℤ
