-- ===== src/Provisioning.antt =====
-- src/backend/internal/provisioning/provisioning.go: the request to open a mailbox, checked and
-- normalised. JSON, SHA-256, UUID printing and the lower case of runes beyond ASCII are the host's.
pub mod LocalPart
pub mod Normal
mod Tests
use mail_suite.Base.{
  ℕ, Text, codes, Uuid, nil_uuid, Digest, Bool, true, false, ◌&&◌, ◌||◌, not, Option, none, some,
  [], ◌∷◌, length, ltb, leb, ◌==◌, ◌=ₜ◌, is_empty, byte_len, all, has_prefix, is_space, is_control,
  valid_string, trim_space, to_lower, ends_with, contains, if◌then◌else◌,
}
use mail_suite.Errors.{
  ProvisioningCode, invalid_argument, persistence_unavailable, provisioning_error, Error, plain,
  Result, ok, fail, ◌>>=◌, ◌>>◌, reject_if,
}

-- An unknown code becomes `PERSISTENCE_UNAVAILABLE`.
unfoldable pub new_error : ProvisioningCode → Error
new_error (ProvisioningCode.other s) = plain (provisioning_error persistence_unavailable)
new_error code = plain (provisioning_error code)

pub record RequestMailboxCommand : Type 0 where
  pub tenant_id : Uuid
  pub domain_id : Uuid
  pub local_part : Text
  pub display_name : Text
  pub idempotency_key : Text

pub record PreparedRequest : Type 0 where
  pub tenant_id : Uuid
  pub domain_id : Uuid
  pub local_part : Text
  pub display_name : Text
  pub idempotency_key : Text
  pub request_hash : Digest

pub record RequestMailboxResult : Type 0 where
  pub mailbox_id : Uuid
  pub operation_id : Uuid
  pub replayed : Bool

pub record Operation : Type 0 where
  pub id : Uuid
  pub tenant_id : Uuid
  pub kind : Text
  pub resource_type : Text
  pub resource_id : Uuid
  pub status : Text

-- The fields of the JSON object that is hashed.
pub record FingerprintInput : Type 0 where
  pub domain_id : Text
  pub local_part : Text
  pub display_name : Text

-- What the package takes from elsewhere.
pub record Host : Type 0 where
  pub lower : ℕ → ℕ
  pub uuid_string : Uuid → Text
  pub marshal : FingerprintInput → Text
  pub sha256 : Text → Digest

-- `[a-z0-9.!#$%&'*+/=?^_`{|}~-]`
unfoldable pub is_local_char : ℕ → Bool
is_local_char c =
    leb b'a' c && leb c b'z'
    || leb b'0' c && leb c b'9'
    || leb b'#' c && leb c 0x27
    || leb b'^' c && leb c b'`'
    || leb b'{' c && leb c b'~'
    || c == b'.'
    || c == b'!'
    || c == b'*'
    || c == b'+'
    || c == b'/'
    || c == b'='
    || c == b'?'
    || c == b'-'

-- `[A-Za-z0-9._:-]`
unfoldable pub is_key_char : ℕ → Bool
is_key_char c =
    leb b'A' c && leb c b'Z'
    || leb b'a' c && leb c b'z'
    || leb b'0' c && leb c b'9'
    || c == b'.'
    || c == b'_'
    || c == b':'
    || c == b'-'

-- A match of `^[…]+$`.
abbrev pub matches_all : (ℕ → Bool) → Text → Bool
matches_all p [] = false
matches_all p (c ∷ t) = p c && all p t

unfoldable pub rejects_local_part : Text → Bool
rejects_local_part local_part =
    is_empty local_part
    || ltb 64 (byte_len local_part)
    || not (local_part =ₜ trim_space local_part)
    || has_prefix local_part (codes ".")
    || ends_with b'.' local_part
    || contains local_part (codes "..")
    || not (matches_all is_local_char local_part)

unfoldable pub rejects_display_name : Text → Bool
rejects_display_name display_name =
    not (valid_string display_name)
    || ltb 128 (length display_name)
    || not (all (λ r. not (is_control r)) display_name)

unfoldable pub rejects_idempotency_key : Text → Bool
rejects_idempotency_key key =
    ltb (byte_len key) 16 || ltb 128 (byte_len key) || not (matches_all is_key_char key)

module _ (host : Host) where
  unfoldable pub prepare_request : RequestMailboxCommand → Result PreparedRequest
  prepare_request command = do
    let invalid = new_error invalid_argument
    reject_if (command.tenant_id == nil_uuid || command.domain_id == nil_uuid) invalid
    let local_part = to_lower host.lower command.local_part
    reject_if (rejects_local_part local_part) invalid
    let display_name = trim_space command.display_name
    reject_if (rejects_display_name display_name) invalid
    let idempotency_key = trim_space command.idempotency_key
    reject_if (rejects_idempotency_key idempotency_key) invalid
    ok (record {
      tenant_id = command.tenant_id;
      domain_id = command.domain_id;
      local_part = local_part;
      display_name = display_name;
      idempotency_key = idempotency_key;
      request_hash = host.sha256 (
          host.marshal (record {
            domain_id = host.uuid_string command.domain_id;
            local_part = local_part;
            display_name = display_name;
          }));
    })

-- `Repository`, as the answers it gives.
pub record Repository : Type 0 where
  pub request_mailbox : PreparedRequest → Result RequestMailboxResult
  pub get_operation : Uuid → Uuid → Result Operation

module _ (host : Host) (repository : Repository) where
  unfoldable pub request_mailbox : RequestMailboxCommand → Result RequestMailboxResult
  request_mailbox command = do
    prepared ← prepare_request host command
    repository.request_mailbox prepared

  unfoldable pub get_operation : Uuid → Uuid → Result Operation
  get_operation tenant_id operation_id =
      if tenant_id == nil_uuid || operation_id == nil_uuid
      then fail (new_error invalid_argument)
      else repository.get_operation tenant_id operation_id
