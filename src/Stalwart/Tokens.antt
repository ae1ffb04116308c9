-- ===== src/Stalwart/Tokens.antt =====
-- src/backend/internal/mailcore/stalwart/read_tokens.go: what a reader gets in place of the server's
-- ids, encrypted and bound to one mailbox; with `ReadScope` of mailcore/read.go.
use mail_suite.Base.{
  ℕ, zero, suc, ◌+◌, ◌/◌, Text, codes, Uuid, Digest, Bool, ◌||◌, not, Option, none, some, List, [],
  ◌∷◌, ◌++◌, length, ltb, ◌==◌, ◌=ₜ◌, is_empty, byte_len, if◌then◌else◌,
}
use mail_suite.Base.Int.{ℤ, pos, negsuc, ◌+ℤ◌, ◌-ℤ◌, ◌=ℤ◌, leb_ℤ}
use mail_suite.Errors.{permanent, Error, Result, ok, fail}
use mail_suite.Stalwart.{
  error_code_cursor_invalid, error_code_reference_invalid, failure, protocol_error,
}
use mail_suite.Stalwart.Metadata.{Derivation}

pub record ReadScope : Type 0 where
  pub mailbox_id : Uuid
  pub domain_id : Uuid
  pub address : Text
  pub revision : ℤ
  pub configuration_hash : Digest
  pub deadline : ℤ

pub record ReadToken : Type 0 where
  pub version : ℤ
  pub purpose : Text
  pub mailbox_id : Uuid
  pub domain_id : Uuid
  pub revision : ℤ
  pub configuration_hash : Digest
  pub expires_at : ℤ
  pub message_id : Text
  pub blob_id : Text
  pub query_state : Text
  pub position : ℤ

-- AES-GCM, the JSON of a token, and unpadded URL base64, as Go's packages compute them. The key of the
-- cipher is an HMAC with SHA-256, which `aes.NewCipher` never refuses.
pub record Sealing : Type 0 where
  pub nonce_size : ℕ
  pub overhead : ℕ
  pub seal : List ℕ → List ℕ → List ℕ → List ℕ
  pub open_sealed : List ℕ → List ℕ → List ℕ → Option (List ℕ)
  pub marshal : ReadToken → Option (List ℕ)
  pub unmarshal : List ℕ → Option ReadToken
  pub decode_base64 : Text → Option (List ℕ)

-- In nanoseconds.
abbrev pub cursor_lifetime : ℤ
cursor_lifetime = pos 600000000000

abbrev pub reference_lifetime : ℤ
reference_lifetime = pos 900000000000

abbrev pub maximum_token_bytes : ℕ
maximum_token_bytes = 4096

-- `base64.RawURLEncoding.EncodedLen(maximumTokenBytes)`
abbrev pub maximum_token_text : ℕ
maximum_token_text = 5462

-- `t.Unix()` of an instant: whole seconds, rounded down, from 1970 instead of year 1.
unfoldable pub unix : ℤ → ℤ
unix (pos n) = pos (n / 1000000000) -ℤ pos 62135596800
unix (negsuc n) = negsuc (n / 1000000000) -ℤ pos 62135596800

-- The token for the instant `now`, with no field but the binding and the expiry.
unfoldable pub new_read_token : ℤ → ReadScope → Text → ℤ → ReadToken
new_read_token now scope purpose lifetime = record {
  version = pos 1;
  purpose = purpose;
  mailbox_id = scope.mailbox_id;
  domain_id = scope.domain_id;
  revision = scope.revision;
  configuration_hash = scope.configuration_hash;
  expires_at = unix (now +ℤ lifetime);
  message_id = [];
  blob_id = [];
  query_state = [];
  position = pos 0;
}

unfoldable pub token_error : Text → Error
token_error purpose =
    if purpose =ₜ codes "cursor"
    then failure permanent error_code_cursor_invalid
    else failure permanent error_code_reference_invalid

-- The first `n` bytes, and the others.
unfoldable pub take : ℕ → List ℕ → List ℕ
take zero l = []
take (suc n) [] = []
take (suc n) (b ∷ l) = b ∷ take n l

unfoldable pub drop : ℕ → List ℕ → List ℕ
drop zero l = l
drop (suc n) [] = []
drop (suc n) (b ∷ l) = drop n l

module _ (sealing : Sealing) (derivation : Derivation) (mailbox_key : List ℕ) where
  -- The key of `tokenCipher`.
  unfoldable pub token_key : List ℕ
  token_key = derivation.hmac mailbox_key (codes "mail-suite:mail-read-token:v1")

  -- `sealReadToken` from the plain text and the nonce on.
  unfoldable pub seal_plaintext : Option (List ℕ) → Option (List ℕ) → Result Text
  seal_plaintext (some plaintext) (some nonce) =
      let sealed : List ℕ = nonce ++ sealing.seal token_key nonce plaintext in
      if ltb maximum_token_bytes (length sealed)
      then fail protocol_error
      else ok (derivation.encode_base64 sealed)
  seal_plaintext _ _ = fail protocol_error

  -- `random` is what reading the nonce gives.
  unfoldable pub seal_read_token : Option (List ℕ) → ReadToken → Result Text
  seal_read_token random value = seal_plaintext (sealing.marshal value) random

  -- The tests of `openReadToken` on the token itself.
  unfoldable pub refuses_token : ℤ → ReadScope → Text → ReadToken → Bool
  refuses_token now scope purpose value =
      not (value.version =ℤ pos 1)
      || not (value.purpose =ₜ purpose)
      || not (value.mailbox_id == scope.mailbox_id)
      || not (value.domain_id == scope.domain_id)
      || not (value.revision =ℤ scope.revision)
      || not (value.configuration_hash == scope.configuration_hash)
      || leb_ℤ value.expires_at (unix now)

  unfoldable pub accept_token : ℤ → ReadScope → Text → Option ReadToken → Result ReadToken
  accept_token now scope purpose none = fail (token_error purpose)
  accept_token now scope purpose (some value) =
      if refuses_token now scope purpose value then fail (token_error purpose) else ok value

  unfoldable pub read_plaintext : ℤ → ReadScope → Text → Option (List ℕ) → Result ReadToken
  read_plaintext now scope purpose none = fail (token_error purpose)
  read_plaintext now scope purpose (some plaintext) =
      accept_token now scope purpose (sealing.unmarshal plaintext)

  unfoldable pub open_bytes : ℤ → ReadScope → Text → Option (List ℕ) → Result ReadToken
  open_bytes now scope purpose none = fail (token_error purpose)
  open_bytes now scope purpose (some encoded) =
      if ltb maximum_token_bytes (length encoded)
        || ltb (length encoded) (sealing.nonce_size + sealing.overhead)
      then fail (token_error purpose)
      else read_plaintext now scope purpose (
          sealing.open_sealed token_key (take sealing.nonce_size encoded)
            (drop sealing.nonce_size encoded))

  unfoldable pub open_read_token : ℤ → Text → ReadScope → Text → Result ReadToken
  open_read_token now raw scope purpose =
      if is_empty raw || ltb maximum_token_text (byte_len raw)
      then fail (token_error purpose)
      else open_bytes now scope purpose (sealing.decode_base64 raw)
