-- ===== src/Stalwart/Metadata.antt =====
-- The control metadata that the adapter writes into the description of an account, and reads back.
use mail_suite.Base.{
  ℕ, Text, codes, Uuid, Digest, not, Option, some, List, [], ◌∷◌, ◌++◌, ◌=ₜ◌, split, print_int_onto,
  parse_int, hex_onto, decode_hex32, big_endian_onto, as_uint64, if◌then◌else◌,
}
use mail_suite.Base.Int.{ℤ, pos, leb_ℤ}
use mail_suite.Errors.{Error, plain, opaque, Result, ok, fail}
use mail_suite.Mailcore.{EnsureMailboxCommand}

abbrev pub metadata_prefix : Text
metadata_prefix = codes "mail-suite:v1"

-- What package uuid prints and parses.
pub record UuidText : Type 0 where
  pub print : Uuid → Text
  pub parse : Text → Option Uuid

pub record MailboxMetadata : Type 0 where
  pub mailbox_id : Uuid
  pub domain_id : Uuid
  pub operation_id : Uuid
  pub revision : ℤ
  pub configuration_hash : Digest

abbrev pub colon : ℕ
colon = b':'

unfoldable pub metadata_error : Error
metadata_error = plain (opaque (codes "stalwart 邮箱控制元数据无效"))

-- The tests of `parseMetadata` on what the five fields parse to.
unfoldable pub metadata_of :
    Option Uuid → Option Uuid → Option Uuid → Option ℤ → Option Digest → Result MailboxMetadata
metadata_of (some mailbox_id) (some domain_id) (some operation_id) (some revision) (some hash) =
    if leb_ℤ revision (pos 0)
    then fail metadata_error
    else ok (record {
      mailbox_id = mailbox_id;
      domain_id = domain_id;
      operation_id = operation_id;
      revision = revision;
      configuration_hash = hash;
    })
metadata_of _ _ _ _ _ = fail metadata_error

module _ (uuids : UuidText) where
  unfoldable pub format_metadata : EnsureMailboxCommand → Text
  format_metadata command =
      metadata_prefix
      ++ (colon
          ∷ (uuids.print command.mailbox_id
              ++ (colon
                  ∷ (uuids.print command.domain_id
                      ++ (colon
                          ∷ (uuids.print command.operation_id
                              ++ (colon
                                  ∷ (print_int_onto command.desired_revision []
                                      ++ (colon ∷ hex_onto 64 command.configuration_hash [])))))))))

  -- `parseMetadata` on the parts between the colons.
  unfoldable pub parse_parts : List Text → Result MailboxMetadata
  parse_parts (name ∷ version ∷ mailbox ∷ domain ∷ operation ∷ revision ∷ hash ∷ []) =
      if not (name ++ colon ∷ version =ₜ metadata_prefix)
      then fail metadata_error
      else metadata_of (uuids.parse mailbox) (uuids.parse domain) (uuids.parse operation)
          (parse_int revision) (decode_hex32 hash)
  parse_parts _ = fail metadata_error

  unfoldable pub parse_metadata : Text → Result MailboxMetadata
  parse_metadata raw = parse_parts (split colon raw)

-- HMAC with SHA-256 and unpadded URL base64, as Go's packages compute them.
pub record Derivation : Type 0 where
  pub hmac : List ℕ → List ℕ → List ℕ
  pub encode_base64 : List ℕ → Text

-- What is written into the HMAC: the 16 bytes of the UUID, and the revision as 8 bytes.
unfoldable pub password_message : Uuid → ℤ → List ℕ
password_message mailbox_id revision =
    big_endian_onto 16 mailbox_id (big_endian_onto 8 (as_uint64 revision) [])

unfoldable pub mailbox_password : Derivation → List ℕ → Uuid → ℤ → Text
mailbox_password derivation mailbox_key mailbox_id revision =
    codes "ms1_"
    ++ derivation.encode_base64 (derivation.hmac mailbox_key (password_message mailbox_id revision))
