-- ===== src/Stalwart/Written.antt =====
-- `formatMetadata` followed by `parseMetadata`.
use mail_suite.Base.{
  ◌≡◌, refl, ◌^◌, ◌<◌, true, [], ◌∷◌, some, arith, split, lacks, split-joined, split-single,
  lacks-print_int, lacks-hex_onto, print_int_onto, parse_int-print_int, hex_onto, codes, ap,
  decode_hex32-hex_onto, Uuid, ◌∙◌,
}
use mail_suite.Base.Int.{pos, ◌<ℤ◌, IsInt64}
use mail_suite.Errors.{ok}
use mail_suite.Mailcore.{EnsureMailboxCommand}
use mail_suite.Stalwart.Metadata.{
  UuidText, MailboxMetadata, colon, metadata_of, format_metadata, parse_parts, parse_metadata,
}

-- Package uuid parses what it prints, and prints no colon.
pub record PrintsUuids (uuids : UuidText) : Type 0 where
  pub parse-print : (u : Uuid) → u < 2 ^ 128 → uuids.parse (uuids.print u) ≡ some u
  pub lacks-print : (u : Uuid) → lacks colon (uuids.print u) ≡ true

-- A command in the ranges of its Go types, with a revision to write.
pub record IsWritable (command : EnsureMailboxCommand) : Type 0 where
  pub mailbox_id : command.mailbox_id < 2 ^ 128
  pub domain_id : command.domain_id < 2 ^ 128
  pub operation_id : command.operation_id < 2 ^ 128
  pub revision : IsInt64 command.desired_revision
  pub positive : pos 0 <ℤ command.desired_revision
  pub configuration_hash : command.configuration_hash < 2 ^ 256

abbrev pub written : EnsureMailboxCommand → MailboxMetadata
written command = record {
  mailbox_id = command.mailbox_id;
  domain_id = command.domain_id;
  operation_id = command.operation_id;
  revision = command.desired_revision;
  configuration_hash = command.configuration_hash;
}

-- The text of a command falls into its seven parts.
split-format :
    (uuids : UuidText) (command : EnsureMailboxCommand)
    → PrintsUuids uuids
    → split colon (format_metadata uuids command)
      ≡ codes "mail-suite"
        ∷ codes "v1"
        ∷ uuids.print command.mailbox_id
        ∷ uuids.print command.domain_id
        ∷ uuids.print command.operation_id
        ∷ print_int_onto command.desired_revision []
        ∷ hex_onto 64 command.configuration_hash []
        ∷ []
unfolding format_metadata
split-format uuids command p =
    split-joined colon (codes "mail-suite") _ refl
    ∙ ap (λ ps. codes "mail-suite" ∷ ps)
        (split-joined colon (codes "v1") _ refl
          ∙ ap (λ ps. codes "v1" ∷ ps)
              (split-joined colon _ _ (p.lacks-print command.mailbox_id)
                ∙ ap (λ ps. uuids.print command.mailbox_id ∷ ps)
                    (split-joined colon _ _ (p.lacks-print command.domain_id)
                      ∙ ap (λ ps. uuids.print command.domain_id ∷ ps)
                          (split-joined colon _ _ (p.lacks-print command.operation_id)
                            ∙ ap (λ ps. uuids.print command.operation_id ∷ ps)
                                (split-joined colon _ _ (lacks-print_int command.desired_revision)
                                  ∙ ap (λ ps. print_int_onto command.desired_revision [] ∷ ps)
                                      (split-single colon _
                                        (lacks-hex_onto 64 command.configuration_hash [] refl)))))))

metadata_of-written :
    (command : EnsureMailboxCommand)
    → pos 0 <ℤ command.desired_revision
    → metadata_of
        (some command.mailbox_id)
        (some command.domain_id)
        (some command.operation_id)
        (some command.desired_revision)
        (some command.configuration_hash)
      ≡ ok (written command)
unfolding metadata_of
metadata_of-written command h = ground arith

-- The description that the adapter writes for a command parses to the command's mailbox, domain,
-- operation, revision and configuration hash: for a command with a positive revision and values in the
-- ranges of their Go types, where package uuid parses what it prints and prints no colon.
pub parse_metadata-format_metadata :
    (uuids : UuidText) (command : EnsureMailboxCommand)
    → PrintsUuids uuids
    → IsWritable command
    → parse_metadata uuids (format_metadata uuids command) ≡ ok (written command)
unfolding parse_metadata parse_parts
parse_metadata-format_metadata uuids command p range =
    rw
      (
        split-format uuids command p,
        p.parse-print command.mailbox_id range.mailbox_id,
        p.parse-print command.domain_id range.domain_id,
        p.parse-print command.operation_id range.operation_id,
        parse_int-print_int command.desired_revision range.revision,
        decode_hex32-hex_onto command.configuration_hash (omega (arith, range.configuration_hash)),
      )
      (metadata_of-written command range.positive)
