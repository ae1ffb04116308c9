-- ===== src/Stalwart/Reader/Tests.antt =====
-- A reader of a mailbox with two parts of text, and a server that lost its answers.
use mail_suite.Stalwart.Metadata.{Derivation}
use mail_suite.Base.{
  inr, rune_limit, ◌-◌, ℕ, split, grow, decimal_onto, decimal_from, print_int_onto, parse_int,
  parse_unsigned, in_range, hex_onto, hex_digit, decode_hex32, hex_from, hex_value, big_endian_onto,
  as_uint64, zero, suc, ◌+◌, ◌≤◌, ◌<◌, ◌≡◌, refl, ap, Text, codes, true, false, Option, none, some,
  List, [], ◌∷◌, length, is_empty, byte_len, arith, to_lower, lower_char, trim_space, trim_left,
  trim_right, is_space, count, before, after,
}
use mail_suite.Base.Int.{pos, ◌≤ℤ◌, ◌<ℤ◌, ◌+ℤ◌, ◌-ℤ◌}
use mail_suite.Errors.{unknown, Error, plain, deadline_exceeded, ok}
use mail_suite.Mailcore.{classify_error, classify_cause}
use mail_suite.Operation.Tests.{background}
use mail_suite.Stalwart.{read_timeout_error}
use mail_suite.Stalwart.Tokens.{
  ReadScope, ReadToken, Sealing, unix, new_read_token, seal_read_token, seal_plaintext,
  open_read_token, open_bytes, read_plaintext, accept_token, refuses_token, token_key, take, drop,
  reference_lifetime,
}
use mail_suite.Stalwart.Mail.{EmailBodyPart, BodyValue, ListMessagesQuery, MessagePage, EmailObject}
use mail_suite.Stalwart.World.{response, set_update, World}
use mail_suite.Stalwart.Call.{
  fetch_session, request_json_as, read_answer, read_body, read_encoded, read_error, limit, decoded,
  read_session, own_path, foreign_url, find_domain, domain_of_ids, find_account, account_of_ids,
  only_account, only_domain, read_objects, read_list, query_ids, named, all_named, call, call_as,
  read_response, read_triple, read_parts,
}
use mail_suite.Stalwart.Uncertain.{IsUnknown, class_of, lost_writes_unknown}
use mail_suite.Stalwart.Bound.{IsBound, opened-IsBound}
use mail_suite.Stalwart.Sealed.{Unseals, fill, open-seal}
use mail_suite.Stalwart.Tests.{derivation, sealing_of, server, adapter, json}
use mail_suite.Stalwart.Reader.Message.{maximum_text_bytes, body_text, separated, value_or_zero}
use mail_suite.Stalwart.Reader.Bounds.{text_bounded, text_overfull}
use mail_suite.Stalwart.Reader.Pages.{
  list_messages, check_limit, page_start, page_from, read_page, refuses_page, finish_page, first,
  page_messages, summarize_indexed, indexed, find_email, summarize, with_email, next_cursor,
}
use mail_suite.Stalwart.Reader.Paged.{page_bounded}
use mail_suite.Stalwart.Reader.{
  open_mailbox_session, session_in, session_of, is_mapped, read_mailbox_session, session_at,
  scope_password, call_mailbox, get_emails, listed, strays, message_summary, summary_at,
  fresh_token, seal_token, summary_of, validate_read_scope,
}
use mail_suite.Stalwart.{split_address}
use mail_suite.Stalwart.Metadata.{
  format_metadata, parse_metadata, parse_parts, metadata_of, mailbox_password, password_message,
}

-- A server that answers writes with a page of text, under a context that has ended.
abbrev muddled : World
muddled = record server {
  ctx_err = λ h c. some (plain deadline_exceeded);
  answer = λ h c r. response 200 (codes "oops") none;
  json = record json { method_responses = λ b. none };
}

context_unknown : (d : Error) → some (plain deadline_exceeded) ≡ some d → class_of d ≡ unknown
unfolding classify_error classify_cause
context_unknown d e = ground arith

lost_writes_unknown_example :
    IsUnknown
      (call muddled adapter muddled.json.set_result background
        (codes "/jmap")
        (codes "x:Account/set")
        (set_update (codes "x") (codes "d") (codes "s"))
        true
        []).0
lost_writes_unknown_example =
    lost_writes_unknown muddled adapter muddled.json.set_result background (codes "/jmap")
      (codes "x:Account/set") (set_update (codes "x") (codes "d") (codes "s")) []
      (λ k d e. context_unknown d e)
      (inr (omega arith, omega arith, inr (inr (inr (omega arith, refl)))))

abbrev scope : ReadScope
scope = record {
  mailbox_id = 3;
  domain_id = 4;
  address = codes "a@b.c";
  revision = pos 1;
  configuration_hash = 99;
  deadline = pos 1030;
}

-- A reference to a message, made at the instant 0.
abbrev reference : ReadToken
reference =
    fill (new_read_token (pos 0) scope (codes "message") reference_lifetime) (codes "m1") [] []
      (pos 0)

-- Base64 as bytes that are no UTF-8.
unfoldable encode : List ℕ → Text
encode [] = []
encode (b ∷ bytes) = (b + rune_limit) ∷ encode bytes

unfoldable decode : Text → List ℕ
decode [] = []
decode (c ∷ text) = (c - rune_limit) ∷ decode text

abbrev coding : Derivation
coding = record derivation { encode_base64 = encode }

abbrev sealing : Sealing
sealing = record (sealing_of reference) { decode_base64 = λ t. some (decode t) }

decode-encode : (b : List ℕ) → decode (encode b) ≡ b
unfolding encode decode
decode-encode [] = refl
decode-encode (b ∷ bytes) = ground (arith, decode-encode bytes)

byte_len-encode : (b : List ℕ) → byte_len (encode b) ≡ length b
unfolding encode
byte_len-encode [] = refl
byte_len-encode (b ∷ bytes) = ground (arith, byte_len-encode bytes)

encode_empty : (b : List ℕ) → 0 < length b → is_empty (encode b) ≡ false
unfolding encode
encode_empty [] h = absurd (omega (arith, h))
encode_empty (b ∷ bytes) h = refl

unseals : Unseals sealing coding
unseals = record {
  open-seal = λ k n p. refl;
  decode-encode = λ b. ap some (decode-encode b);
  grows = λ k n p. omega arith;
  encoded_len = λ b h. omega (arith, h, byte_len-encode b);
  encoded_empty = encode_empty;
}

abbrev raw : Text
raw = encode (9 ∷ 7 ∷ 1 ∷ [])

sealed : seal_read_token sealing coding [] (some (9 ∷ [])) reference ≡ ok raw
unfolding seal_read_token seal_plaintext encode
sealed = refl

later : unix (pos 5) <ℤ unix (pos 0 +ℤ reference_lifetime)
unfolding unix ◌-ℤ◌ ◌+ℤ◌
later = omega arith

opens : open_read_token sealing coding [] (pos 5) raw scope (codes "message") ≡ ok reference
unfolding open_read_token open_bytes read_plaintext accept_token refuses_token token_key take drop
    decode encode unix new_read_token ◌+ℤ◌ ◌-ℤ◌
opens = refl

open-seal_example :
    open_read_token sealing coding [] (pos 5) raw scope (codes "message") ≡ ok reference
open-seal_example =
    open-seal sealing coding [] (9 ∷ []) (pos 0) (pos 5) reference_lifetime scope (codes "message")
      (codes "m1") [] [] (pos 0) raw unseals refl (omega arith) later (λ p e. refl) sealed

opened-IsBound_example : IsBound (pos 5) scope (codes "message") reference
opened-IsBound_example =
    opened-IsBound sealing coding [] (pos 5) raw scope (codes "message") reference opens

abbrev part : Text → EmailBodyPart
part id = record { part_id = id; blob_id = []; name = []; media_type = []; size = pos 0 }

-- So many letters.
unfoldable letters : ℕ → Text
letters zero = []
letters (suc n) = b'x' ∷ letters n

byte_len-letters : (n : ℕ) → byte_len (letters n) ≡ n
unfolding letters
byte_len-letters zero = refl
byte_len-letters (suc n) = omega (arith, byte_len-letters n)

abbrev full_value : BodyValue
full_value = record { value = letters maximum_text_bytes; is_truncated = false }

abbrev values : Text → Option BodyValue
values id = some full_value

text_overfull_example :
    (text : Text) × (body_text values (part (codes "1") ∷ part (codes "2") ∷ []) [] false
      ≡ ok (text, true))
    × (byte_len text ≡ maximum_text_bytes + 1)
text_overfull_example =
    text_overfull values (part (codes "1")) (part (codes "2")) full_value full_value refl refl refl
      refl (byte_len-letters maximum_text_bytes)

abbrev greeting : Text → Option BodyValue
greeting id = some (record { value = codes "hi"; is_truncated = false })

greeted :
    body_text greeting (part (codes "1") ∷ part (codes "2") ∷ []) [] false
    ≡ ok (codes "hi\nhi", false)
unfolding body_text separated value_or_zero
greeted = refl

text_bounded_example : byte_len (codes "hi\nhi") ≤ maximum_text_bytes + 1
text_bounded_example =
    text_bounded greeting (part (codes "1") ∷ part (codes "2") ∷ []) (codes "hi\nhi") false greeted

abbrev page_query : ListMessagesQuery
page_query = record { scope = scope; limit = pos 1; cursor = [] }

abbrev email : EmailObject
email = record {
  id = codes "m1";
  received_at = [];
  from = [];
  to = [];
  cc = [];
  subject = codes "hi";
  preview = [];
  size = pos 4;
  has_attachment = false;
  text_body = [];
  html_body = [];
  body_values = λ id. none;
  attachments = [];
}

-- A mailbox of two messages.
abbrev library : World
library = record server {
  sealing = sealing;
  derivation = coding;
  json = record json {
    mailbox_session = λ b. some (record {
      api_url = codes "https://mx/jmap";
      has_core = true;
      has_mail = true;
      mail_account = codes "a1";
    });
    email_page = λ b.
        some (record {
          ids = codes "m1" ∷ codes "m2" ∷ [];
          query_state = codes "s";
          position = pos 0;
        });
    email_list = λ b. some (record { list = email ∷ []; not_found = [] });
  };
}

abbrev page : MessagePage
page = record { messages = summary_of library adapter email (pos 5) raw ∷ []; next_cursor = raw }

listed_page : (list_messages library adapter background page_query []).0 ≡ ok page
unfolding list_messages validate_read_scope split_address to_lower lower_char trim_space trim_right
    trim_left is_space count before after check_limit page_start page_from ◌+ℤ◌ ◌-ℤ◌
    open_mailbox_session fetch_session request_json_as read_answer read_body read_encoded read_error
    read_timeout_error limit decoded read_session own_path foreign_url find_domain domain_of_ids
    find_account account_of_ids only_account only_domain read_objects read_list query_ids named
    all_named call call_as read_response read_triple read_parts session_in session_of is_mapped
    format_metadata parse_metadata parse_parts metadata_of split grow decimal_onto decimal_from
    print_int_onto parse_int parse_unsigned in_range hex_onto hex_digit decode_hex32 hex_from
    hex_value read_mailbox_session session_at scope_password mailbox_password call_mailbox read_page
    refuses_page finish_page first page_messages get_emails listed strays summarize_indexed indexed
    find_email summarize with_email message_summary summary_at fresh_token new_read_token unix
    seal_token seal_read_token seal_plaintext encode summary_of next_cursor token_key
    password_message big_endian_onto as_uint64
listed_page = refl

page_bounded_example :
    (pos (length page.messages) ≤ℤ page_query.limit) × (page_query.limit ≤ℤ pos 50)
page_bounded_example = page_bounded library adapter background page_query [] page listed_page
