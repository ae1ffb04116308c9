-- ===== src/Stalwart/Reader/Opened.antt =====
-- `GetMessage`: how it fails, and what it sends.
use mail_suite.Base.{
  ℕ, Text, inl, Bool, true, false, ◌||◌, Option, List, [], ◌∷◌, ◌++◌, length, ltb, leb, is_empty,
  not, byte_len, ◌-◌,
}
use mail_suite.Base.Int.{pos, ltb_ℤ}
use mail_suite.Errors.{Result, ok, fail}
use mail_suite.Operation.World.{Context}
use mail_suite.Stalwart.Tokens.{ReadScope, ReadToken}
use mail_suite.Stalwart.Mail.{ListMessagesQuery, EmailBodyPart, BodyValue, EmailObject}
use mail_suite.Stalwart.World.{History, World, Adapter, lift}
use mail_suite.Stalwart.Contract.{
  Since, here, ended, broken, continue-Ends, ends-if, ends_history, own_protocol, own_token,
  own_message_not_found,
}
use mail_suite.Stalwart.Reads.{Fails, passed, failed, Own, Fails-if}
use mail_suite.Stalwart.Sends.{lift-Fits}
use mail_suite.Stalwart.Reader.Message.{
  maximum_text_bytes, maximum_attachments, separated, value_or_zero, is_there, body_text,
  only_message, message_token, attach, attach_all, read_message, message_of, get_message,
}
use mail_suite.Stalwart.Reader.Pages.{list_messages}
use mail_suite.Stalwart.Reader.Paged.{list-Yields}
use mail_suite.Stalwart.Reader.Served.{
  Serves, validate_read_scope-Own, open_session-Serves, get_emails-Serves, fresh_token-Serves,
  seal_token-Serves, open_token-Serves, message_summary-Serves,
}

body_text-Own :
    (values : Text → Option BodyValue) (parts : List EmailBodyPart) (text : Text) (truncated : Bool)
    → Fails Own (body_text values parts text truncated)
unfolding body_text
body_text-Own values [] text truncated = passed
body_text-Own values (part ∷ parts) text truncated =
    let value : BodyValue = value_or_zero (values part.part_id) in
    let longer : Text = separated text in
    let room : ℕ = maximum_text_bytes - byte_len longer in
    Fails-if Own (is_empty part.part_id || not (is_there (values part.part_id))) _ _
      (failed own_protocol)
      (Fails-if Own (leb maximum_text_bytes (byte_len longer)) _ _ passed (
        Fails-if Own (ltb room (byte_len value.value)) _ _ passed
          (body_text-Own values parts (longer ++ value.value) (truncated || value.is_truncated))))

only_message-Own : (id : Text) (emails : List EmailObject) → Fails Own (only_message id emails)
unfolding only_message
only_message-Own id [] = failed own_message_not_found
only_message-Own id (email ∷ []) = Fails-if Own _ _ _ passed (failed own_protocol)
only_message-Own id (email ∷ other ∷ emails) = failed own_protocol

message_token-Own : (r : Result ReadToken) → Fails Own (message_token r)
unfolding message_token
message_token-Own (fail e) = failed (own_token _)
message_token-Own (ok token) = Fails-if Own _ _ _ (failed (own_token _)) passed

module _ (w : World) (adapter : Adapter) (start : History) where
  abbrev Never : Text → Type 0
  Never d = ⊥

  served :
      {A : Type 0} (r : Result A) (h : History)
      → Fails Own r
      → Since Never start h
      → Serves w adapter start (lift r h)
  served r h = lift-Fits w adapter Never start r h

  attach-Serves :
      (scope : ReadScope) (id : Text) (parts : List EmailBodyPart) (h : History)
      → Since Never start h
      → Serves w adapter start (attach w adapter scope id parts h)
  unfolding attach
  attach-Serves scope id [] h s = ended tt s
  attach-Serves scope id (part ∷ parts) h s =
      ends-if (is_empty part.blob_id || ltb_ℤ part.size (pos 0)) _ _ (broken (inl own_protocol) s) (
        continue-Ends _ _ (fresh_token-Serves w adapter start scope _ _ h s) λ token k _ s1.
          continue-Ends _ _ (seal_token-Serves w adapter start _ k s1) λ reference k2 _ s2.
            continue-Ends _ _ (attach-Serves scope id parts k2 s2) λ rest k3 _ s3. ended tt s3)

  attach_all-Serves :
      (scope : ReadScope) (id : Text) (parts : List EmailBodyPart) (h : History)
      → Since Never start h
      → Serves w adapter start (attach_all w adapter scope id parts h)
  unfolding attach_all
  attach_all-Serves scope id parts h s =
      ends-if (ltb maximum_attachments (length parts)) _ _ (broken (inl own_protocol) s)
        (attach-Serves scope id parts h s)

  read-Serves :
      (scope : ReadScope) (opaque_id : Text) (email : EmailObject) (h : History)
      → Since Never start h
      → Serves w adapter start (read_message w adapter scope opaque_id email h)
  unfolding read_message
  read-Serves scope opaque_id email h s =
      continue-Ends _ _ (message_summary-Serves w adapter start scope email h s) λ summary k _ s1.
        continue-Ends _ _ (served _ k (body_text-Own email.body_values email.text_body [] false) s1)
          λ body k2 _ s2.
            continue-Ends _ _ (attach_all-Serves scope email.id email.attachments k2 s2)
              λ attachments k3 _ s3. ended tt s3

  message_of-Serves :
      (ctx : Context) (scope : ReadScope) (opaque_id : Text) (token : ReadToken) (h : History)
      → Since Never start h
      → Serves w adapter start (message_of w adapter ctx scope opaque_id token h)
  unfolding message_of
  message_of-Serves ctx scope opaque_id token h s =
      continue-Ends _ _ (open_session-Serves w adapter start _ scope h s) λ session k _ s1.
        continue-Ends _ _ (get_emails-Serves w adapter start _ session _ _ true k s1)
          λ emails k2 _ s2.
            continue-Ends _ _ (served _ k2 (only_message-Own token.message_id emails) s2)
              λ email k3 _ s3. read-Serves scope opaque_id email k3 s3

  reopen-Serves :
      (r : Result ReadToken × History)
      → Serves w adapter start r
      → Serves w adapter start (message_token r.0, r.1)
  reopen-Serves (ok token, h) (ended p s) = served _ h (message_token-Own (ok token)) s
  reopen-Serves (fail e, h) (broken p s) = served _ h (message_token-Own (fail e)) s

  get-Serves :
      (ctx : Context) (scope : ReadScope) (opaque_id : Text)
      → Serves w adapter start (get_message w adapter ctx scope opaque_id start)
  unfolding get_message
  get-Serves ctx scope opaque_id =
      continue-Ends _ _ (served _ start (validate_read_scope-Own w.lower scope) here)
        λ address k _ s1.
          continue-Ends _ _
            (reopen-Serves _ (open_token-Serves w adapter start opaque_id scope _ k s1))
            λ token k2 _ s2. message_of-Serves ctx scope opaque_id token k2 s2

-- Neither `ListMessages` nor `GetMessage` ever sends a write, whatever the server answers and however
-- they end.
pub reader_only_reads :
    (w : World) (adapter : Adapter) (ctx : Context) (query : ListMessagesQuery) (scope : ReadScope)
    (opaque_id : Text) (h : History)
    → Since (λ d. ⊥) h (list_messages w adapter ctx query h).1
      × Since (λ d. ⊥) h (get_message w adapter ctx scope opaque_id h).1
reader_only_reads w adapter ctx query scope opaque_id h = (
  ends_history _ (list-Yields w adapter h ctx query),
  ends_history _ (get-Serves w adapter h ctx scope opaque_id),
)
