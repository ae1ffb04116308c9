-- ===== src/Stalwart/Reader/Message.antt =====
-- `GetMessage`: one message, its text up to a limit, and references to its attachments.
use mail_suite.Base.{
  Text, codes, Bool, true, false, ◌||◌, not, Option, none, some, List, [], ◌∷◌, ◌++◌, ℕ, ◌-◌,
  length, ltb, leb, ◌=ₜ◌, is_empty, byte_len, rune_len, rune_limit, if◌then◌else◌,
}
use mail_suite.Base.Int.{pos, ltb_ℤ}
use mail_suite.Errors.{permanent, Result, ok, fail}
use mail_suite.Operation.World.{Context, with_deadline}
use mail_suite.Stalwart.{error_code_message_not_found, failure, protocol_error}
use mail_suite.Stalwart.Tokens.{ReadScope, ReadToken, reference_lifetime, token_error}
use mail_suite.Stalwart.Mail.{
  MessageSummary, MessageAttachment, MessageDetail, EmailBodyPart, BodyValue, EmailObject,
}
use mail_suite.Stalwart.World.{History, World, Adapter, Run, ◌>>=◌, lift}
use mail_suite.Stalwart.Reader.{
  validate_read_scope, detail_properties, open_mailbox_session, get_emails, fresh_token, seal_token,
  open_token, message_summary,
}

abbrev pub maximum_text_bytes : ℕ
maximum_text_bytes = 65536

abbrev pub maximum_attachments : ℕ
maximum_attachments = 100

-- `strings.ToValidUTF8(t[:n], "")`: a rune that the cut splits is dropped with all that is no UTF-8.
unfoldable pub clip : ℕ → Text → Text
clip n [] = []
clip n (c ∷ t) =
    let rest = clip (n - rune_len c) t in
    if ltb n (rune_len c) then [] else if ltb c rune_limit then c ∷ rest else rest

-- `if detail.Text != "" { detail.Text += "\n" }`
unfoldable pub separated : Text → Text
separated text = if is_empty text then text else text ++ (b'\n' ∷ [])

-- A map without an entry gives the zero value.
unfoldable pub value_or_zero : Option BodyValue → BodyValue
value_or_zero (some value) = value
value_or_zero none = record { value = []; is_truncated = false }

abbrev pub is_there : Option BodyValue → Bool
is_there (some value) = true
is_there none = false

-- The loop over the parts of the text: the text so far, and whether something of it was cut.
unfoldable pub body_text :
    (Text → Option BodyValue) → List EmailBodyPart → Text → Bool → Result (Text × Bool)
body_text values [] text truncated = ok (text, truncated)
body_text values (part ∷ parts) text truncated =
    let value : BodyValue = value_or_zero (values part.part_id) in
    let longer : Text = separated text in
    let rest : Result (Text × Bool) =
      body_text values parts (longer ++ value.value) (truncated || value.is_truncated) in
    if is_empty part.part_id || not (is_there (values part.part_id))
    then fail protocol_error
    else if leb maximum_text_bytes (byte_len longer)
    then ok (longer, true)
    else if ltb (maximum_text_bytes - byte_len longer) (byte_len value.value)
    then ok (longer ++ clip (maximum_text_bytes - byte_len longer) value.value, true)
    else rest

-- The test that `GetMessage` makes of what it fetched.
unfoldable pub only_message : Text → List EmailObject → Result EmailObject
only_message message_id [] = fail (failure permanent error_code_message_not_found)
only_message message_id (email ∷ []) =
    if email.id =ₜ message_id then ok email else fail protocol_error
only_message message_id (email ∷ other ∷ emails) = fail protocol_error

unfoldable pub message_token : Result ReadToken → Result ReadToken
message_token (fail e) = fail (token_error (codes "message"))
message_token (ok token) =
    if is_empty token.message_id then fail (token_error (codes "message")) else ok token

unfoldable pub attachment_of : EmailBodyPart → Text → MessageAttachment
attachment_of part reference = record {
  name = part.name;
  media_type = part.media_type;
  size = part.size;
  reference = reference;
}

abbrev pub some_parts : List EmailBodyPart → Bool
some_parts [] = false
some_parts (part ∷ parts) = true

unfoldable pub detail_of :
    EmailObject → MessageSummary → Text → Text × Bool → List MessageAttachment → MessageDetail
detail_of email summary opaque_id body attachments = record {
  summary = record summary { id = opaque_id };
  to = email.to;
  cc = email.cc;
  text = body.0;
  text_truncated = body.1;
  has_html = some_parts email.html_body;
  attachments = attachments;
}

module _ (w : World) (adapter : Adapter) where
  unfoldable pub attach : ReadScope → Text → List EmailBodyPart → Run (List MessageAttachment)
  attach scope message_id [] h = (ok [], h)
  attach scope message_id (part ∷ parts) h =
      let sealed : Result (List MessageAttachment) × History =
        (fresh_token w adapter scope (codes "attachment") reference_lifetime >>= λ token.
        seal_token w adapter (record token { message_id = message_id; blob_id = part.blob_id })
        >>= λ reference. attach scope message_id parts >>= λ rest.
            lift (ok (attachment_of part reference ∷ rest)))
          h in
      if is_empty part.blob_id || ltb_ℤ part.size (pos 0) then (fail protocol_error, h) else sealed

  unfoldable pub attach_all : ReadScope → Text → List EmailBodyPart → Run (List MessageAttachment)
  attach_all scope message_id parts h =
      if ltb maximum_attachments (length parts)
      then (fail protocol_error, h)
      else attach scope message_id parts h

  -- `GetMessage` on the message.
  unfoldable pub read_message : ReadScope → Text → EmailObject → Run MessageDetail
  read_message scope opaque_id email = message_summary w adapter scope email >>= λ summary.
      lift (body_text email.body_values email.text_body [] false) >>= λ body.
      attach_all scope email.id email.attachments >>= λ attachments.
      lift (ok (detail_of email summary opaque_id body attachments))

  -- `GetMessage` on the token.
  unfoldable pub message_of : Context → ReadScope → Text → ReadToken → Run MessageDetail
  message_of ctx scope opaque_id token =
      let request_ctx : Context = with_deadline ctx scope.deadline in
      open_mailbox_session w adapter request_ctx scope >>= λ session.
      get_emails w adapter request_ctx session (token.message_id ∷ []) detail_properties true
      >>= λ emails. lift (only_message token.message_id emails) >>= λ email.
          read_message scope opaque_id email

  unfoldable pub get_message : Context → ReadScope → Text → Run MessageDetail
  get_message ctx scope opaque_id = lift (validate_read_scope w.lower scope) >>= λ address.
      (λ h.
        let (r, h') = open_token w adapter opaque_id scope (codes "message") h in
        (message_token r, h'))
      >>= λ token. message_of ctx scope opaque_id token
