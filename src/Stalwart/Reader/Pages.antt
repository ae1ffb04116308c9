-- ===== src/Stalwart/Reader/Pages.antt =====
-- `ListMessages`: one page of a mailbox, and the cursor of the next.
use mail_suite.Base.{
  Text, codes, Bool, true, false, ◌&&◌, ◌||◌, not, Option, none, some, List, [], ◌∷◌, ℕ, zero, suc,
  length, ◌=ₜ◌, is_empty, if◌then◌else◌,
}
use mail_suite.Base.Int.{ℤ, pos, pos_part, ◌+ℤ◌, leb_ℤ, ltb_ℤ, ◌=ℤ◌}
use mail_suite.Errors.{permanent, Error, Result, ok, fail}
use mail_suite.Operation.World.{Context, with_deadline}
use mail_suite.Stalwart.{error_code_configuration, failure, protocol_error}
use mail_suite.Stalwart.Tokens.{ReadScope, ReadToken, cursor_lifetime, token_error}
use mail_suite.Stalwart.Mail.{
  MessageSummary, ListMessagesQuery, MessagePage, EmailObject, EmailPage,
}
use mail_suite.Stalwart.World.{email_query, World, Adapter, Run, ◌>>=◌, lift}
use mail_suite.Stalwart.Reader.{
  MailboxSession, validate_read_scope, summary_properties, open_mailbox_session, call_mailbox,
  get_emails, fresh_token, seal_token, open_token, message_summary,
}

abbrev pub maximum_page_size : ℤ
maximum_page_size = pos 50

abbrev pub maximum_page_position : ℤ
maximum_page_position = pos 10000

abbrev pub cursor_error : Error
cursor_error = token_error (codes "cursor")

-- `ids[:n]`, and whether there is more.
unfoldable pub first : {A : Type 0} → ℕ → List A → List A
first zero ids = []
first (suc n) [] = []
first (suc n) (id ∷ ids) = id ∷ first n ids

-- An email by its id, the last entry of the map.
unfoldable pub find_email : Text → List EmailObject → Option EmailObject
find_email id [] = none
find_email id (email ∷ emails) =
    let rest = find_email id emails in if email.id =ₜ id then some email else rest

abbrev pub is_found : Option EmailObject → Bool
is_found none = false
is_found (some email) = true

-- Filling the map by id refuses an empty id and one that is there.
unfoldable pub indexed : List EmailObject → Bool
indexed [] = true
indexed (email ∷ emails) =
    not (is_empty email.id) && not (is_found (find_email email.id emails)) && indexed emails

-- What a cursor says of where to go on.
unfoldable pub cursor_start : Result ReadToken → Result (ℤ × Text)
cursor_start (fail e) = fail cursor_error
cursor_start (ok cursor) =
    if leb_ℤ cursor.position (pos 0)
      || ltb_ℤ maximum_page_position cursor.position
      || is_empty cursor.query_state
    then fail cursor_error
    else ok (cursor.position, cursor.query_state)

-- The tests on the answer to `Email/query`.
unfoldable pub refuses_page : ListMessagesQuery → ℤ → EmailPage → Bool
refuses_page query position result =
    is_empty result.query_state
    || not (result.position =ℤ position)
    || ltb_ℤ (query.limit +ℤ pos 1) (pos (length result.ids))

unfoldable pub check_limit : ℤ → Result (Unit {0})
check_limit limit =
    if ltb_ℤ limit (pos 1) || ltb_ℤ maximum_page_size limit
    then fail (failure permanent error_code_configuration)
    else ok tt

module _ (w : World) (adapter : Adapter) where
  unfoldable pub page_start : ListMessagesQuery → Run (ℤ × Text)
  page_start query h =
      if is_empty query.cursor
      then (ok (pos 0, []), h)
      else (let (r, h') = open_token w adapter query.cursor query.scope (codes "cursor") h in
          (cursor_start r, h'))

  -- `email, ok := byID[id]; if !ok { return … }`
  unfoldable pub with_email : {B : Type 0} → Option EmailObject → (EmailObject → Run B) → Run B
  with_email none f = lift (fail cursor_error)
  with_email (some email) f = f email

  unfoldable pub summarize : ReadScope → List EmailObject → List Text → Run (List MessageSummary)
  summarize scope emails [] = lift (ok [])
  summarize scope emails (id ∷ ids) = with_email (find_email id emails) λ email.
      message_summary w adapter scope email >>= λ summary.
      summarize scope emails ids >>= λ summaries. lift (ok (summary ∷ summaries))

  unfoldable pub summarize_indexed :
      ReadScope → List Text → List EmailObject → Run (List MessageSummary)
  summarize_indexed scope ids emails h =
      if not (indexed emails) then (fail protocol_error, h) else summarize scope emails ids h

  -- The messages of a page: without ids nothing is fetched.
  unfoldable pub page_messages :
      Context → MailboxSession → ReadScope → List Text → Run (List MessageSummary)
  page_messages ctx session scope [] = lift (ok [])
  page_messages ctx session scope (id ∷ ids) =
      get_emails w adapter ctx session (id ∷ ids) summary_properties false >>= λ emails.
      summarize_indexed scope (id ∷ ids) emails

  unfoldable pub next_cursor : ReadScope → Bool → ℤ → Text → Run Text
  next_cursor scope false position query_state = lift (ok [])
  next_cursor scope true position query_state =
      fresh_token w adapter scope (codes "cursor") cursor_lifetime >>= λ token.
      seal_token w adapter (record token { query_state = query_state; position = position })

  -- `ListMessages` on an answer that passed the tests.
  unfoldable pub finish_page :
      Context → MailboxSession → ListMessagesQuery → ℤ → EmailPage → Run MessagePage
  finish_page ctx session query position result =
      let has_more : Bool = ltb_ℤ query.limit (pos (length result.ids)) in
      let ids : List Text =
        if has_more then first (pos_part query.limit) result.ids else result.ids in
      page_messages ctx session query.scope ids >>= λ messages.
      next_cursor query.scope has_more (position +ℤ pos (length ids)) result.query_state
      >>= λ cursor. lift (ok (record { messages = messages; next_cursor = cursor }))

  -- `ListMessages` on the answer to `Email/query`.
  unfoldable pub read_page :
      Context → MailboxSession → ListMessagesQuery → ℤ → Text → EmailPage → Run MessagePage
  read_page ctx session query position previous result h =
      if refuses_page query position result
      then (fail protocol_error, h)
      else if not (is_empty previous) && not (previous =ₜ result.query_state)
      then (fail cursor_error, h)
      else finish_page ctx session query position result h

  -- `ListMessages` from a position on.
  unfoldable pub page_from : Context → ListMessagesQuery → ℤ → Text → Run MessagePage
  page_from ctx query position previous h =
      if ltb_ℤ maximum_page_position (position +ℤ query.limit)
      then (fail cursor_error, h)
      else (let request_ctx : Context = with_deadline ctx query.scope.deadline in
            open_mailbox_session w adapter request_ctx query.scope >>= λ session.
            call_mailbox w adapter w.json.email_page request_ctx session (codes "Email/query")
              (email_query session.account_id position (query.limit +ℤ pos 1))
            >>= λ result. read_page request_ctx session query position previous result)
          h

  unfoldable pub list_messages : Context → ListMessagesQuery → Run MessagePage
  list_messages ctx query = lift (validate_read_scope w.lower query.scope) >>= λ address.
      lift (check_limit query.limit) >>= λ checked.
      page_start query >>= λ start. page_from ctx query start.0 start.1
