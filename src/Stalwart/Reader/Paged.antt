-- ===== src/Stalwart/Reader/Paged.antt =====
-- `ListMessages`: the length of a page, how it fails, and what it sends.
use mail_suite.Base.{
  ℕ, zero, suc, ◌≤◌, Text, ◌≡◌, refl, ap, inl, Bool, true, false, ◌&&◌, not, Option, none, some,
  List, [], ◌∷◌, length, ◌=ₜ◌, is_empty, arith, if◌then◌else◌,
}
use mail_suite.Base.Int.{ℤ, pos, pos_part, ◌+ℤ◌, ◌≤ℤ◌, ltb_ℤ}
use mail_suite.Errors.{Result, ok, fail}
use mail_suite.Operation.World.{Context}
use mail_suite.Stalwart.Tokens.{ReadScope, ReadToken}
use mail_suite.Stalwart.Mail.{ListMessagesQuery, MessagePage, EmailObject, EmailPage}
use mail_suite.Stalwart.World.{History, World, Adapter, Run, lift}
use mail_suite.Stalwart.Contract.{
  IsStable, Since, Ends, ended, broken, continue-Ends, ends-if, ends-weaken, ends_value,
  own_protocol, own_token, own_configuration, here,
}
use mail_suite.Stalwart.Reads.{Fails, passed, failed, Own, Fails-if}
use mail_suite.Stalwart.Reader.{MailboxSession}
use mail_suite.Stalwart.Sends.{lift-Fits}
use mail_suite.Stalwart.Reader.Pages.{
  check_limit, maximum_page_size, page_start, list_messages, maximum_page_position, first,
  find_email, indexed, cursor_start, refuses_page, with_email, summarize, summarize_indexed,
  page_messages, next_cursor, finish_page, read_page, page_from,
}
use mail_suite.Stalwart.Reader.Served.{
  Serves, validate_read_scope-Own, open_token-Serves, open_session-Serves, call_mailbox-Serves,
  get_emails-Serves, fresh_token-Serves, seal_token-Serves, message_summary-Serves,
}

length-first : {A : Type 0} (n : ℕ) (ids : List A) → length (first n ids) ≤ n
unfolding first
length-first zero ids = omega arith
length-first (suc n) [] = omega arith
length-first (suc n) (id ∷ ids) = omega (arith, length-first n ids)

page_ids :
    (limit : ℤ) (ids : List Text)
    → pos 1 ≤ℤ limit
    → pos (length (if ltb_ℤ limit (pos (length ids)) then first (pos_part limit) ids else ids))
      ≤ℤ limit
page_ids limit ids h = ground (arith, length-first (pos_part limit) ids)

module _ (w : World) (adapter : Adapter) (start : History) where
  abbrev Never : Text → Type 0
  Never d = ⊥

  -- A run that sends no write, fails with stable errors, and returns a value of `P`.
  abbrev Yields : {A : Type 0} → (A → Type 0) → Result A × History → Type 0
  Yields P r = Ends P (IsStable w) (Since Never start) r

  with_email-Yields :
      {B : Type 0} {P : B → Type 0} (o : Option EmailObject) (f : EmailObject → Run B) (h : History)
      → Since Never start h
      → ((email : EmailObject) → Yields P (f email h))
      → Yields P (with_email w adapter o f h)
  unfolding with_email
  with_email-Yields none f h s k = broken (inl (own_token _)) s
  with_email-Yields (some email) f h s k = k email

  summarize-Yields :
      (scope : ReadScope) (emails : List EmailObject) (ids : List Text) (h : History)
      → Since Never start h
      → Yields (λ l. length l ≡ length ids) (summarize w adapter scope emails ids h)
  unfolding summarize
  summarize-Yields scope emails [] h s = ended refl s
  summarize-Yields scope emails (id ∷ ids) h s =
      with_email-Yields (find_email id emails) _ h s λ email.
        continue-Ends _ _ (message_summary-Serves w adapter start scope email h s) λ summary k _ s1.
          continue-Ends _ _ (summarize-Yields scope emails ids k s1)
            λ rest k2 same s2. ended (ap suc same) s2

  indexed-Yields :
      (scope : ReadScope) (ids : List Text) (emails : List EmailObject) (h : History)
      → Since Never start h
      → Yields (λ l. length l ≡ length ids) (summarize_indexed w adapter scope ids emails h)
  unfolding summarize_indexed
  indexed-Yields scope ids emails h s =
      ends-if (not (indexed emails)) _ _ (broken (inl own_protocol) s)
        (summarize-Yields scope emails ids h s)

  messages-Yields :
      (ctx : Context) (session : MailboxSession) (scope : ReadScope) (ids : List Text) (h : History)
      → Since Never start h
      → Yields (λ l. length l ≡ length ids) (page_messages w adapter ctx session scope ids h)
  unfolding page_messages
  messages-Yields ctx session scope [] h s = ended refl s
  messages-Yields ctx session scope (id ∷ ids) h s =
      continue-Ends _ _ (get_emails-Serves w adapter start ctx session _ _ false h s)
        λ emails k _ s1. indexed-Yields scope (id ∷ ids) emails k s1

  cursor-Serves :
      (scope : ReadScope) (more : Bool) (position : ℤ) (state : Text) (h : History)
      → Since Never start h
      → Serves w adapter start (next_cursor w adapter scope more position state h)
  unfolding next_cursor
  cursor-Serves scope false position state h s = ended tt s
  cursor-Serves scope true position state h s =
      continue-Ends _ _ (fresh_token-Serves w adapter start scope _ _ h s)
        λ token k _ s1. seal_token-Serves w adapter start _ k s1

  -- The page has no more messages than the limit.
  abbrev Within : ListMessagesQuery → MessagePage → Type 0
  Within query page = pos (length page.messages) ≤ℤ query.limit

  finish-Yields :
      (ctx : Context) (session : MailboxSession) (query : ListMessagesQuery) (position : ℤ)
      (result : EmailPage) (h : History)
      → pos 1 ≤ℤ query.limit
      → Since Never start h
      → Yields (Within query) (finish_page w adapter ctx session query position result h)
  unfolding finish_page
  finish-Yields ctx session query position result h some_limit s =
      continue-Ends _ _ (messages-Yields ctx session query.scope _ h s) λ messages k same s1.
        continue-Ends _ _ (cursor-Serves query.scope _ _ _ k s1) λ cursor k2 _ s2.
          ended (omega (arith, same, page_ids query.limit result.ids some_limit)) s2

  read-Yields :
      (ctx : Context) (session : MailboxSession) (query : ListMessagesQuery) (position : ℤ)
      (previous : Text) (result : EmailPage) (h : History)
      → pos 1 ≤ℤ query.limit
      → Since Never start h
      → Yields (Within query) (read_page w adapter ctx session query position previous result h)
  unfolding read_page
  read-Yields ctx session query position previous result h some_limit s =
      ends-if (refuses_page query position result) _ _ (broken (inl own_protocol) s) (
        ends-if (not (is_empty previous) && not (previous =ₜ result.query_state)) _ _
          (broken (inl (own_token _)) s)
          (finish-Yields ctx session query position result h some_limit s))

  from-Yields :
      (ctx : Context) (query : ListMessagesQuery) (position : ℤ) (previous : Text) (h : History)
      → pos 1 ≤ℤ query.limit
      → Since Never start h
      → Yields (Within query) (page_from w adapter ctx query position previous h)
  unfolding page_from
  from-Yields ctx query position previous h some_limit s =
      ends-if (ltb_ℤ maximum_page_position (position +ℤ query.limit)) _ _
        (broken (inl (own_token _)) s)
        (continue-Ends _ _ (open_session-Serves w adapter start _ query.scope h s) λ session k _ s1.
          continue-Ends _ _ (call_mailbox-Serves w adapter start _ _ session _ _ k tt s1)
            λ result k2 _ s2. read-Yields _ session query position previous result k2 some_limit s2)

  cursor_start-Own : (r : Result ReadToken) → Fails Own (cursor_start r)
  unfolding cursor_start
  cursor_start-Own (fail e) = failed (own_token _)
  cursor_start-Own (ok cursor) = Fails-if Own _ _ _ (failed (own_token _)) passed

  restart-Serves :
      (r : Result ReadToken × History)
      → Serves w adapter start r
      → Serves w adapter start (cursor_start r.0, r.1)
  restart-Serves (ok token, h) (ended p s) =
      lift-Fits w adapter Never start _ h (cursor_start-Own (ok token)) s
  restart-Serves (fail e, h) (broken p s) =
      lift-Fits w adapter Never start _ h (cursor_start-Own (fail e)) s

  start-Serves :
      (query : ListMessagesQuery) (h : History)
      → Since Never start h
      → Serves w adapter start (page_start w adapter query h)
  unfolding page_start
  start-Serves query h s =
      ends-if (is_empty query.cursor) _ _ (ended tt s)
        (restart-Serves _ (open_token-Serves w adapter start query.cursor query.scope _ h s))

  checked-Yields :
      (limit : ℤ) (r : Result (Unit {0})) (h : History)
      → check_limit limit ≡ r
      → Fails Own r
      → Since Never start h
      → Yields (λ checked. (pos 1 ≤ℤ limit) × (limit ≤ℤ maximum_page_size)) (lift r h)
  unfolding check_limit
  checked-Yields limit (ok tt) h e f s = ended (ground arith, ground arith) s
  checked-Yields limit (fail d) h e (failed f) s = broken (inl f) s

  check_limit-Own : (limit : ℤ) → Fails Own (check_limit limit)
  unfolding check_limit
  check_limit-Own limit = Fails-if Own _ _ _ (failed own_configuration) passed

  pub list-Yields :
      (ctx : Context) (query : ListMessagesQuery)
      → Yields
          (λ page. Within query page × (query.limit ≤ℤ maximum_page_size))
          (list_messages w adapter ctx query start)
  unfolding list_messages
  list-Yields ctx query =
      continue-Ends _ _
        (lift-Fits w adapter Never start _ start (validate_read_scope-Own w.lower query.scope) here)
        λ address k _ s1.
          continue-Ends _ _
            (checked-Yields query.limit (check_limit query.limit) k refl
              (check_limit-Own query.limit) s1)
            λ checked k2 limits s2. continue-Ends _ _ (start-Serves query k2 s2) λ from k3 _ s3.
              ends-weaken _ (from-Yields ctx query from.0 from.1 k3 limits.0 s3)
                λ page p. (p, limits.1)

-- A page that `ListMessages` returns holds no more messages than the query's limit, which is at most 50,
-- whatever the server answers.
pub page_bounded :
    (w : World) (adapter : Adapter) (ctx : Context) (query : ListMessagesQuery) (h : History)
    (page : MessagePage)
    → (list_messages w adapter ctx query h).0 ≡ ok page
    → (pos (length page.messages) ≤ℤ query.limit) × (query.limit ≤ℤ pos 50)
page_bounded w adapter ctx query h page = ends_value _ (list-Yields w adapter h ctx query) page
