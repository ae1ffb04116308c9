-- ===== src/Stalwart/Reader/Served.antt =====
-- The steps that `ListMessages` and `GetMessage` share: how they fail, and what they send.
use mail_suite.Base.{ℕ, Text, inl, Bool, false, ◌||◌, not, Option, none, some, List, is_empty}
use mail_suite.Base.Int.{ℤ, pos, ltb_ℤ}
use mail_suite.Errors.{Result, ok, fail}
use mail_suite.Operation.World.{Context}
use mail_suite.Stalwart.{DomainObject, AccountObject}
use mail_suite.Stalwart.Metadata.{Derivation, parse_metadata}
use mail_suite.Stalwart.Tokens.{
  Sealing, ReadScope, ReadToken, seal_plaintext, seal_read_token, accept_token, read_plaintext,
  open_bytes, open_read_token,
}
use mail_suite.Stalwart.Mail.{EmailObject, EmailList}
use mail_suite.Stalwart.World.{
  Bytes, Arguments, MailboxSessionResponse, History, World, Adapter, lift,
}
use mail_suite.Stalwart.Contract.{
  Writes, Since, next, ended, broken, continue-Ends, ends-if, own_protocol, own_token,
  own_configuration, own_conflict, own_mailbox_not_found,
}
use mail_suite.Stalwart.Reads.{
  Fails, passed, failed, Own, Fails-if, read_response-Own, own_path-Own,
}
use mail_suite.Stalwart.Sends.{
  Fits, lift-Fits, request-Fits, fetch_session-Fits, find_domain-Fits, find_account-Fits,
}
use mail_suite.Stalwart.Ensured.{split_address-Own}
use mail_suite.Stalwart.Call.{call_as}
use mail_suite.Stalwart.Reader.{
  MailboxSession, validate_read_scope, listed, is_mapped, session_at, read_mailbox_session,
  session_of, session_in, open_mailbox_session, call_mailbox, get_emails, fresh_token, seal_token,
  open_token, summary_at, message_summary,
}

seal_plaintext-Own :
    (sealing : Sealing) (derivation : Derivation) (key : List ℕ) (p n : Option (List ℕ))
    → Fails Own (seal_plaintext sealing derivation key p n)
unfolding seal_plaintext
seal_plaintext-Own sealing derivation key none n = failed own_protocol
seal_plaintext-Own sealing derivation key (some p) none = failed own_protocol
seal_plaintext-Own sealing derivation key (some p) (some n) =
    Fails-if Own _ _ _ (failed own_protocol) passed

module _ (sealing : Sealing) (derivation : Derivation) (key : List ℕ) (now : ℤ) (scope : ReadScope)
    (purpose : Text) where
  accept_token-Own :
      (o : Option ReadToken) → Fails Own (accept_token sealing derivation key now scope purpose o)
  unfolding accept_token
  accept_token-Own none = failed (own_token purpose)
  accept_token-Own (some v) = Fails-if Own _ _ _ (failed (own_token purpose)) passed

  plaintext-Own :
      (o : Option (List ℕ)) → Fails Own (read_plaintext sealing derivation key now scope purpose o)
  unfolding read_plaintext
  plaintext-Own none = failed (own_token purpose)
  plaintext-Own (some p) = accept_token-Own _

  open_bytes-Own :
      (o : Option (List ℕ)) → Fails Own (open_bytes sealing derivation key now scope purpose o)
  unfolding open_bytes
  open_bytes-Own none = failed (own_token purpose)
  open_bytes-Own (some b) = Fails-if Own _ _ _ (failed (own_token purpose)) (plaintext-Own _)

  pub open_read_token-Own :
      (raw : Text) → Fails Own (open_read_token sealing derivation key now raw scope purpose)
  unfolding open_read_token
  open_read_token-Own raw = Fails-if Own _ _ _ (failed (own_token purpose)) (open_bytes-Own _)

pub validate_read_scope-Own :
    (lower : ℕ → ℕ) (scope : ReadScope) → Fails Own (validate_read_scope lower scope)
unfolding validate_read_scope
validate_read_scope-Own lower scope =
    Fails-if Own _ _ _ (failed own_configuration) (split_address-Own lower scope.address)

listed-Own : (ids : List Text) (r : EmailList) → Fails Own (listed ids r)
unfolding listed
listed-Own ids r =
    Fails-if Own _ _ _ (failed own_protocol) (Fails-if Own _ _ _ (failed own_protocol) passed)

module _ (w : World) (adapter : Adapter) (start : History) where
  abbrev Never : Text → Type 0
  Never d = ⊥

  -- A run that sends no write and fails with stable errors.
  abbrev pub Serves : {A : Type 0} → Result A × History → Type 0
  Serves r = Fits w adapter Never start r

  Serves-lift :
      {A : Type 0} (r : Result A) (h : History)
      → Fails Own r
      → Since Never start h
      → Serves (lift r h)
  Serves-lift r h = lift-Fits w adapter Never start r h

  session_at-Own :
      (scope : ReadScope) (id : Text) (r : Result Text)
      → Fails Own r
      → Fails Own (session_at w adapter scope id r)
  unfolding session_at
  session_at-Own scope id (ok p) f = passed
  session_at-Own scope id (fail e) (failed f) = failed f

  mailbox_session-Own :
      (scope : ReadScope) (r : MailboxSessionResponse)
      → Fails Own (read_mailbox_session w adapter scope r)
  unfolding read_mailbox_session
  mailbox_session-Own scope r = Fails-if Own _ _ _ (failed own_protocol) (
      Fails-if Own _ _ _ (failed own_protocol)
        (session_at-Own scope r.mail_account _ (own_path-Own w adapter _)))

  session_of-Serves :
      (ctx : Context) (scope : ReadScope) (found : Option AccountObject) (h : History)
      → Since Never start h
      → Serves (session_of w adapter ctx scope found h)
  unfolding session_of
  session_of-Serves ctx scope none h s = broken (inl own_mailbox_not_found) s
  session_of-Serves ctx scope (some account) h s =
      ends-if (not (is_mapped w adapter scope (parse_metadata w.uuids account.description))) _ _
        (broken (inl own_conflict) s)
        (continue-Ends _ _ (request-Fits w adapter Never start _ ctx false _ h tt s)
          λ r k _ s'. Serves-lift _ k (mailbox_session-Own scope r) s')

  session_in-Serves :
      (ctx : Context) (api_path local_part : Text) (scope : ReadScope) (found : Option DomainObject)
      (h : History)
      → Since Never start h
      → Serves (session_in w adapter ctx api_path local_part scope found h)
  unfolding session_in
  session_in-Serves ctx api_path local_part scope none h s = broken (inl own_mailbox_not_found) s
  session_in-Serves ctx api_path local_part scope (some domain) h s =
      continue-Ends _ _
        (find_account-Fits w adapter Never start ctx api_path local_part domain.id h s)
        λ found k _ s'. session_of-Serves ctx scope found k s'

  pub open_session-Serves :
      (ctx : Context) (scope : ReadScope) (h : History)
      → Since Never start h
      → Serves (open_mailbox_session w adapter ctx scope h)
  unfolding open_mailbox_session
  open_session-Serves ctx scope h s =
      continue-Ends _ _ (fetch_session-Fits w adapter Never start ctx h s) λ api_path k _ s1.
        continue-Ends _ _ (find_domain-Fits w adapter Never start ctx api_path _ k s1)
          λ domain k2 _ s2. session_in-Serves ctx api_path _ scope domain k2 s2

  pub call_mailbox-Serves :
      {A : Type 0} (decode : Bytes → Option A) (ctx : Context) (session : MailboxSession)
      (method_name : Text) (arguments : Arguments) (h : History)
      → Writes Never arguments
      → Since Never start h
      → Serves (call_mailbox w adapter decode ctx session method_name arguments h)
  unfolding call_mailbox call_as
  call_mailbox-Serves decode ctx session method_name arguments h allowed s =
      continue-Ends _ _ (request-Fits w adapter Never start _ ctx false _ h allowed s)
        λ envelope k _ s'.
          Serves-lift _ k (read_response-Own w adapter decode method_name false envelope) s'

  pub get_emails-Serves :
      (ctx : Context) (session : MailboxSession) (ids properties : List Text) (detail : Bool)
      (h : History)
      → Since Never start h
      → Serves (get_emails w adapter ctx session ids properties detail h)
  unfolding get_emails
  get_emails-Serves ctx session ids properties detail h s =
      continue-Ends _ _ (call_mailbox-Serves _ ctx session _ _ h tt s)
        λ r k _ s'. Serves-lift _ k (listed-Own ids r) s'

  pub fresh_token-Serves :
      (scope : ReadScope) (purpose : Text) (lifetime : ℤ) (h : History)
      → Since Never start h
      → Serves (fresh_token w adapter scope purpose lifetime h)
  unfolding fresh_token
  fresh_token-Serves scope purpose lifetime h s = ended tt (next tt s)

  pub seal_token-Serves :
      (token : ReadToken) (h : History)
      → Since Never start h
      → Serves (seal_token w adapter token h)
  unfolding seal_token seal_read_token
  seal_token-Serves token h s = Serves-lift _ _ (seal_plaintext-Own _ _ _ _ _) (next tt s)

  pub open_token-Serves :
      (raw : Text) (scope : ReadScope) (purpose : Text) (h : History)
      → Since Never start h
      → Serves (open_token w adapter raw scope purpose h)
  unfolding open_token
  open_token-Serves raw scope purpose h s =
      Serves-lift _ _ (open_read_token-Own _ _ _ _ scope purpose raw) (next tt s)

  summary_at-Serves :
      (scope : ReadScope) (email : EmailObject) (t : Option ℤ) (h : History)
      → Since Never start h
      → Serves (summary_at w adapter scope email t h)
  unfolding summary_at
  summary_at-Serves scope email none h s = broken (inl own_protocol) s
  summary_at-Serves scope email (some t) h s =
      ends-if (is_empty email.id || ltb_ℤ email.size (pos 0)) _ _ (broken (inl own_protocol) s) (
        continue-Ends _ _ (fresh_token-Serves scope _ _ h s)
          λ token k _ s1. continue-Ends _ _ (seal_token-Serves _ k s1) λ id k2 _ s2. ended tt s2)

  pub message_summary-Serves :
      (scope : ReadScope) (email : EmailObject) (h : History)
      → Since Never start h
      → Serves (message_summary w adapter scope email h)
  unfolding message_summary
  message_summary-Serves scope email h s = summary_at-Serves scope email _ h s
