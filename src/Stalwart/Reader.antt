-- ===== src/Stalwart/Reader.antt =====
-- src/backend/internal/mailcore/stalwart/read_adapter.go: the reading of a mailbox's messages, under
-- the mailbox's own identity.
pub mod Pages
pub mod Message
pub mod Bounds
pub mod Served
pub mod Paged
pub mod Opened
mod Tests
use mail_suite.Base.{
  ℕ, Text, codes, nil_uuid, Bool, true, false, ◌&&◌, ◌||◌, not, Option, none, some, List, [], ◌∷◌,
  ◌++◌, length, ◌+◌, ltb, ◌==◌, ◌=ₜ◌, is_empty, if◌then◌else◌,
}
use mail_suite.Base.Int.{ℤ, pos, leb_ℤ, ltb_ℤ, ◌=ℤ◌}
use mail_suite.Errors.{permanent, Error, Result, ok, fail}
use mail_suite.Operation.World.{Context}
use mail_suite.Stalwart.{
  error_code_configuration, error_code_mailbox_not_found, error_code_resource_conflict, failure,
  protocol_error, split_address, DomainObject, AccountObject,
}
use mail_suite.Stalwart.Metadata.{MailboxMetadata, parse_metadata, mailbox_password}
use mail_suite.Stalwart.Tokens.{
  ReadScope, ReadToken, reference_lifetime, new_read_token, seal_read_token, open_read_token,
}
use mail_suite.Stalwart.Mail.{MessageSummary, EmailObject, EmailList}
use mail_suite.Stalwart.World.{
  Bytes, get, Arguments, email_get, MailboxSessionResponse, clock_read, nonce_drawn, History, World,
  Adapter, Run, ◌>>=◌, lift,
}
use mail_suite.Stalwart.Call.{
  request_json_as, call_as, own_path, fetch_session, find_domain, find_account,
}

abbrev pub core_capability : Text
core_capability = codes "urn:ietf:params:jmap:core"

abbrev pub mail_capability : Text
mail_capability = codes "urn:ietf:params:jmap:mail"

pub record MailboxSession : Type 0 where
  pub api_path : Text
  pub account_id : Text
  pub username : Text
  pub password : Text

-- The address of a valid scope is used later; its parts are not returned.
unfoldable pub validate_read_scope : (ℕ → ℕ) → ReadScope → Result (Text × Text)
validate_read_scope lower scope =
    if scope.mailbox_id == nil_uuid
      || scope.domain_id == nil_uuid
      || leb_ℤ scope.revision (pos 0)
      || scope.deadline =ℤ pos 0
    then fail (failure permanent error_code_configuration)
    else split_address lower scope.address

-- `localPart, domainName, _ := splitAddress(…)`
abbrev pub parts_of : Result (Text × Text) → Text × Text
parts_of (ok address) = address
parts_of (fail e) = ([], [])

abbrev pub summary_properties : List Text
summary_properties =
    codes "id"
    ∷ codes "receivedAt"
    ∷ codes "from"
    ∷ codes "subject"
    ∷ codes "preview"
    ∷ codes "size"
    ∷ codes "hasAttachment"
    ∷ []

abbrev pub detail_properties : List Text
detail_properties =
    summary_properties
    ++ (codes "to"
        ∷ codes "cc"
        ∷ codes "textBody"
        ∷ codes "htmlBody"
        ∷ codes "attachments"
        ∷ codes "bodyValues"
        ∷ [])

-- The refusal of `getEmails`: an id that is not found is one alone, and the one asked for.
unfoldable pub strays : List Text → List Text → Bool
strays ids [] = false
strays (id ∷ []) (missing ∷ others) = not (missing =ₜ id)
strays ids (missing ∷ others) = true

unfoldable pub listed : List Text → EmailList → Result (List EmailObject)
listed ids result =
    if not (length result.list + length result.not_found == length ids)
    then fail protocol_error
    else if strays ids result.not_found
    then fail protocol_error
    else ok result.list

module _ (w : World) (adapter : Adapter) where
  -- The metadata is that of the scope, to the revision and the configuration.
  unfoldable pub is_mapped : ReadScope → Result MailboxMetadata → Bool
  is_mapped scope (fail e) = false
  is_mapped scope (ok metadata) =
      metadata.mailbox_id == scope.mailbox_id
      && metadata.domain_id == scope.domain_id
      && metadata.revision =ℤ scope.revision
      && metadata.configuration_hash == scope.configuration_hash

  unfoldable pub scope_password : ReadScope → Text
  scope_password scope =
      mailbox_password w.derivation adapter.mailbox_key scope.mailbox_id scope.revision

  -- The end of `openMailboxSession`, on the path of the API.
  unfoldable pub session_at : ReadScope → Text → Result Text → Result MailboxSession
  session_at scope account_id (fail e) = fail e
  session_at scope account_id (ok api_path) = ok (record {
    api_path = api_path;
    account_id = account_id;
    username = scope.address;
    password = scope_password scope;
  })

  unfoldable pub read_mailbox_session : ReadScope → MailboxSessionResponse → Result MailboxSession
  read_mailbox_session scope r =
      if not r.has_core
      then fail protocol_error
      else if not r.has_mail || is_empty r.mail_account
      then fail protocol_error
      else session_at scope r.mail_account (own_path w adapter (w.parse_url r.api_url))

  -- `openMailboxSession` once the account was looked for.
  unfoldable pub session_of : Context → ReadScope → Option AccountObject → Run MailboxSession
  session_of ctx scope none h = (fail (failure permanent error_code_mailbox_not_found), h)
  session_of ctx scope (some account) h =
      if not (is_mapped scope (parse_metadata w.uuids account.description))
      then (fail (failure permanent error_code_resource_conflict), h)
      else (request_json_as w adapter w.json.mailbox_session ctx false (record {
        http_method = get;
        path = codes "/jmap/session";
        username = scope.address;
        password = scope_password scope;
        body = none;
      })
            >>= λ r. lift (read_mailbox_session scope r))
          h

  unfoldable pub session_in :
      Context → Text → Text → ReadScope → Option DomainObject → Run MailboxSession
  session_in ctx api_path local_part scope none =
      lift (fail (failure permanent error_code_mailbox_not_found))
  session_in ctx api_path local_part scope (some domain) =
      find_account w adapter ctx api_path local_part domain.id >>= λ found.
      session_of ctx scope found

  unfoldable pub open_mailbox_session : Context → ReadScope → Run MailboxSession
  open_mailbox_session ctx scope =
      let address : Text × Text = parts_of (split_address w.lower scope.address) in
      fetch_session w adapter ctx >>= λ api_path.
      find_domain w adapter ctx api_path address.1 >>= λ domain.
      session_in ctx api_path address.0 scope domain

  unfoldable pub call_mailbox :
      {A : Type 0} → (Bytes → Option A) → Context → MailboxSession → Text → Arguments → Run A
  call_mailbox decode ctx session method_name arguments =
      call_as w adapter decode ctx session.api_path method_name arguments false session.username
        session.password (core_capability ∷ mail_capability ∷ [])

  unfoldable pub get_emails :
      Context → MailboxSession → List Text → List Text → Bool → Run (List EmailObject)
  get_emails ctx session ids properties detail =
      call_mailbox w.json.email_list ctx session (codes "Email/get")
        (email_get session.account_id ids properties detail)
      >>= λ result. lift (listed ids result)

  -- `newReadToken`, which reads the clock.
  unfoldable pub fresh_token : ReadScope → Text → ℤ → Run ReadToken
  fresh_token scope purpose lifetime h =
      (ok (new_read_token (w.now h) scope purpose lifetime), clock_read ∷ h)

  unfoldable pub seal_token : ReadToken → Run Text
  seal_token token h = (
    seal_read_token w.sealing w.derivation adapter.mailbox_key (w.random h) token,
    nonce_drawn ∷ h,
  )

  -- The clock counts as read also where the token is refused before its expiry is looked at; then the
  -- method returns.
  unfoldable pub open_token : Text → ReadScope → Text → Run ReadToken
  open_token raw scope purpose h = (
    open_read_token w.sealing w.derivation adapter.mailbox_key (w.now h) raw scope purpose,
    clock_read ∷ h,
  )

  unfoldable pub summary_of : EmailObject → ℤ → Text → MessageSummary
  summary_of email received_at id = record {
    id = id;
    received_at = received_at;
    from = email.from;
    subject = email.subject;
    preview = email.preview;
    size = email.size;
    has_attachment = email.has_attachment;
  }

  unfoldable pub summary_at : ReadScope → EmailObject → Option ℤ → Run MessageSummary
  summary_at scope email none h = (fail protocol_error, h)
  summary_at scope email (some received_at) h =
      if is_empty email.id || ltb_ℤ email.size (pos 0)
      then (fail protocol_error, h)
      else (fresh_token scope (codes "message") reference_lifetime >>= λ token.
            seal_token (record token { message_id = email.id }) >>= λ id.
            lift (ok (summary_of email received_at id)))
          h

  unfoldable pub message_summary : ReadScope → EmailObject → Run MessageSummary
  message_summary scope email = summary_at scope email (w.parse_time email.received_at)
