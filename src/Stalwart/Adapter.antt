-- ===== src/Stalwart/Adapter.antt =====
-- The methods of `Adapter`: `EnsureMailbox`, `InspectMailbox`, `Check` and the writes of an account.
use mail_suite.Base.{
  Text, codes, ◌&&◌, ◌||◌, not, Bool, true, false, Option, none, some, List, ◌∷◌, ◌==◌, ◌=ₜ◌,
  is_empty, if◌then◌else◌,
}
use mail_suite.Base.Int.{ltb_ℤ, ◌=ℤ◌}
use mail_suite.Errors.{permanent, Error, Result, ok, fail}
use mail_suite.Mailcore.{
  EnsureMailboxCommand, InspectMailboxQuery, ObservedMailbox, MailboxStatus, classify_error,
}
use mail_suite.Operation.World.{Context, with_deadline}
use mail_suite.Stalwart.{
  error_code_domain_missing, error_code_resource_conflict, error_code_protocol_invalid, failure,
  protocol_error, classify_set_error, validate_ensure_command, validate_inspect_query,
  absent_observation, DomainObject, AccountObject, SetResult,
}
use mail_suite.Stalwart.Metadata.{
  MailboxMetadata, format_metadata, parse_metadata, mailbox_password,
}
use mail_suite.Stalwart.World.{
  any_filter, set_create, set_update, clock_read, World, Adapter, Run, ◌>>=◌, lift,
}
use mail_suite.Stalwart.Call.{call, fetch_session, query_ids, find_domain, find_account}

-- The end of `updateAccount`, for an account that was not updated.
unfoldable pub refused_update : Option Text → Result (Unit {0})
refused_update (some error_type) = fail (classify_set_error error_type)
refused_update none = fail protocol_error

-- `updateAccount` on the answer.
unfoldable pub read_update : Text → SetResult → Result (Unit {0})
read_update account_id result =
    if result.updated account_id then ok tt else refused_update (result.not_updated account_id)

module _ (w : World) (adapter : Adapter) where
  unfoldable pub secret : EnsureMailboxCommand → Text
  secret command =
      mailbox_password w.derivation adapter.mailbox_key command.mailbox_id command.desired_revision

  unfoldable pub update_account : Context → Text → Text → EnsureMailboxCommand → Run (Unit {0})
  update_account ctx api_path account_id command =
      call w adapter w.json.set_result ctx api_path (codes "x:Account/set")
        (set_update account_id (format_metadata w.uuids command) (secret command)) true
      >>= λ result. lift (read_update account_id result)

  -- `ensureExistingAccount` on the metadata that the account carries.
  unfoldable pub advance_account :
      Context → Text → Text → EnsureMailboxCommand → Result MailboxMetadata → Run (Unit {0})
  advance_account ctx api_path account_id command (fail e) h =
      (fail (failure permanent error_code_resource_conflict), h)
  advance_account ctx api_path account_id command (ok metadata) h =
      if not (metadata.mailbox_id == command.mailbox_id)
        || not (metadata.domain_id == command.domain_id)
      then (fail (failure permanent error_code_resource_conflict), h)
      else if ltb_ℤ command.desired_revision metadata.revision
      then (ok tt, h)
      else if metadata.revision =ℤ command.desired_revision
          && not (metadata.configuration_hash == command.configuration_hash)
      then (fail (failure permanent error_code_resource_conflict), h)
      else if metadata.revision =ℤ command.desired_revision
      then (ok tt, h)
      else update_account ctx api_path account_id command h

  unfoldable pub ensure_existing_account :
      Context → Text → AccountObject → EnsureMailboxCommand → Run (Unit {0})
  ensure_existing_account ctx api_path account command =
      advance_account ctx api_path account.id command (parse_metadata w.uuids account.description)

  -- The end of `createAccount`, when the account is looked up after a refusal.
  unfoldable pub after_refusal :
      Context → Text → EnsureMailboxCommand → Text → Option AccountObject → Run (Unit {0})
  after_refusal ctx api_path command error_type (some account) =
      ensure_existing_account ctx api_path account command
  after_refusal ctx api_path command error_type none = lift (fail (classify_set_error error_type))

  abbrev pub has_id : Option Text → Bool
  has_id none = false
  has_id (some id) = not (is_empty id)

  -- `createAccount` when nothing was created: the account may be there already.
  unfoldable pub refused_create :
      Context → Text → Text → Text → EnsureMailboxCommand → Option Text → Run (Unit {0})
  refused_create ctx api_path local_part domain_id command none = lift (fail protocol_error)
  refused_create ctx api_path local_part domain_id command (some error_type) =
      find_account w adapter ctx api_path local_part domain_id >>= λ found.
      after_refusal ctx api_path command error_type found

  -- `createAccount` on the answer.
  unfoldable pub after_create :
      Context → Text → Text → Text → EnsureMailboxCommand → SetResult → Run (Unit {0})
  after_create ctx api_path local_part domain_id command result h =
      if has_id (result.created (codes "mail-suite"))
      then (ok tt, h)
      else refused_create ctx api_path local_part domain_id command
          (result.not_created (codes "mail-suite")) h

  unfoldable pub create_account :
      Context → Text → Text → Text → EnsureMailboxCommand → Run (Unit {0})
  create_account ctx api_path local_part domain_id command =
      call w adapter w.json.set_result ctx api_path (codes "x:Account/set")
        (set_create local_part domain_id (format_metadata w.uuids command) (secret command)) true
      >>= λ result. after_create ctx api_path local_part domain_id command result

  -- `EnsureMailbox` once the account was looked for.
  unfoldable pub ensure_account :
      Context → Text → Text → Text → EnsureMailboxCommand → Option AccountObject → Run (Unit {0})
  ensure_account ctx api_path local_part domain_id command (some account) =
      ensure_existing_account ctx api_path account command
  ensure_account ctx api_path local_part domain_id command none =
      create_account ctx api_path local_part domain_id command

  -- `EnsureMailbox` once the domain was looked for.
  unfoldable pub ensure_in_domain :
      Context → Text → Text → EnsureMailboxCommand → Option DomainObject → Run (Unit {0})
  ensure_in_domain ctx api_path local_part command none =
      lift (fail (failure permanent error_code_domain_missing))
  ensure_in_domain ctx api_path local_part command (some domain) =
      find_account w adapter ctx api_path local_part domain.id >>= λ found.
      ensure_account ctx api_path local_part domain.id command found

  unfoldable pub ensure_mailbox : Context → EnsureMailboxCommand → Run (Unit {0})
  ensure_mailbox ctx command = lift (validate_ensure_command w.lower command) >>= λ address.
      let request_ctx : Context = with_deadline ctx command.deadline in
      fetch_session w adapter request_ctx >>= λ api_path.
      find_domain w adapter request_ctx api_path address.1 >>= λ domain.
      ensure_in_domain request_ctx api_path address.0 command domain

  -- `adapter.now()`
  unfoldable pub absent_now : InspectMailboxQuery → Run ObservedMailbox
  absent_now query h = (ok (absent_observation query.mailbox_id (w.now h)), clock_read ∷ h)

  -- `InspectMailbox` on the metadata that the account carries.
  unfoldable pub observe_metadata :
      InspectMailboxQuery → Result MailboxMetadata → Run ObservedMailbox
  observe_metadata query (fail e) h = (fail (failure permanent error_code_resource_conflict), h)
  observe_metadata query (ok metadata) h =
      if not (metadata.mailbox_id == query.mailbox_id)
        || not (metadata.domain_id == query.domain_id)
      then (fail (failure permanent error_code_resource_conflict), h)
      else (
        ok (record {
          mailbox_id = query.mailbox_id;
          status = MailboxStatus.active;
          revision = metadata.revision;
          configuration_hash = metadata.configuration_hash;
          inspected_at = w.now h;
        }),
        clock_read ∷ h,
      )

  -- `InspectMailbox` once the account was looked for.
  unfoldable pub observe_account : InspectMailboxQuery → Option AccountObject → Run ObservedMailbox
  observe_account query none = absent_now query
  observe_account query (some account) =
      observe_metadata query (parse_metadata w.uuids account.description)

  -- `InspectMailbox` once the domain was looked for.
  unfoldable pub observe_domain :
      Context → Text → Text → InspectMailboxQuery → Option DomainObject → Run ObservedMailbox
  observe_domain ctx api_path local_part query none = absent_now query
  observe_domain ctx api_path local_part query (some domain) =
      find_account w adapter ctx api_path local_part domain.id >>= λ found.
      observe_account query found

  unfoldable pub inspect_mailbox : Context → InspectMailboxQuery → Run ObservedMailbox
  inspect_mailbox ctx query = lift (validate_inspect_query w.lower query) >>= λ address.
      let request_ctx : Context = with_deadline ctx query.deadline in
      fetch_session w adapter request_ctx >>= λ api_path.
      find_domain w adapter request_ctx api_path address.1 >>= λ domain.
      observe_domain request_ctx api_path address.0 query domain

  -- `Check` makes any error with the code of an invalid protocol a permanent one.
  unfoldable pub check_error : Error → Error
  check_error e =
      let (class, code) = classify_error (some e) in
      if code =ₜ error_code_protocol_invalid then protocol_error else e

  unfoldable pub check_ids : Result (List Text) → Result (Unit {0})
  check_ids (ok ids) = ok tt
  check_ids (fail e) = fail (check_error e)

  unfoldable pub check : Context → Run (Unit {0})
  check ctx = fetch_session w adapter ctx >>= λ api_path h.
      let (r, h') = query_ids w adapter ctx api_path (codes "x:Domain") any_filter h in
      (check_ids r, h')
