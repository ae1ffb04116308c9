-- ===== src/Stalwart/Ensured.antt =====
-- `EnsureMailbox`: what it writes, when it advances an account, and how it fails.
use mail_suite.Base.{
  ℕ, Text, codes, ◌≡◌, refl, ◌⊎◌, inl, inr, Bool, true, ◌&&◌, ◌||◌, not, Option, none, some, ◌==◌,
  arith, Bool-cases,
}
use mail_suite.Base.Int.{ltb_ℤ, ◌=ℤ◌, ◌<ℤ◌}
use mail_suite.Errors.{Error, Result, ok, fail}
use mail_suite.Mailcore.{EnsureMailboxCommand}
use mail_suite.Operation.World.{Context}
use mail_suite.Stalwart.{
  DomainObject, AccountObject, SetResult, split_address, validate_ensure_command,
}
use mail_suite.Stalwart.Metadata.{MailboxMetadata, format_metadata, parse_metadata}
use mail_suite.Stalwart.World.{History, World, Adapter}
use mail_suite.Stalwart.Adapter.{
  has_id, refused_update, refused_create, read_update, update_account, advance_account,
  ensure_existing_account, after_refusal, after_create, create_account, ensure_account,
  ensure_in_domain, ensure_mailbox,
}
use mail_suite.Stalwart.Contract.{
  IsStable, Since, here, ended, broken, continue-Ends, own_configuration, own_conflict,
  own_domain_missing, ends-if, ends_history, ends_error, own_protocol, classify_set_error-own,
}
use mail_suite.Stalwart.Reads.{Fails, passed, failed, Own, Fails-if}
use mail_suite.Stalwart.Sends.{
  Fits, lift-Fits, call-Fits, fetch_session-Fits, find_domain-Fits, find_account-Fits,
}

pub split_address-Own : (lower : ℕ → ℕ) (address : Text) → Fails Own (split_address lower address)
unfolding split_address
split_address-Own lower address =
    Fails-if Own _ _ _ (failed own_configuration)
      (Fails-if Own _ _ _ (failed own_configuration) passed)

validate_ensure_command-Own :
    (lower : ℕ → ℕ) (command : EnsureMailboxCommand)
    → Fails Own (validate_ensure_command lower command)
unfolding validate_ensure_command
validate_ensure_command-Own lower command =
    Fails-if Own _ _ _ (failed own_configuration) (split_address-Own lower command.address)

refused_update-Own : (t : Option Text) → Fails Own (refused_update t)
unfolding refused_update
refused_update-Own none = failed own_protocol
refused_update-Own (some t) = failed (classify_set_error-own t)

read_update-Own : (id : Text) (result : SetResult) → Fails Own (read_update id result)
unfolding read_update
read_update-Own id result = Fails-if Own _ _ _ passed (refused_update-Own _)

module _ (w : World) (adapter : Adapter) (command : EnsureMailboxCommand) (start : History) where
  -- The description that belongs to the command.
  abbrev Named : Text → Type 0
  Named d = d ≡ format_metadata w.uuids command

  update-Fits :
      (ctx : Context) (api_path id : Text) (h : History)
      → Since Named start h
      → Fits w adapter Named start (update_account w adapter ctx api_path id command h)
  unfolding update_account
  update-Fits ctx api_path id h s =
      continue-Ends _ _ (call-Fits w adapter Named start _ ctx api_path _ _ true h refl s)
        λ result k _ s'. lift-Fits w adapter Named start _ k (read_update-Own id result) s'

  advance-Fits :
      (ctx : Context) (api_path id : Text) (m : Result MailboxMetadata) (h : History)
      → Since Named start h
      → Fits w adapter Named start (advance_account w adapter ctx api_path id command m h)
  unfolding advance_account
  advance-Fits ctx api_path id (fail e) h s = broken (inl own_conflict) s
  advance-Fits ctx api_path id (ok m) h s =
      let foreign : Bool =
        not (m.mailbox_id == command.mailbox_id) || not (m.domain_id == command.domain_id) in
      let current : Bool = m.revision =ℤ command.desired_revision in
      let other : Bool = not (m.configuration_hash == command.configuration_hash) in
      ends-if foreign _ _ (broken (inl own_conflict) s) (
        ends-if (ltb_ℤ command.desired_revision m.revision) _ _ (ended tt s) (
          ends-if (current && other) _ _ (broken (inl own_conflict) s)
            (ends-if current _ _ (ended tt s) (update-Fits ctx api_path id h s))))

  existing-Fits :
      (ctx : Context) (api_path : Text) (account : AccountObject) (h : History)
      → Since Named start h
      → Fits w adapter Named start
          (ensure_existing_account w adapter ctx api_path account command h)
  unfolding ensure_existing_account
  existing-Fits ctx api_path account h s = advance-Fits ctx api_path account.id _ h s

  after_refusal-Fits :
      (ctx : Context) (api_path t : Text) (found : Option AccountObject) (h : History)
      → Since Named start h
      → Fits w adapter Named start (after_refusal w adapter ctx api_path command t found h)
  unfolding after_refusal
  after_refusal-Fits ctx api_path t none h s = broken (inl (classify_set_error-own t)) s
  after_refusal-Fits ctx api_path t (some account) h s = existing-Fits ctx api_path account h s

  refused_create-Fits :
      (ctx : Context) (api_path local_part domain_id : Text) (t : Option Text) (h : History)
      → Since Named start h
      → Fits w adapter Named start
          (refused_create w adapter ctx api_path local_part domain_id command t h)
  unfolding refused_create
  refused_create-Fits ctx api_path local_part domain_id none h s = broken (inl own_protocol) s
  refused_create-Fits ctx api_path local_part domain_id (some t) h s =
      continue-Ends _ _
        (find_account-Fits w adapter Named start ctx api_path local_part domain_id h s)
        λ found k _ s'. after_refusal-Fits ctx api_path t found k s'

  create-Fits :
      (ctx : Context) (api_path local_part domain_id : Text) (h : History)
      → Since Named start h
      → Fits w adapter Named start
          (create_account w adapter ctx api_path local_part domain_id command h)
  unfolding create_account after_create
  create-Fits ctx api_path local_part domain_id h s =
      continue-Ends _ _ (call-Fits w adapter Named start _ ctx api_path _ _ true h refl s)
        λ result k _ s'.
          ends-if (has_id w adapter (result.created (codes "mail-suite"))) _ _ (ended tt s')
            (refused_create-Fits ctx api_path local_part domain_id _ k s')

  account-Fits :
      (ctx : Context) (api_path local_part domain_id : Text) (found : Option AccountObject)
      (h : History)
      → Since Named start h
      → Fits w adapter Named start
          (ensure_account w adapter ctx api_path local_part domain_id command found h)
  unfolding ensure_account
  account-Fits ctx api_path local_part domain_id none h s =
      create-Fits ctx api_path local_part domain_id h s
  account-Fits ctx api_path local_part domain_id (some account) h s =
      existing-Fits ctx api_path account h s

  domain-Fits :
      (ctx : Context) (api_path local_part : Text) (found : Option DomainObject) (h : History)
      → Since Named start h
      → Fits w adapter Named start
          (ensure_in_domain w adapter ctx api_path local_part command found h)
  unfolding ensure_in_domain
  domain-Fits ctx api_path local_part none h s = broken (inl own_domain_missing) s
  domain-Fits ctx api_path local_part (some domain) h s =
      continue-Ends _ _
        (find_account-Fits w adapter Named start ctx api_path local_part domain.id h s)
        λ found k _ s'. account-Fits ctx api_path local_part domain.id found k s'

  pub ensure-Fits :
      (ctx : Context) (h : History)
      → Since Named start h
      → Fits w adapter Named start (ensure_mailbox w adapter ctx command h)
  unfolding ensure_mailbox
  ensure-Fits ctx h s =
      continue-Ends _ _
        (lift-Fits w adapter Named start _ h (validate_ensure_command-Own w.lower command) s)
        λ address k _ s1.
          continue-Ends _ _ (fetch_session-Fits w adapter Named start _ k s1) λ api_path k2 _ s2.
            continue-Ends _ _ (find_domain-Fits w adapter Named start _ api_path _ k2 s2)
              λ domain k3 _ s3. domain-Fits _ api_path _ domain k3 s3

-- Every write that `EnsureMailbox` sends, in whatever way it ends, carries the metadata of its own
-- command as the description, whatever the server answers.
pub ensure_writes :
    (w : World) (adapter : Adapter) (ctx : Context) (command : EnsureMailboxCommand) (h : History)
    → Since (λ d. d ≡ format_metadata w.uuids command) h (ensure_mailbox w adapter ctx command h).1
ensure_writes w adapter ctx command h = ends_history _ (ensure-Fits w adapter command h ctx h here)

-- An error of `EnsureMailbox` is one of the adapter's own, with one of the three classes and a code of the
-- form that the ledger stores, or it is the error of a context.
pub ensure_errors-IsStable :
    (w : World) (adapter : Adapter) (ctx : Context) (command : EnsureMailboxCommand) (h : History)
    (e : Error)
    → (ensure_mailbox w adapter ctx command h).0 ≡ fail e
    → IsStable w e
ensure_errors-IsStable w adapter ctx command h e =
    ends_error _ (ensure-Fits w adapter command h ctx h here) e

-- The account is the command's mailbox, at an older revision.
abbrev pub IsBehind : EnsureMailboxCommand → MailboxMetadata → Type 0
IsBehind command m =
    (m.mailbox_id ≡ command.mailbox_id)
    × (m.domain_id ≡ command.domain_id)
    × (m.revision <ℤ command.desired_revision)

abbrev behind : EnsureMailboxCommand → MailboxMetadata → Bool
behind command m =
    m.mailbox_id == command.mailbox_id
    && m.domain_id == command.domain_id
    && ltb_ℤ m.revision command.desired_revision

behind-IsBehind :
    (command : EnsureMailboxCommand) (m : MailboxMetadata)
    → behind command m ≡ true
    → IsBehind command m
behind-IsBehind command m h = (ground arith, ground arith, ground arith)

advance_account-IsBehind :
    (w : World) (adapter : Adapter) (ctx : Context) (api_path id : Text)
    (command : EnsureMailboxCommand) (m : MailboxMetadata) (h : History)
    → ((advance_account w adapter ctx api_path id command (ok m) h).1 ≡ h) ⊎ IsBehind command m
unfolding advance_account
advance_account-IsBehind w adapter ctx api_path id command m h =
    elim (Bool-cases (behind command m)) [
      | inl is ↦ inr (behind-IsBehind command m is)
      | inr isnt ↦ inl (ground arith)
    ]

-- Whatever `ensureExistingAccount` returns, it sends nothing at all unless the account's metadata
-- parses, names the command's mailbox and domain, and has a lower revision than the command.
pub never_lowers :
    (w : World) (adapter : Adapter) (ctx : Context) (api_path : Text) (account : AccountObject)
    (command : EnsureMailboxCommand) (h : History)
    → ((ensure_existing_account w adapter ctx api_path account command h).1 ≡ h)
      ⊎ ((m : MailboxMetadata) × (parse_metadata w.uuids account.description ≡ ok m)
          × IsBehind command m)
unfolding ensure_existing_account
never_lowers w adapter ctx api_path account command h =
    of_parsed (parse_metadata w.uuids account.description) refl
  where
    of_parsed :
        (r : Result MailboxMetadata)
        → parse_metadata w.uuids account.description ≡ r
        → ((advance_account w adapter ctx api_path account.id command r h).1 ≡ h)
          ⊎ ((m : MailboxMetadata) × (parse_metadata w.uuids account.description ≡ ok m)
              × IsBehind command m)
    of_parsed (fail e) found = inl (unfold advance_account in refl)
    of_parsed (ok m) found =
        elim (advance_account-IsBehind w adapter ctx api_path account.id command m h) [
          | inl same ↦ inl same
          | inr older ↦ inr (m, found, older)
        ]
