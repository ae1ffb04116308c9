-- ===== src/Stalwart/Observed.antt =====
-- `InspectMailbox`: what it may report, and what it sends.
use mail_suite.Base.{
  ℕ, Text, ◌≡◌, refl, inl, Bool, true, false, ◌||◌, not, Option, none, some, ◌∷◌, ◌==◌, nil_uuid,
  arith, split, parse_int, decode_hex32, Uuid, Digest, List, [],
}
use mail_suite.Base.Int.{ℤ, pos, ◌=ℤ◌, ◌<ℤ◌}
use mail_suite.Errors.{Result, ok, fail}
use mail_suite.Mailcore.{InspectMailboxQuery, ObservedMailbox}
use mail_suite.Operation.World.{Context}
use mail_suite.Ledger.{valid_observation, valid_observed_mailbox_status}
use mail_suite.Stalwart.{DomainObject, AccountObject, validate_inspect_query, absent_observation}
use mail_suite.Stalwart.Metadata.{
  UuidText, MailboxMetadata, colon, metadata_of, parse_parts, parse_metadata,
}
use mail_suite.Stalwart.World.{History, World, Adapter, lift}
use mail_suite.Stalwart.Adapter.{
  absent_now, observe_metadata, observe_account, observe_domain, inspect_mailbox,
}
use mail_suite.Stalwart.Contract.{
  IsStable, Since, here, next, Ends, ended, broken, continue-Ends, own_configuration, own_conflict,
  ends-if, ends_history, ends_value,
}
use mail_suite.Stalwart.Reads.{Fails, failed, Own, Fails-if}
use mail_suite.Stalwart.Ensured.{split_address-Own}
use mail_suite.Stalwart.Sends.{fetch_session-Fits, find_domain-Fits, find_account-Fits}

-- The clock never reads Go's zero time.
abbrev pub HasClock : World → Type 0
HasClock w = (h : History) → (w.now h =ℤ pos 0) ≡ false

metadata_of-positive :
    (mailbox domain operation : Option Uuid) (revision : Option ℤ) (hash : Option Digest)
    (m : MailboxMetadata)
    → metadata_of mailbox domain operation revision hash ≡ ok m
    → pos 0 <ℤ m.revision
unfolding metadata_of
metadata_of-positive mailbox domain operation revision hash m h = ground arith

parse_parts-positive :
    (uuids : UuidText) (parts : List Text) (m : MailboxMetadata)
    → parse_parts uuids parts ≡ ok m
    → pos 0 <ℤ m.revision
unfolding parse_parts
parse_parts-positive uuids (a ∷ b ∷ c ∷ d ∷ e ∷ f ∷ g ∷ []) m h = ground (
  arith,
  metadata_of-positive (uuids.parse c) (uuids.parse d) (uuids.parse e) (parse_int f)
      (decode_hex32 g) m,
)
parse_parts-positive uuids [] m h = cc
parse_parts-positive uuids (a ∷ []) m h = cc
parse_parts-positive uuids (a ∷ b ∷ []) m h = cc
parse_parts-positive uuids (a ∷ b ∷ c ∷ []) m h = cc
parse_parts-positive uuids (a ∷ b ∷ c ∷ d ∷ []) m h = cc
parse_parts-positive uuids (a ∷ b ∷ c ∷ d ∷ e ∷ []) m h = cc
parse_parts-positive uuids (a ∷ b ∷ c ∷ d ∷ e ∷ f ∷ []) m h = cc
parse_parts-positive uuids (a ∷ b ∷ c ∷ d ∷ e ∷ f ∷ g ∷ x ∷ rest) m h = cc

pub parse_metadata-positive :
    (uuids : UuidText) (raw : Text) (m : MailboxMetadata)
    → parse_metadata uuids raw ≡ ok m
    → pos 0 <ℤ m.revision
unfolding parse_metadata
parse_metadata-positive uuids raw m h = parse_parts-positive uuids (split colon raw) m h

-- A reading that the ledger accepts, of the mailbox that was asked for.
abbrev Reads : InspectMailboxQuery → ObservedMailbox → Type 0
Reads query read = (valid_observation (some read) ≡ true) × (read.mailbox_id ≡ query.mailbox_id)

validate_inspect_query-Own :
    (lower : ℕ → ℕ) (query : InspectMailboxQuery) → Fails Own (validate_inspect_query lower query)
unfolding validate_inspect_query
validate_inspect_query-Own lower query =
    Fails-if Own _ _ _ (failed own_configuration) (split_address-Own lower query.address)

validate_inspect_query-named :
    (lower : ℕ → ℕ) (query : InspectMailboxQuery) (address : Text × Text)
    → validate_inspect_query lower query ≡ ok address
    → (query.mailbox_id == nil_uuid) ≡ false
unfolding validate_inspect_query
validate_inspect_query-named lower query address h = ground arith

module _ (w : World) (adapter : Adapter) (clock : HasClock w) (query : InspectMailboxQuery)
    (start : History) where
  -- What the run returns, how it fails, and that it sends no write.
  abbrev Observes : Result ObservedMailbox × History → Type 0
  Observes r = Ends (Reads query) (IsStable w) (Since (λ d. ⊥) start) r

  module _ (named : (query.mailbox_id == nil_uuid) ≡ false) where
    absent-Observes :
        (h : History) → Since (λ d. ⊥) start h → Observes (absent_now w adapter query h)
    unfolding absent_now absent_observation valid_observation valid_observed_mailbox_status
    absent-Observes h s = ended (ground (arith, named, clock h), refl) (next tt s)

    metadata-Observes :
        (r : Result MailboxMetadata) (h : History)
        → ((m : MailboxMetadata) → r ≡ ok m → pos 0 <ℤ m.revision)
        → Since (λ d. ⊥) start h
        → Observes (observe_metadata w adapter query r h)
    unfolding observe_metadata valid_observation valid_observed_mailbox_status
    metadata-Observes (fail e) h positive s = broken (inl own_conflict) s
    metadata-Observes (ok m) h positive s =
        let more = positive m refl in
        let foreign : Bool =
          not (m.mailbox_id == query.mailbox_id) || not (m.domain_id == query.domain_id) in
        ends-if foreign _ _ (broken (inl own_conflict) s)
          (ended (ground (arith, named, clock h), refl) (next tt s))

    account-Observes :
        (found : Option AccountObject) (h : History)
        → Since (λ d. ⊥) start h
        → Observes (observe_account w adapter query found h)
    unfolding observe_account
    account-Observes none h s = absent-Observes h s
    account-Observes (some account) h s =
        metadata-Observes _ h (parse_metadata-positive w.uuids account.description) s

    domain-Observes :
        (ctx : Context) (api_path local_part : Text) (found : Option DomainObject) (h : History)
        → Since (λ d. ⊥) start h
        → Observes (observe_domain w adapter ctx api_path local_part query found h)
    unfolding observe_domain
    domain-Observes ctx api_path local_part none h s = absent-Observes h s
    domain-Observes ctx api_path local_part (some domain) h s =
        continue-Ends _ _
          (find_account-Fits w adapter (λ d. ⊥) start ctx api_path local_part domain.id h s)
          λ found k _ s'. account-Observes found k s'

  validated :
      (r : Result (Text × Text)) (h : History)
      → Fails Own r
      → ((address : Text × Text) → r ≡ ok address → (query.mailbox_id == nil_uuid) ≡ false)
      → Since (λ d. ⊥) start h
      → Ends
          (λ address. (query.mailbox_id == nil_uuid) ≡ false)
          (IsStable w)
          (Since (λ d. ⊥) start)
          (lift r h)
  validated (ok a) h p named s = ended (named a refl) s
  validated (fail e) h (failed p) named s = broken (inl p) s

  inspect-Observes : (ctx : Context) → Observes (inspect_mailbox w adapter ctx query start)
  unfolding inspect_mailbox
  inspect-Observes ctx =
      continue-Ends _ _
        (validated _ start (validate_inspect_query-Own w.lower query)
          (validate_inspect_query-named w.lower query) here)
        λ address k named s1.
          continue-Ends _ _ (fetch_session-Fits w adapter (λ d. ⊥) start _ k s1) λ api_path k2 _ s2.
            continue-Ends _ _ (find_domain-Fits w adapter (λ d. ⊥) start _ api_path _ k2 s2)
              λ domain k3 _ s3. domain-Observes named _ api_path _ domain k3 s3

-- Every reading that `InspectMailbox` returns names the mailbox that was asked for and passes the
-- ledger's `validObservation`, whatever the server answers, as long as the clock never reads the zero
-- time.
pub inspect_valid :
    (w : World) (adapter : Adapter) (ctx : Context) (query : InspectMailboxQuery) (h : History)
    (read : ObservedMailbox)
    → HasClock w
    → (inspect_mailbox w adapter ctx query h).0 ≡ ok read
    → (valid_observation (some read) ≡ true) × (read.mailbox_id ≡ query.mailbox_id)
inspect_valid w adapter ctx query h read clock =
    ends_value _ (inspect-Observes w adapter clock query h ctx) read

-- `InspectMailbox` sends no write, whatever the server answers, as long as the clock never reads the
-- zero time.
pub inspect_reads_only :
    (w : World) (adapter : Adapter) (ctx : Context) (query : InspectMailboxQuery) (h : History)
    → HasClock w
    → Since (λ d. ⊥) h (inspect_mailbox w adapter ctx query h).1
inspect_reads_only w adapter ctx query h clock =
    ends_history _ (inspect-Observes w adapter clock query h ctx)
