-- ===== src/Stalwart/Converged.antt =====
-- The adapter behind the worker: `EnsureMailbox`, `InspectMailbox` and `Execute` together.
use mail_suite.Base.{Text, ◌≡◌, sym, ◌∙◌, true, some, ◌∷◌, arith}
use mail_suite.Base.Int.{ℤ, IsInt64}
use mail_suite.Errors.{ok}
use mail_suite.Mailcore.{
  EnsureMailboxCommand, InspectMailboxQuery, ObservedMailbox, MailboxStatus, payload_version,
}
use mail_suite.Operation.{ClaimedMailboxOperation, Resolution}
use mail_suite.Operation.Config.{Config, matches_desired, valid_claim}
use mail_suite.Operation.Backoff.{IsAccepted}
use mail_suite.Operation.Service.{execute}
use mail_suite.Operation.World as operation
use mail_suite.Operation.World.{Context, with_deadline, resolved}
use mail_suite.Ledger.{valid_mailbox_resolution}
use mail_suite.Ledger.Receipt.{receipt_accepted}
use mail_suite.Stalwart.{DomainObject, AccountObject, validate_inspect_query}
use mail_suite.Stalwart.Metadata.{format_metadata}
use mail_suite.Stalwart.Written.{PrintsUuids, IsWritable, parse_metadata-format_metadata}
use mail_suite.Stalwart.World.{clock_read, History, World, Adapter}
use mail_suite.Stalwart.Call.{fetch_session, find_domain, find_account}
use mail_suite.Stalwart.Adapter.{
  ensure_existing_account, advance_account, inspect_mailbox, observe_domain, observe_account,
  observe_metadata,
}
use mail_suite.Stalwart.Observed.{HasClock, inspect_valid}

-- The command and the query that `Execute` makes of a claim.
abbrev pub command_for : ClaimedMailboxOperation → ℤ → EnsureMailboxCommand
command_for op deadline = record {
  operation_id = op.operation_id;
  mailbox_id = op.mailbox_id;
  domain_id = op.domain_id;
  address = op.address;
  desired_revision = op.desired_revision;
  configuration_hash = op.configuration_hash;
  payload_version = payload_version;
  deadline = deadline;
}

abbrev pub query_for : ClaimedMailboxOperation → ℤ → InspectMailboxQuery
query_for op deadline = record {
  mailbox_id = op.mailbox_id;
  domain_id = op.domain_id;
  address = op.address;
  desired_revision = op.desired_revision;
  configuration_hash = op.configuration_hash;
  deadline = deadline;
}

-- What `InspectMailbox` reports of a mailbox that carries the command's metadata.
abbrev pub converged : World → History → ClaimedMailboxOperation → ObservedMailbox
converged w h op = record {
  mailbox_id = op.mailbox_id;
  status = MailboxStatus.active;
  revision = op.desired_revision;
  configuration_hash = op.configuration_hash;
  inspected_at = w.now h;
}

converged-matches :
    (w : World) (h : History) (op : ClaimedMailboxOperation)
    → HasClock w
    → matches_desired op (converged w h op) ≡ true
unfolding matches_desired
converged-matches w h op clock = ground (arith, clock h)

observe-written :
    (w : World) (adapter : Adapter) (op : ClaimedMailboxOperation) (d e : ℤ)
    (account : AccountObject) (h : History)
    → PrintsUuids w.uuids
    → IsWritable (command_for op d)
    → account.description ≡ format_metadata w.uuids (command_for op d)
    → observe_account w adapter (query_for op e) (some account) h
      ≡ (ok (converged w h op), clock_read ∷ h)
unfolding observe_account observe_metadata
observe-written w adapter op d e account h prints range stored =
    rw (stored, parse_metadata-format_metadata w.uuids (command_for op d) prints range)
      (ground arith)

-- Once an account carries the metadata that the worker's command wrote, `InspectMailbox` finds the
-- mailbox as the worker wants it: where the session, the domain and the account are found, for a claim
-- with values in the ranges of their Go types, with a clock that never reads the zero time, and with
-- package uuid parsing what it prints.
pub ensured_matches :
    (w : World) (adapter : Adapter) (ctx : Context) (op : ClaimedMailboxOperation) (d e : ℤ)
    (address : Text × Text) (api_path : Text) (domain : DomainObject) (account : AccountObject)
    (h h1 h2 h3 : History)
    → HasClock w
    → PrintsUuids w.uuids
    → IsWritable (command_for op d)
    → validate_inspect_query w.lower (query_for op e) ≡ ok address
    → fetch_session w adapter (with_deadline ctx e) h ≡ (ok api_path, h1)
    → find_domain w adapter (with_deadline ctx e) api_path address.1 h1 ≡ (ok (some domain), h2)
    → find_account w adapter (with_deadline ctx e) api_path address.0 domain.id h2
      ≡ (ok (some account), h3)
    → account.description ≡ format_metadata w.uuids (command_for op d)
    → (read : ObservedMailbox) × (inspect_mailbox w adapter ctx (query_for op e) h
        ≡ (ok read, clock_read ∷ h3))
      × (matches_desired op read ≡ true)
unfolding inspect_mailbox observe_domain
ensured_matches w adapter ctx op d e address api_path domain account h h1 h2 h3 clock prints range
      valid session at_domain at_account stored =
    (
      converged w h3 op,
      rw (valid, session, at_domain, at_account)
          (observe-written w adapter op d e account h3 prints range stored),
      converged-matches w h3 op clock,
    )

-- Ensuring again what an account already carries succeeds and sends nothing, whatever the deadlines.
pub ensured_again :
    (w : World) (adapter : Adapter) (ctx : Context) (api_path : Text) (op : ClaimedMailboxOperation)
    (d e : ℤ) (account : AccountObject) (h : History)
    → PrintsUuids w.uuids
    → IsWritable (command_for op d)
    → account.description ≡ format_metadata w.uuids (command_for op d)
    → ensure_existing_account w adapter ctx api_path account (command_for op e) h ≡ (ok tt, h)
unfolding ensure_existing_account advance_account
ensured_again w adapter ctx api_path op d e account h prints range stored =
    rw (stored, parse_metadata-format_metadata w.uuids (command_for op d) prints range)
      (ground arith)

-- With the adapter as its mail core, every receipt of `Execute` passes the ledger's checks: for an
-- accepted configuration, a valid claim, and a clock that never reads the zero time. Nothing is
-- supposed of the server.
pub adapter_receipts_accepted :
    (w : operation.World) (stalwart : World) (adapter : Adapter) (config : Config) (ctx : Context)
    (op : ClaimedMailboxOperation) (h : operation.History) (c : Context) (r : Resolution)
    (work : operation.History)
    → HasClock stalwart
    → ((k : operation.History) (ac : Context) (q : InspectMailboxQuery)
        → (s : History) × (w.inspect_mailbox k ac q ≡ (inspect_mailbox stalwart adapter ac q s).0))
    → IsAccepted config
    → IsInt64 config.max_retry_delay
    → valid_claim config op ≡ true
    → (execute w config ctx op h).1 ≡ resolved c r ∷ work
    → valid_mailbox_resolution r ≡ true
adapter_receipts_accepted w stalwart adapter config ctx op h c r work clock core accepted bound
      valid submitted =
    receipt_accepted w config ctx op h c r work
      (λ k ac q read e.
        let (s, same) = core k ac q in
        (inspect_valid stalwart adapter ac q s read clock (sym same ∙ e)).0)
      accepted bound valid submitted
