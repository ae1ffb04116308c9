-- ===== src/Ledger/Rows.antt =====
-- One mailbox operation of the ledger with its mailbox and its attempts, and the three statements of the
-- worker as functions on it. Instants are microseconds of the database clock. Left out are the
-- outbox events, and the columns that record when a row was last written.
use mail_suite.Base.{
  Text, Uuid, Digest, Bool, true, false, ◌&&◌, ◌||◌, not, Option, none, some, List, [], ◌∷◌, codes,
  ◌==◌, is_empty, if◌then◌else◌,
}
use mail_suite.Base.Int.{ℤ, pos, ◌+ℤ◌, leb_ℤ, ltb_ℤ, ◌=ℤ◌}
use mail_suite.Mailcore.{MailboxStatus, active}
use mail_suite.Operation.{Status}

pub record Observation : Type 0 where
  pub mailbox_id : Uuid
  pub status : MailboxStatus
  pub revision : ℤ
  pub configuration_hash : Digest
  pub at : ℤ

-- A row of `operation_attempts`; it is open until it has a result.
pub record Attempt : Type 0 where
  pub number : ℤ
  pub owner : Uuid
  pub epoch : ℤ
  pub prior_status : Status
  pub result : Option Status
  pub error_code : Option Text
  pub observation : Option Observation

-- A row of `operations` joined with its row of `mailboxes`, and its attempts, the latest first.
pub record Entry : Type 0 where
  pub id : Uuid
  pub mailbox_id : Uuid
  pub status : Status
  pub desired_revision : ℤ
  pub configuration_hash : Digest
  pub attempt_count : ℤ
  pub next_attempt_at : ℤ
  pub lease_owner_id : Option Uuid
  pub lease_epoch : ℤ
  pub lease_expires_at : Option ℤ
  pub last_error_code : Option Text
  pub observation : Option Observation
  pub mailbox_desired : MailboxStatus
  pub mailbox_revision : ℤ
  pub mailbox_observation : Option Observation
  pub attempts : List Attempt

abbrev pub is_waiting : Status → Bool
is_waiting Status.pending = true
is_waiting Status.retry_wait = true
is_waiting Status.unknown = true
is_waiting _ = false

abbrev pub is_running : Status → Bool
is_running Status.running = true
is_running _ = false

abbrev pub is_active : MailboxStatus → Bool
is_active active = true
is_active _ = false

-- `lease_expires_at <= statement_timestamp()`; a comparison with NULL does not hold.
abbrev pub expired : Option ℤ → ℤ → Bool
expired none now = false
expired (some at) now = leb_ℤ at now

abbrev pub is_open : Option Status → Bool
is_open none = true
is_open (some s) = false

-- `UPDATE operation_attempts … WHERE attempt_number = … AND lease_epoch = … AND completed_at IS NULL`
unfoldable pub complete : ℤ → ℤ → Status → Option Text → List Attempt → List Attempt
complete number epoch result code [] = []
complete number epoch result code (a ∷ l) =
    let rest = complete number epoch result code l in
    if a.number =ℤ number && a.epoch =ℤ epoch && is_open a.result
    then record a { result = some result; error_code = code } ∷ rest
    else a ∷ rest

unfoldable pub claimable : ℤ → ℤ → Entry → Bool
claimable now max_attempts e =
    is_active e.mailbox_desired
    && e.mailbox_revision =ℤ e.desired_revision
    && ltb_ℤ e.attempt_count max_attempts
    && (is_waiting e.status && leb_ℤ e.next_attempt_at now
        || is_running e.status && expired e.lease_expires_at now)

unfoldable pub claim_entry : ℤ → Uuid → ℤ → Entry → Entry
claim_entry now owner lease_microseconds e = record e {
  status = Status.running;
  attempt_count = e.attempt_count +ℤ pos 1;
  lease_owner_id = some owner;
  lease_epoch = e.lease_epoch +ℤ pos 1;
  lease_expires_at = some (now +ℤ lease_microseconds);
  attempts =
      record {
        number = e.attempt_count +ℤ pos 1;
        owner = owner;
        epoch = e.lease_epoch +ℤ pos 1;
        prior_status = e.status;
        result = none;
        error_code = none;
        observation = none;
      }
      ∷ (if is_running e.status
          then complete e.attempt_count e.lease_epoch Status.unknown
              (some (codes "WORKER_LEASE_EXPIRED")) e.attempts
          else e.attempts);
}

unfoldable pub finalizable : ℤ → ℤ → Entry → Bool
finalizable now max_attempts e =
    (is_waiting e.status || is_running e.status)
    && (ltb_ℤ e.desired_revision e.mailbox_revision
        || e.mailbox_revision =ℤ e.desired_revision
          && leb_ℤ max_attempts e.attempt_count
          && (is_waiting e.status || expired e.lease_expires_at now))

abbrev pub final_status : Entry → Status
final_status e =
    if ltb_ℤ e.desired_revision e.mailbox_revision then Status.superseded else Status.dead

abbrev pub final_code : Entry → Text
final_code e =
    if ltb_ℤ e.desired_revision e.mailbox_revision
    then codes "OPERATION_REVISION_SUPERSEDED"
    else codes "WORKER_ATTEMPTS_EXHAUSTED"

unfoldable pub finalize_entry : ℤ → Entry → Entry
finalize_entry now e = record e {
  status = final_status e;
  next_attempt_at = now;
  lease_owner_id = none;
  lease_expires_at = none;
  last_error_code = some (final_code e);
  attempts =
      if is_running e.status
      then complete e.attempt_count e.lease_epoch (final_status e) (some (final_code e)) e.attempts
      else e.attempts;
}

-- The parameters of `ResolveMailboxOperation`.
pub record ResolveParams : Type 0 where
  pub operation_id : Uuid
  pub lease_owner_id : Uuid
  pub lease_epoch : ℤ
  pub attempt_number : ℤ
  pub desired_revision : ℤ
  pub result_status : Status
  pub observation : Option Observation
  pub next_attempt_delay : ℤ
  pub error_code : Text

abbrev pub is_succeeded : Status → Bool
is_succeeded Status.succeeded = true
is_succeeded _ = false

abbrev pub is_retrying : Status → Bool
is_retrying Status.retry_wait = true
is_retrying Status.unknown = true
is_retrying _ = false

abbrev pub holds : Option Uuid → Uuid → Bool
holds none owner = false
holds (some o) owner = o == owner

-- `lease_expires_at > statement_timestamp()`
abbrev pub unexpired : Option ℤ → ℤ → Bool
unexpired none now = false
unexpired (some at) now = ltb_ℤ now at

abbrev pub observes : Option Observation → Uuid → Bool
observes none mailbox = true
observes (some o) mailbox = o.mailbox_id == mailbox

abbrev pub proves_success : Option Observation → Entry → Bool
proves_success none e = false
proves_success (some o) e =
    is_active o.status
    && o.revision =ℤ e.desired_revision
    && o.configuration_hash == e.configuration_hash
    && e.mailbox_revision =ℤ e.desired_revision
    && is_active e.mailbox_desired

-- The `candidate` of the statement.
unfoldable pub resolvable : ℤ → ResolveParams → Entry → Bool
resolvable now p e =
    e.id == p.operation_id
    && is_running e.status
    && holds e.lease_owner_id p.lease_owner_id
    && e.lease_epoch =ℤ p.lease_epoch
    && e.attempt_count =ℤ p.attempt_number
    && e.desired_revision =ℤ p.desired_revision
    && unexpired e.lease_expires_at now
    && observes p.observation e.mailbox_id
    && (not (is_succeeded p.result_status) || proves_success p.observation e)

abbrev pub or_else : Option Observation → Option Observation → Option Observation
or_else none old = old
or_else (some o) old = some o

-- `NULLIF(error_code, '')`
abbrev pub null_if_empty : Text → Option Text
null_if_empty code = if is_empty code then none else some code

-- `updated_attempt`, and whether there was an attempt to update.
unfoldable pub resolve_attempt : ResolveParams → List Attempt → List Attempt × Bool
resolve_attempt p [] = ([], false)
resolve_attempt p (a ∷ l) =
    let (rest, found) = resolve_attempt p l in
    if a.number =ℤ p.attempt_number
      && a.owner == p.lease_owner_id
      && a.epoch =ℤ p.lease_epoch
      && is_open a.result
    then (
      record a {
        result = some p.result_status;
        error_code = null_if_empty p.error_code;
        observation = p.observation;
      }
          ∷ rest,
      true,
    )
    else (a ∷ rest, found)

unfoldable pub resolve_entry : ℤ → ResolveParams → Entry → Entry
resolve_entry now p e = record e {
  status = p.result_status;
  next_attempt_at = if is_retrying p.result_status then now +ℤ p.next_attempt_delay else now;
  lease_owner_id = none;
  lease_expires_at = none;
  last_error_code = null_if_empty p.error_code;
  observation = or_else p.observation e.observation;
  mailbox_observation =
      if is_succeeded p.result_status then p.observation else e.mailbox_observation;
  attempts = (resolve_attempt p e.attempts).0;
}
