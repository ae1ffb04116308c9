-- ===== src/Operation/World.antt =====
-- What surrounds a worker: its clock, the mail core behind `mailcore.Adapter`, the ledger behind
-- `Repository`, and the cancellation of its context. Each answer may depend on all that happened
-- before, and each call is written into the history, the latest first.
use mail_suite.Base.{Bool, Option, none, some, List, [], ◌∷◌, if◌then◌else◌}
use mail_suite.Base.Int.{ℤ, ltb_ℤ}
use mail_suite.Errors.{Error, Result}
use mail_suite.Mailcore.{EnsureMailboxCommand, InspectMailboxQuery, ObservedMailbox}
use mail_suite.Operation.{ClaimRequest, ClaimedMailboxOperation, Resolution}

-- A `context.Context` by its deadline.
pub record Context : Type 0 where
  pub deadline : Option ℤ

abbrev pub earliest : Option ℤ → ℤ → ℤ
earliest none d = d
earliest (some e) d = if ltb_ℤ e d then e else d

-- `context.WithDeadline`: a child never outlives its parent.
abbrev pub with_deadline : Context → ℤ → Context
with_deadline ctx d = record { deadline = some (earliest ctx.deadline d) }

-- `if effective, ok := ctx.Deadline(); ok { d = effective }`
abbrev pub effective_deadline : Context → ℤ → ℤ
effective_deadline ctx d = elim ctx.deadline [ none ↦ d | some e ↦ e ]

-- `context.WithoutCancel`
abbrev pub without_cancel : Context → Context
without_cancel ctx = record { deadline = none }

pub data Event : Type 0 where
  clock_read : Event
  ensured : Context → EnsureMailboxCommand → Event
  inspected : Context → InspectMailboxQuery → Event
  claimed : Context → ClaimRequest → Event
  resolved : Context → Resolution → Event
  polled : ℤ → Event

abbrev pub History : Type 0
History = List Event

pub record World : Type 0 where
  pub now : History → ℤ
  pub ensure_mailbox : History → Context → EnsureMailboxCommand → Option Error
  pub inspect_mailbox : History → Context → InspectMailboxQuery → Result ObservedMailbox
  pub claim_mailbox_operation :
      History → Context → ClaimRequest → Result (Option ClaimedMailboxOperation)
  pub resolve_mailbox_operation : History → Context → Resolution → Option Error
  -- the context of `Run` is cancelled
  pub is_done : History → Bool
  -- the poll timer fires before the context is cancelled
  pub poll_fires : History → ℤ → Bool

-- The receipts that were submitted to the ledger, and how many.
abbrev pub receipts : History → List Resolution
receipts [] = []
receipts (resolved ctx r ∷ h) = r ∷ receipts h
receipts (clock_read ∷ h) = receipts h
receipts (ensured ctx c ∷ h) = receipts h
receipts (inspected ctx q ∷ h) = receipts h
receipts (claimed ctx r ∷ h) = receipts h
receipts (polled d ∷ h) = receipts h
