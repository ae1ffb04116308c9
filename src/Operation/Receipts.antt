-- ===== src/Operation/Receipts.antt =====
-- What the ledger may rely on: the properties of the one receipt that `Execute` submits.
use mail_suite.Base.{
  List, ◌⊎◌, inl, inr, ◌≡◌, refl, ◌≢◌, true, false, Option, some, [], ◌∷◌, ◌++◌, All, arith, ◌∙◌,
  sym, ap,
}
use mail_suite.Base.Int.{ℤ, pos, ◌<ℤ◌, ◌≤ℤ◌, ◌+ℤ◌, =ℤ→eq}
use mail_suite.Errors.{ok}
use mail_suite.Mailcore.{MailboxStatus, ObservedMailbox, InspectMailboxQuery}
use mail_suite.Operation.{Status, ClaimedMailboxOperation, Resolution}
use mail_suite.Operation.Config.{Config, matches_desired, valid_claim, retry_delay}
use mail_suite.Operation.World.{
  Context, clock_read, ensured, inspected, claimed, resolved, polled, History, World, receipts,
}
use mail_suite.Operation.Service.{is_retrying, inspects_first, resolve, receipt, execute}
use mail_suite.Operation.Settled.{Call, calls, Protocol, IsUnder, Evidence, unseen, seen}
use mail_suite.Operation.Execute.{Attempt, execute-Attempt}

-- The receipt is for this claim: it carries the identity and the whole fencing token of the lease.
pub record IsFenced (op : ClaimedMailboxOperation) (r : Resolution) : Type 0 where
  pub operation : r.operation_id ≡ op.operation_id
  pub attempt : r.attempt_number ≡ op.attempt_number
  pub owner : r.lease_owner_id ≡ op.lease_owner_id
  pub epoch : r.lease_epoch ≡ op.lease_epoch
  pub revision : r.desired_revision ≡ op.desired_revision

module _ (w : World) (config : Config) (ctx : Context) (op : ClaimedMailboxOperation) (h : History)
    (valid : valid_claim config op ≡ true) where
  abbrev pub the : Attempt w config op h (execute w config ctx op h)
  the = execute-Attempt w config ctx op h valid

  abbrev pub the_receipt : Resolution
  the_receipt = receipt config op the.run.status the.run.code the.run.observation

  ended : execute w config ctx op h ≡ (
    w.resolve_mailbox_operation (the.run.fresh ++ h) the.ctx the_receipt,
    resolved the.ctx the_receipt ∷ the.run.fresh ++ h,
  )
  unfolding resolve
  ended = the.run.ended

  -- The receipt in a result is the one that the attempt ended with.
  pub same :
      (c : Context) (r : Resolution) (work : History)
      → (execute w config ctx op h).1 ≡ resolved c r ∷ work
      → (c ≡ the.ctx) × (r ≡ the_receipt) × (work ≡ the.run.fresh ++ h)
  same c r work e =
      let e' : resolved c r ∷ work ≡ resolved the.ctx the_receipt ∷ the.run.fresh ++ h =
        sym e ∙ ap (λ x. x.1) ended in
      (cc, cc, cc)

receipts-append : (f h : History) → receipts f ≡ [] → receipts (f ++ h) ≡ receipts h
receipts-append [] h e = refl
receipts-append (clock_read ∷ f) h e = receipts-append f h e
receipts-append (ensured c x ∷ f) h e = receipts-append f h e
receipts-append (inspected c x ∷ f) h e = receipts-append f h e
receipts-append (claimed c x ∷ f) h e = receipts-append f h e
receipts-append (polled d ∷ f) h e = receipts-append f h e
receipts-append (resolved c x ∷ f) h e = cc

-- A mailbox as it was desired.
pub record IsDesired (op : ClaimedMailboxOperation) (o : ObservedMailbox) : Type 0 where
  pub mailbox : o.mailbox_id ≡ op.mailbox_id
  pub active : o.status ≡ MailboxStatus.active
  pub revision : o.revision ≡ op.desired_revision
  pub configuration : o.configuration_hash ≡ op.configuration_hash
  pub dated : o.inspected_at ≢ pos 0

matches_desired-IsDesired :
    (op : ClaimedMailboxOperation) (o : ObservedMailbox)
    → matches_desired op o ≡ true
    → IsDesired op o
unfolding matches_desired
matches_desired-IsDesired op o h = ground (arith, =ℤ→eq o.revision op.desired_revision)

-- An observation of a receipt, with the call that read it.
Evidence-seen :
    {w : World} {op : ClaimedMailboxOperation} {h : History} {status : Status}
    {seen_as : Option ObservedMailbox} {fresh : History}
    → Evidence w op h status seen_as fresh
    → status ≡ Status.succeeded
    → (o : ObservedMailbox) × (k : History) × (ac : Context) × (q : InspectMailboxQuery) × (seen_as
        ≡ some o)
      × (fresh ++ h ≡ inspected ac q ∷ k)
      × (w.inspect_mailbox k ac q ≡ ok o)
      × IsDesired op o
Evidence-seen (unseen ne) s = absurd (ne s)
Evidence-seen {op} {h} (seen {o = o} {ctx = c} {q = q} {k = k} read desired) s =
    (o, k ++ h, c, q, refl, refl, read, matches_desired-IsDesired op o (desired s))

-- A claim that passes `validClaim` is settled by exactly one receipt, submitted last, and the
-- ledger's answer to it is the result of `Execute`. The receipt is fenced: it carries the claim's
-- operation, attempt, owner, epoch and revision unchanged.
pub execute_settles :
    (w : World) (config : Config) (ctx : Context) (op : ClaimedMailboxOperation) (h : History)
    → valid_claim config op ≡ true
    → (c : Context) × (r : Resolution) × (work : History) × ((execute w config ctx op h).1
        ≡ resolved c r ∷ work)
      × ((execute w config ctx op h).0 ≡ w.resolve_mailbox_operation work c r)
      × (receipts work ≡ receipts h)
      × IsFenced op r
execute_settles w config ctx op h valid =
    let a = execute-Attempt w config ctx op h valid in
    (
      a.ctx,
      the_receipt w config ctx op h valid,
      a.run.fresh ++ h,
      ap (λ x. x.1) (ended w config ctx op h valid),
      ap (λ x. x.0) (ended w config ctx op h valid),
      receipts-append a.run.fresh h a.run.silent,
      ground arith,
    )

-- Success is reported only of what was read: a receipt that reports it, for a valid claim, has no
-- error code and carries the answer to the latest call, an inspection, and that answer names the
-- claimed mailbox as active, at the desired revision and configuration, at a time that is set.
pub success_observed :
    (w : World) (config : Config) (ctx : Context) (op : ClaimedMailboxOperation) (h : History)
    (c : Context) (r : Resolution) (work : History)
    → valid_claim config op ≡ true
    → (execute w config ctx op h).1 ≡ resolved c r ∷ work
    → r.status ≡ Status.succeeded
    → (o : ObservedMailbox) × (k : History) × (ac : Context) × (q : InspectMailboxQuery)
      × (r.observation ≡ some o)
      × (work ≡ inspected ac q ∷ k)
      × (w.inspect_mailbox k ac q ≡ ok o)
      × IsDesired op o
      × (r.error_code ≡ [])
success_observed w config ctx op h c r work valid e s =
    let run = (execute-Attempt w config ctx op h valid).run in
    let (_, of_run, events) = same w config ctx op h valid c r work e in
    let succeeds : run.status ≡ Status.succeeded = sym (ap (λ x. x.status) of_run) ∙ s in
    let (o, k, ac, q, found, last, read, desired) = Evidence-seen run.evidence succeeds in
    (
      o,
      k,
      ac,
      q,
      ap (λ x. x.observation) of_run ∙ found,
      events ∙ last,
      read,
      desired,
      ap (λ x. x.error_code) of_run ∙ run.plain_success succeeds,
    )

-- Attempts are budgeted: a receipt that asks for another attempt comes from an attempt before the
-- last, and carries the backoff of its attempt; any other receipt carries no delay.
pub retry_budget :
    (w : World) (config : Config) (ctx : Context) (op : ClaimedMailboxOperation) (h : History)
    (c : Context) (r : Resolution) (work : History)
    → valid_claim config op ≡ true
    → (execute w config ctx op h).1 ≡ resolved c r ∷ work
    → ((is_retrying r.status ≡ true)
        → (op.attempt_number <ℤ config.max_attempts)
          × (r.next_attempt_delay ≡ retry_delay config op.attempt_number))
      × ((is_retrying r.status ≡ false) → r.next_attempt_delay ≡ pos 0)
retry_budget w config ctx op h c r work valid e =
    let run = (execute-Attempt w config ctx op h valid).run in
    let (_, of_run, _) = same w config ctx op h valid c r work e in
    rw of_run (λ again. (run.budget again, rw again), λ over. rw over)

-- The prior statuses under which an earlier attempt may have had its effect.
abbrev pub MayHaveActed : Status → Type 0
MayHaveActed s = (s ≡ Status.unknown) ⊎ (s ≡ Status.running)

-- Where an earlier attempt may have acted, the calls read before they write.
abbrev pub IsOrdered : Status → List Call → Type 0
IsOrdered s l =
    (MayHaveActed s × Protocol true l)
    ⊎ (s ≢ Status.unknown) × (s ≢ Status.running) × Protocol false l

order-IsOrdered : (s : Status) (l : List Call) → Protocol (inspects_first s) l → IsOrdered s l
order-IsOrdered Status.unknown l p = inl (inl refl, p)
order-IsOrdered Status.running l p = inl (inr refl, p)
order-IsOrdered s l p = inr (λ e. cc, λ e. cc, p)

-- The order of the calls for a valid claim: with a prior status of `unknown` or `running` the mailbox
-- is read before it is written, and with any other it is not; in any case it is written at most once and
-- read at most once after that, and the receipt follows all of these calls.
pub inspect_first :
    (w : World) (config : Config) (ctx : Context) (op : ClaimedMailboxOperation) (h : History)
    → valid_claim config op ≡ true
    → (fresh : History) × (c : Context) × (r : Resolution) × ((execute w config ctx op h).1
        ≡ resolved c r ∷ fresh ++ h)
      × IsOrdered op.prior_status (calls fresh)
inspect_first w config ctx op h valid =
    let a = execute-Attempt w config ctx op h valid in
    (
      a.run.fresh,
      a.ctx,
      the_receipt w config ctx op h valid,
      ap (λ x. x.1) (ended w config ctx op h valid),
      order-IsOrdered op.prior_status (calls a.run.fresh) a.run.order,
    )

-- The deadlines nest: the receipt is due no later than the lease, and every call of the mail core
-- runs under a context that stops at least the safety margin before the receipt is due.
pub deadlines_nest :
    (w : World) (config : Config) (ctx : Context) (op : ClaimedMailboxOperation) (h : History)
    → valid_claim config op ≡ true
    → (fresh : History) × (c : Context) × (r : Resolution) × (ac : Context) × (due : ℤ) × (stop : ℤ)
      × ((execute w config ctx op h).1 ≡ resolved c r ∷ fresh ++ h)
      × All (IsUnder ac) fresh
      × (c.deadline ≡ some due)
      × (ac.deadline ≡ some stop)
      × (due ≤ℤ op.lease_expires_at)
      × (stop +ℤ config.lease_safety_margin ≤ℤ due)
deadlines_nest w config ctx op h valid =
    let a = execute-Attempt w config ctx op h valid in
    (
      a.run.fresh,
      a.ctx,
      the_receipt w config ctx op h valid,
      a.adapter_ctx,
      a.due,
      a.stop,
      ap (λ x. x.1) (ended w config ctx op h valid),
      a.run.under,
      a.ctx_due,
      a.adapter_stop,
      a.in_lease,
      a.in_margin,
    )
