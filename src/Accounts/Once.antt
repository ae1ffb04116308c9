-- ===== src/Accounts/Once.antt =====
-- `ConsumeAuthFlow`: the first consumption of a flow, and the attempts after it.
use mail_suite.Base.{
  Digest, ◌≡◌, refl, ap, ◌∙◌, Bool, true, false, Option, none, some, [], if◌then◌else◌,
}
use mail_suite.Base.Int.{ℤ, pos, ◌=ℤ◌}
use mail_suite.Errors.{Error, Result, ok, fail, auth_flow_invalid}
use mail_suite.Identity.{new_error, ConsumedAuthFlow}
use mail_suite.Accounts.{FlowRow, Store, timestamptz}
use mail_suite.Accounts.Rows.{consume_rows, find_consumable}
use mail_suite.Accounts.Changes.{
  Change, same, flow_in, flow_used, session_in, touched, revoked, step-Change,
}
use mail_suite.Accounts.Steps.{Later, kept_later}
use mail_suite.Accounts.Flows.{consumed_with, update_flow, consume_auth_flow}
use mail_suite.Accounts.Spent.{
  has_state, spent, distinct, apart, has_state-consume, distinct-consume, spent-consume,
  found_state, spends, spent-none, free_state, in_front, distinct_front, spent_front, unconsumed,
}

-- The invariant: no two flows have the same state.
step_distinct : (s t : Store) → Change s t → distinct s.flows ≡ true → distinct t.flows ≡ true
step_distinct s t (same f g) h = ap distinct f ∙ h
step_distinct s t (flow_in flow free f g) h =
    ap distinct f ∙ distinct_front flow s.flows h (free_state flow s.flows free)
step_distinct s t (flow_used state cookie at f g) h =
    ap distinct f ∙ distinct-consume state cookie at s.flows h
step_distinct s t (session_in session valid free f g) h = ap distinct f ∙ h
step_distinct s t (touched id at idle f g) h = ap distinct f ∙ h
step_distinct s t (revoked target at reason f g) h = ap distinct f ∙ h

-- A flow with the state is there, and each such flow was consumed.
abbrev IsUsed : Digest → Store → Type 0
IsUsed d s = (has_state d s.flows ≡ true) × (spent d s.flows ≡ true)

IsUsed-rows : (d : Digest) (s t : Store) → t.flows ≡ s.flows → IsUsed d s → IsUsed d t
IsUsed-rows d s t f u = (ap (has_state d) f ∙ u.0, ap (spent d) f ∙ u.1)

step-IsUsed : (d : Digest) (s t : Store) → Change s t → IsUsed d s → IsUsed d t
step-IsUsed d s t (same f g) u = IsUsed-rows d s t f u
step-IsUsed d s t (flow_in flow free f g) u =
    let other = apart flow.state_digest d s.flows u.0 (free_state flow s.flows free) in
    (
      ap (has_state d) f ∙ in_front d flow s.flows u.0,
      ap (spent d) f ∙ spent_front d flow s.flows u.1 other,
    )
step-IsUsed d s t (flow_used state cookie at f g) u = (
  ap (has_state d) f ∙ has_state-consume state cookie at d s.flows ∙ u.0,
  ap (spent d) f ∙ spent-consume state cookie at d s.flows u.1,
)
step-IsUsed d s t (session_in session valid free f g) u = IsUsed-rows d s t f u
step-IsUsed d s t (touched id at idle f g) u = IsUsed-rows d s t f u
step-IsUsed d s t (revoked target at reason f g) u = IsUsed-rows d s t f u

consumed-IsUsed :
    (o : Option Error) (state cookie : Digest) (at : ℤ) (s : Store) (flow : ConsumedAuthFlow)
    → distinct s.flows ≡ true
    → (update_flow o state cookie at s).0 ≡ ok flow
    → IsUsed state (update_flow o state cookie at s).1
unfolding update_flow
consumed-IsUsed (some e) state cookie at s flow d h = cc
consumed-IsUsed none state cookie at s flow d h =
    of_found (find_consumable state cookie at s.flows) refl h
  where
    of_found :
        (o : Option FlowRow)
        → find_consumable state cookie at s.flows ≡ o
        → consumed_with at o ≡ ok flow
        → IsUsed state (record s { flows = consume_rows state cookie at s.flows })
    of_found none e q = absurd (unconsumed at flow q)
    of_found (some row) e q = (
      has_state-consume state cookie at state s.flows ∙ found_state state cookie at s.flows row e,
      spends state cookie at s.flows row d e,
    )

distinct_none : distinct [] ≡ true
unfolding distinct
distinct_none = refl

IsUsed-if :
    (d : Digest) (flow : ConsumedAuthFlow) (c : Bool) (e : Error) (s : Store)
    (run : Result ConsumedAuthFlow × Store)
    → (run.0 ≡ ok flow → IsUsed d run.1)
    → (if c then (fail e, s) else run).0 ≡ ok flow
    → IsUsed d (if c then (fail e, s) else run).1
IsUsed-if d flow true e s run k h = cc
IsUsed-if d flow false e s run k h = k h

consume-IsUsed :
    (o : Option Error) (state cookie : Digest) (at : ℤ) (s : Store) (flow : ConsumedAuthFlow)
    → distinct s.flows ≡ true
    → (consume_auth_flow o state cookie at s).0 ≡ ok flow
    → IsUsed state (consume_auth_flow o state cookie at s).1
unfolding consume_auth_flow
consume-IsUsed o state cookie at s flow d h =
    IsUsed-if state flow (at =ℤ pos 0) _ s _
      (consumed-IsUsed o state cookie (timestamptz at) s flow d) h

refused_if :
    (c : Bool) (e : Error) (s : Store) (run : Result ConsumedAuthFlow × Store)
    → (d : Error) × (run.0 ≡ fail d)
    → (d : Error) × ((if c then (fail e, s) else run).0 ≡ fail d)
refused_if true e s run k = (e, refl)
refused_if false e s run k = k

update_refused :
    (o : Option Error) (state cookie : Digest) (at : ℤ) (s : Store)
    → IsUsed state s
    → (e : Error) × ((update_flow o state cookie at s).0 ≡ fail e)
unfolding update_flow consumed_with
update_refused (some e) state cookie at s u = (_, refl)
update_refused none state cookie at s u =
    (new_error auth_flow_invalid, rw (spent-none state cookie at s.flows u.1) refl)

-- Once a login flow was consumed, no later attempt with the same state succeeds, with whatever cookie and
-- at whatever instant, and whatever happened to the store before and since: logins that start and end,
-- sessions that come and go, failing statements, and changes of the accounts.
pub consumed_once :
    (start s t : Store) (o p : Option Error) (state cookie other : Digest) (at then_at : ℤ)
    (flow : ConsumedAuthFlow)
    → start.flows ≡ []
    → Later start s
    → (consume_auth_flow o state cookie at s).0 ≡ ok flow
    → Later (consume_auth_flow o state cookie at s).1 t
    → (e : Error) × ((consume_auth_flow p state other then_at t).0 ≡ fail e)
unfolding consume_auth_flow
consumed_once start s t o p state cookie other at then_at flow empty before won after =
    let unique =
      kept_later (λ x. distinct x.flows ≡ true)
        (λ x y step. step_distinct x y (step-Change x y step)) start s before
        (ap distinct empty ∙ distinct_none) in
    let used =
      kept_later (IsUsed state) (λ x y step. step-IsUsed state x y (step-Change x y step)) _ t after
        (consume-IsUsed o state cookie at s flow unique won) in
    refused_if (then_at =ℤ pos 0) _ t _ (update_refused p state other (timestamptz then_at) t used)
