-- ===== src/Accounts/Spent.antt =====
-- The states of login flows: which are taken, and which were consumed.
use mail_suite.Base.{
  Digest, ◌≡◌, refl, ap, ◌∙◌, inl, inr, Bool, true, false, ◌&&◌, ◌||◌, not, none, some, List, [],
  ◌∷◌, ◌==◌, ==→eq, arith, Bool-cases,
}
use mail_suite.Base.Int.{ℤ}
use mail_suite.Errors.{ok}
use mail_suite.Identity.{AuthFlowToCreate, ConsumedAuthFlow}
use mail_suite.Accounts.{FlowRow}
use mail_suite.Accounts.Rows.{
  is_unset, flow_row, flow_taken, consumable, consume_row, consume_rows, find_consumable,
}
use mail_suite.Accounts.Flows.{consumed_with}

unfoldable pub has_state : Digest → List FlowRow → Bool
has_state d [] = false
has_state d (row ∷ rows) = row.state_digest == d || has_state d rows

-- Every flow with the state was consumed.
unfoldable pub spent : Digest → List FlowRow → Bool
spent d [] = true
spent d (row ∷ rows) =
    (not (row.state_digest == d) || not (is_unset row.consumed_at)) && spent d rows

-- No two flows have the same state.
unfoldable pub distinct : List FlowRow → Bool
distinct [] = true
distinct (row ∷ rows) = not (has_state row.state_digest rows) && distinct rows

absent_spent : (d : Digest) (rows : List FlowRow) → has_state d rows ≡ false → spent d rows ≡ true
unfolding has_state spent
absent_spent d [] h = refl
absent_spent d (row ∷ rows) h = ground (arith, absent_spent d rows)

pub apart :
    (c d : Digest) (rows : List FlowRow)
    → has_state d rows ≡ true
    → has_state c rows ≡ false
    → (c == d) ≡ false
apart c d rows h k = elim (Bool-cases (c == d)) [
  | inl equal ↦ absurd (ground (arith, ap (λ x. has_state x rows) (==→eq c d equal)))
  | inr other ↦ other
]

module _ (state cookie : Digest) (at : ℤ) where
  pub has_state-consume :
      (d : Digest) (rows : List FlowRow)
      → has_state d (consume_rows state cookie at rows) ≡ has_state d rows
  unfolding has_state consume_rows consume_row
  has_state-consume d [] = refl
  has_state-consume d (row ∷ rows) = ground (arith, has_state-consume d rows)

  pub distinct-consume :
      (rows : List FlowRow)
      → distinct rows ≡ true
      → distinct (consume_rows state cookie at rows) ≡ true
  unfolding distinct consume_rows consume_row
  distinct-consume [] h = refl
  distinct-consume (row ∷ rows) h =
      ground (arith, distinct-consume rows, has_state-consume row.state_digest rows)

  pub spent-consume :
      (d : Digest) (rows : List FlowRow)
      → spent d rows ≡ true
      → spent d (consume_rows state cookie at rows) ≡ true
  unfolding spent consume_rows consume_row consumable
  spent-consume d [] h = refl
  spent-consume d (row ∷ rows) h = ground (arith, spent-consume d rows)

  pub found_state :
      (rows : List FlowRow) (row : FlowRow)
      → find_consumable state cookie at rows ≡ some row
      → has_state state rows ≡ true
  unfolding has_state find_consumable consumable
  found_state [] row h = cc
  found_state (r ∷ rows) row h = ground (arith, found_state rows row)

  consumable-state :
      (row : FlowRow) → consumable state cookie at row ≡ true → row.state_digest ≡ state
  unfolding consumable
  consumable-state row h = ground arith

  pub spends :
      (rows : List FlowRow) (row : FlowRow)
      → distinct rows ≡ true
      → find_consumable state cookie at rows ≡ some row
      → spent state (consume_rows state cookie at rows) ≡ true
  unfolding distinct spent find_consumable consume_rows consume_row
  spends [] row d h = cc
  spends (r ∷ rows) row d h = elim (Bool-cases (consumable state cookie at r)) [
    | inl taken ↦
        let same = consumable-state r taken in
        let alone : has_state state rows ≡ false = ground arith in
        let gone =
          absent_spent state (consume_rows state cookie at rows)
            (has_state-consume state rows ∙ alone) in
        ground arith
    | inr left ↦
        let later : find_consumable state cookie at rows ≡ some row = ground arith in
        let there = found_state rows row later in
        let rest = spends rows row (ground arith) later in
        let other : (r.state_digest == state) ≡ false =
          apart r.state_digest state rows there (ground arith) in
        ground arith
  ]

  pub spent-none :
      (rows : List FlowRow) → spent state rows ≡ true → find_consumable state cookie at rows ≡ none
  unfolding spent find_consumable consumable
  spent-none [] h = refl
  spent-none (r ∷ rows) h = ground (arith, spent-none rows)

pub free_state :
    (flow : AuthFlowToCreate) (rows : List FlowRow)
    → flow_taken flow rows ≡ false
    → has_state flow.state_digest rows ≡ false
unfolding flow_taken has_state
free_state flow [] h = refl
free_state flow (row ∷ rows) h = ground (arith, free_state flow rows)

pub in_front :
    (d : Digest) (flow : AuthFlowToCreate) (rows : List FlowRow)
    → has_state d rows ≡ true
    → has_state d (flow_row flow ∷ rows) ≡ true
unfolding has_state
in_front d flow rows h = ground (arith, h)

pub distinct_front :
    (flow : AuthFlowToCreate) (rows : List FlowRow)
    → distinct rows ≡ true
    → has_state flow.state_digest rows ≡ false
    → distinct (flow_row flow ∷ rows) ≡ true
unfolding distinct flow_row
distinct_front flow rows h free = ground (arith, h, free)

pub spent_front :
    (d : Digest) (flow : AuthFlowToCreate) (rows : List FlowRow)
    → spent d rows ≡ true
    → (flow.state_digest == d) ≡ false
    → spent d (flow_row flow ∷ rows) ≡ true
unfolding spent flow_row
spent_front d flow rows h other = ground (arith, h)

pub unconsumed : (at : ℤ) (flow : ConsumedAuthFlow) → consumed_with at none ≡ ok flow → ⊥
unfolding consumed_with
unconsumed at flow h = cc
