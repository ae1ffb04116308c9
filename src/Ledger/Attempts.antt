-- ===== src/Ledger/Attempts.antt =====
-- The attempts of an operation: numbered without gaps, and at most the latest one open.
use mail_suite.Base.{
  suc, ◌≡◌, refl, Text, Uuid, true, false, Option, some, List, [], ◌∷◌, arith, length,
}
use mail_suite.Base.Int.{ℤ, pos, =ℤ_refl}
use mail_suite.Operation.{Status}
use mail_suite.Ledger.Rows.{Attempt, ResolveParams, is_open, complete, resolve_attempt}

abbrev pub AllClosed : List Attempt → Type 0
AllClosed [] = Unit {0}
AllClosed (a ∷ l) = (is_open a.result ≡ false) × AllClosed l

-- The latest attempt is open and its owner holds the lease; the others are closed.
abbrev pub HeadOpen : Option Uuid → List Attempt → Type 0
HeadOpen holder [] = ⊥
HeadOpen holder (a ∷ l) = (is_open a.result ≡ true) × (holder ≡ some a.owner) × AllClosed l

-- Number and epoch of an attempt count the attempts up to it.
abbrev pub IsNumbered : List Attempt → Type 0
IsNumbered [] = Unit {0}
IsNumbered (a ∷ l) =
    (a.number ≡ pos (suc (length l))) × (a.epoch ≡ pos (suc (length l))) × IsNumbered l

module _ (number epoch : ℤ) (result : Status) (code : Option Text) where
  pub length-complete : (l : List Attempt) → length (complete number epoch result code l) ≡ length l
  unfolding complete
  length-complete [] = refl
  length-complete (a ∷ l) = ground (arith, length-complete l)

  pub complete-IsNumbered :
      (l : List Attempt) → IsNumbered l → IsNumbered (complete number epoch result code l)
  unfolding complete
  complete-IsNumbered [] n = tt
  complete-IsNumbered (a ∷ l) n = ground (arith, length-complete l, complete-IsNumbered l)

  pub complete-AllClosed :
      (l : List Attempt) → AllClosed l → AllClosed (complete number epoch result code l)
  unfolding complete
  complete-AllClosed [] c = tt
  complete-AllClosed (a ∷ l) c = ground (arith, complete-AllClosed l)

-- Completing the latest attempt of a numbered list leaves none open.
pub complete_latest :
    (result : Status) (code : Option Text) (holder : Option Uuid) (n : ℤ) (l : List Attempt)
    → n ≡ pos (length l)
    → IsNumbered l
    → HeadOpen holder l
    → AllClosed (complete n n result code l)
unfolding complete
complete_latest result code holder n [] e num h = tt
complete_latest result code holder n (a ∷ l) e num h =
    ground (arith, complete-AllClosed n n result code l, =ℤ_refl n)

module _ (p : ResolveParams) where
  pub length-resolve_attempt : (l : List Attempt) → length (resolve_attempt p l).0 ≡ length l
  unfolding resolve_attempt
  length-resolve_attempt [] = refl
  length-resolve_attempt (a ∷ l) = ground (arith, length-resolve_attempt l)

  pub resolve_attempt-IsNumbered :
      (l : List Attempt) → IsNumbered l → IsNumbered (resolve_attempt p l).0
  unfolding resolve_attempt
  resolve_attempt-IsNumbered [] n = tt
  resolve_attempt-IsNumbered (a ∷ l) n =
      ground (arith, length-resolve_attempt l, resolve_attempt-IsNumbered l)

  pub resolve_attempt-AllClosed :
      (l : List Attempt) → AllClosed l → AllClosed (resolve_attempt p l).0
  unfolding resolve_attempt
  resolve_attempt-AllClosed [] c = tt
  resolve_attempt-AllClosed (a ∷ l) c = ground (arith, resolve_attempt-AllClosed l)

  -- The holder of the latest attempt finds it, and closes it.
  pub resolve_latest :
      (l : List Attempt)
      → p.attempt_number ≡ pos (length l)
      → p.lease_epoch ≡ pos (length l)
      → IsNumbered l
      → HeadOpen (some p.lease_owner_id) l
      → ((resolve_attempt p l).1 ≡ true) × AllClosed (resolve_attempt p l).0
  unfolding resolve_attempt
  resolve_latest [] n e num h = absurd h
  resolve_latest (a ∷ l) n e num h = ground (arith, resolve_attempt-AllClosed l)
