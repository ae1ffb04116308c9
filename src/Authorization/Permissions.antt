-- ===== src/Authorization/Permissions.antt =====
-- `HasPermission` finds what the session grants: sorting and searching lose nothing.
use mail_suite.Base.{
  ◌≡◌, refl, ◌⊎◌, inl, inr, ◌↔◌, sym, Text, true, false, List, [], ◌∷◌, arith, Bool-cases, ◌=ₜ◌,
  =ₜ→eq, =ₜ_refl,
}
use mail_suite.Authorization.{less, insert, sort, from_search, starts_with}

less_irrefl : (t : Text) → less t t ≡ false
unfolding less
less_irrefl [] = refl
less_irrefl (c ∷ t) = ground (arith, less_irrefl t)

less_trans : (t u v : Text) → less t u ≡ true → less u v ≡ true → less t v ≡ true
unfolding less
less_trans t [] v p q = cc
less_trans t (d ∷ u) [] p q = cc
less_trans [] (d ∷ u) (e ∷ v) p q = refl
less_trans (c ∷ t) (d ∷ u) (e ∷ v) p q = ground (arith, less_trans t u v)

-- Two texts of which neither is less are equal.
less_total : (t u : Text) → less t u ≡ false → less u t ≡ false → t ≡ u
unfolding less
less_total [] [] p q = refl
less_total [] (d ∷ u) p q = cc
less_total (c ∷ t) [] p q = cc
less_total (c ∷ t) (d ∷ u) p q = ground (arith, less_total t u)

less_asym : (t u : Text) → less t u ≡ true → less u t ≡ false
less_asym t u h = ground (arith, less_irrefl t, less_trans t u t)

not_less_trans : (p q r : Text) → less q p ≡ false → less r q ≡ false → less r p ≡ false
not_less_trans p q r h k = elim (Bool-cases (less q r)) [
  | inl below ↦ ground (arith, less_trans q r p)
  | inr equal ↦ rw (less_total r q k equal) h
]

-- No element is less than one before it.
abbrev NoneBelow : Text → List Text → Type 0
NoneBelow p [] = Unit {0}
NoneBelow p (q ∷ l) = (less q p ≡ false) × NoneBelow p l

abbrev IsSorted : List Text → Type 0
IsSorted [] = Unit {0}
IsSorted (p ∷ l) = NoneBelow p l × IsSorted l

NoneBelow-trans : (p q : Text) (l : List Text) → less q p ≡ false → NoneBelow q l → NoneBelow p l
NoneBelow-trans p q [] h n = tt
NoneBelow-trans p q (r ∷ l) h n = (not_less_trans p q r h n.0, NoneBelow-trans p q l h n.1)

NoneBelow-insert :
    (p q : Text) (l : List Text) → less q p ≡ false → NoneBelow p l → NoneBelow p (insert q l)
unfolding insert
NoneBelow-insert p q [] h n = (h, tt)
NoneBelow-insert p q (r ∷ l) h n = ground (arith, NoneBelow-insert p q l)

insert-IsSorted : (p : Text) (l : List Text) → IsSorted l → IsSorted (insert p l)
unfolding insert
insert-IsSorted p [] s = (tt, tt)
insert-IsSorted p (q ∷ l) s = elim (Bool-cases (less q p)) [
  | inl e ↦ rw e (NoneBelow-insert q p l (less_asym q p e) s.0, insert-IsSorted p l s.1)
  | inr e ↦ rw e ((e, NoneBelow-trans p q l e s.0), s)
]

sort-IsSorted : (l : List Text) → IsSorted (sort l)
unfolding sort
sort-IsSorted [] = tt
sort-IsSorted (p ∷ l) = insert-IsSorted p (sort l) (sort-IsSorted l)

-- A text is an element of a list.
abbrev pub IsIn : Text → List Text → Type 0
IsIn p [] = ⊥
IsIn p (q ∷ l) = (p ≡ q) ⊎ IsIn p l

insert-IsIn : (p q : Text) (l : List Text) → IsIn p (insert q l) ↔ (p ≡ q) ⊎ IsIn p l
unfolding insert
insert-IsIn p q [] = (λ m. m, λ m. m)
insert-IsIn p q (r ∷ l) = elim (Bool-cases (less r q)) [
  | inl e ↦
      rw e (λ m. ground (arith, (insert-IsIn p q l).0), λ m. ground (arith, (insert-IsIn p q l).1))
  | inr e ↦ rw e (λ m. m, λ m. m)
]

sort-IsIn : (p : Text) (l : List Text) → IsIn p (sort l) ↔ IsIn p l
unfolding sort
sort-IsIn p [] = (λ m. m, λ m. m)
sort-IsIn p (q ∷ l) = (
  λ m. ground (arith, (insert-IsIn p q (sort l)).0 m, (sort-IsIn p l).0),
  λ m. (insert-IsIn p q (sort l)).1 (ground (arith, (sort-IsIn p l).1)),
)

below_IsIn : (p q : Text) (l : List Text) → NoneBelow q l → IsIn p l → less p q ≡ false
below_IsIn p q [] n m = absurd m
below_IsIn p q (r ∷ l) n (inl e) = rw e n.0
below_IsIn p q (r ∷ l) n (inr m) = below_IsIn p q l n.1 m

skip : (p q : Text) (l : List Text) → less q p ≡ true → IsIn p (q ∷ l) → IsIn p l
skip p q l e (inl same) = absurd (cc (rw same at e, less_irrefl q))
skip p q l e (inr m) = m

first :
    (p q : Text) (l : List Text)
    → NoneBelow q l
    → less q p ≡ false
    → IsIn p (q ∷ l)
    → (q =ₜ p) ≡ true
first p q l n e (inl same) = rw same (=ₜ_refl q)
first p q l n e (inr m) = rw (less_total q p e (below_IsIn p q l n m)) (=ₜ_refl p)

search-IsIn :
    (p : Text) (l : List Text) → IsSorted l → (starts_with (from_search l p) p ≡ true) ↔ IsIn p l
unfolding from_search
search-IsIn p [] s = (λ e. cc, λ m. absurd m)
search-IsIn p (q ∷ l) s = elim (Bool-cases (less q p)) [
  | inl e ↦
      rw e (λ h. inr ((search-IsIn p l s.1).0 h), λ m. (search-IsIn p l s.1).1 (skip p q l e m))
  | inr e ↦ rw e (λ h. inl (sym (=ₜ→eq q p h)), λ m. first p q l s.0 e m)
]

-- The binary search of a sorted list of permissions finds exactly its members.
pub search_sorted :
    (p : Text) (l : List Text) → (starts_with (from_search (sort l) p) p ≡ true) ↔ IsIn p l
search_sorted p l = (
  λ h. (sort-IsIn p l).0 ((search-IsIn p (sort l) (sort-IsSorted l)).0 h),
  λ m. (search-IsIn p (sort l) (sort-IsSorted l)).1 ((sort-IsIn p l).1 m),
)
