-- ===== src/Provisioning/LocalPart.antt =====
-- Which local parts are accepted, in the words of RFC 5322: dot-atoms in lower case.
use mail_suite.Base.{
  ℕ, ◌≤◌, ◌≡◌, refl, ◌≢◌, ◌↔◌, inl, inr, Text, codes, true, false, not, [], ◌∷◌, arith, Bool-cases,
  ◌==◌, =ₜ_refl, byte_len, all, has_prefix, is_space, trim_space-of_all, ends_with, contains,
  is_empty,
}
use mail_suite.Provisioning.{is_local_char, matches_all, rejects_local_part}

-- A character of an atom: no dot, no upper case letter, no space, no control character.
pub record IsAtomChar (c : ℕ) : Type 0 where
  pub allowed : is_local_char c ≡ true
  pub no_dot : c ≢ b'.'

pub data DotAtom : Text → Type 0 where
  last : (c : ℕ) → IsAtomChar c → DotAtom (c ∷ [])
  more : (c : ℕ) {t : Text} → IsAtomChar c → DotAtom t → DotAtom (c ∷ t)
  dot : (c d : ℕ) {t : Text} → d ≡ b'.' → IsAtomChar c → DotAtom t → DotAtom (c ∷ d ∷ t)

DotAtom-of_tests :
    (c : ℕ) (t : Text)
    → IsAtomChar c
    → all is_local_char t ≡ true
    → ends_with b'.' (c ∷ t) ≡ false
    → contains (c ∷ t) (codes "..") ≡ false
    → DotAtom (c ∷ t)
unfolding ends_with contains
DotAtom-of_tests c [] a h e n = last c a
DotAtom-of_tests c (d ∷ []) a h e n = more c a (last d (ground arith))
DotAtom-of_tests c (d ∷ x ∷ t) a h e n = elim (Bool-cases (d == b'.')) [
  | inl point ↦
      dot c d (ground arith) a
        (DotAtom-of_tests x t (ground arith) (ground arith) (ground arith) (ground arith))
  | inr other ↦
      more c a
        (DotAtom-of_tests d (x ∷ t) (ground arith) (ground arith) (ground arith) (ground arith))
]

local_char-solid : (c : ℕ) → is_local_char c ≡ true → not (is_space c) ≡ true
unfolding is_local_char is_space
local_char-solid c h = ground arith

all-solid : (t : Text) → all is_local_char t ≡ true → all (λ c. not (is_space c)) t ≡ true
all-solid [] h = refl
all-solid (c ∷ t) h = ground (arith, local_char-solid c, all-solid t)

-- What a dot-atom passes.
record Passes (t : Text) : Type 0 where
  chars : matches_all is_local_char t ≡ true
  all_chars : all is_local_char t ≡ true
  start : has_prefix t (codes ".") ≡ false
  end : ends_with b'.' t ≡ false
  dots : contains t (codes "..") ≡ false

dot_allowed : is_local_char b'.' ≡ true
unfolding is_local_char
dot_allowed = refl

Passes-more : (c : ℕ) (t : Text) → IsAtomChar c → Passes t → Passes (c ∷ t)
unfolding ends_with contains
Passes-more c [] a p = absurd (cc (p.chars))
Passes-more c (x ∷ t) a p = ground arith

Passes-dot : (c : ℕ) (t : Text) → IsAtomChar c → Passes t → Passes (c ∷ b'.' ∷ t)
unfolding ends_with contains
Passes-dot c [] a p = absurd (cc (p.chars))
Passes-dot c (x ∷ t) a p = ground (arith, dot_allowed)

DotAtom-Passes : {t : Text} → DotAtom t → Passes t
unfolding ends_with contains
DotAtom-Passes (last c a) = ground arith
DotAtom-Passes (more c {t} a r) = Passes-more c t a (DotAtom-Passes r)
DotAtom-Passes (dot c d {t} e a r) = rw e (Passes-dot c t a (DotAtom-Passes r))

not-empty : (t : Text) → matches_all is_local_char t ≡ true → is_empty t ≡ false
not-empty [] h = cc
not-empty (c ∷ t) h = refl

accepted-DotAtom : (t : Text) → rejects_local_part t ≡ false → DotAtom t
unfolding rejects_local_part
accepted-DotAtom [] h = absurd (cc)
accepted-DotAtom (c ∷ t) h =
    DotAtom-of_tests c t (ground arith) (ground arith) (ground arith) (ground arith)

-- The guard of `prepareRequest` accepts exactly the dot-atoms of at most 64 bytes.
pub rejects_local_part_exact :
    (t : Text) → (rejects_local_part t ≡ false) ↔ DotAtom t × (byte_len t ≤ 64)
unfolding rejects_local_part
rejects_local_part_exact t = (
  λ h. (accepted-DotAtom t h, ground arith),
  λ a.
      let p = DotAtom-Passes a.0 in
      rw (trim_space-of_all t (all-solid t p.all_chars))
        (ground (arith, =ₜ_refl t, not-empty t p.chars, p.start, p.end, p.dots, p.chars, a.1)),
)

pub all_local_char-of_accepted :
    (t : Text) → rejects_local_part t ≡ false → all is_local_char t ≡ true
all_local_char-of_accepted t h = (DotAtom-Passes (accepted-DotAtom t h)).all_chars
