-- ===== src/Base/Strings.antt =====
-- Go strings as lists of runes, the way a `range` loop and package utf8 read them: a code point
-- below `rune_limit` for each valid UTF-8 sequence, and `rune_limit + b` for each byte `b` that
-- belongs to none. The two readings of a string determine one another.
use Prim.Native.Nat.{ℕ, ◌+◌}
use Prim.Native.Char.{code}
use Prim.Native.String.{String}
use mathlib.Core.Path.{◌≡◌, refl}
use mathlib.Core.Bool.{Bool, true, false, ◌&&◌}
use mathlib.Core.List.{List, [], ◌∷◌}
use native.Mathlib.Omega.{arith}
use mail_suite.Base.Tests.{ltb, ◌==◌, if◌then◌else◌}

abbrev pub Text : Type 0
Text = List ℕ

-- A string literal of the source.
abbrev pub codes : String → Text
codes String.[] = []
codes (String.◌∷◌ c s) = code c ∷ codes s

abbrev pub rune_limit : ℕ
rune_limit = 0x110000

infix 50 ◌=ₜ◌
abbrev pub ◌=ₜ◌ : Text → Text → Bool
[] =ₜ [] = true
[] =ₜ (d ∷ u) = false
(c ∷ t) =ₜ [] = false
(c ∷ t) =ₜ (d ∷ u) = c == d && t =ₜ u

pub =ₜ→eq : (t u : Text) → (t =ₜ u) ≡ true → t ≡ u
=ₜ→eq [] [] h = refl
=ₜ→eq [] (d ∷ u) h = ground arith
=ₜ→eq (c ∷ t) [] h = ground arith
=ₜ→eq (c ∷ t) (d ∷ u) h = ground (arith, =ₜ→eq t u)

pub =ₜ_refl : (t : Text) → (t =ₜ t) ≡ true
=ₜ_refl [] = refl
=ₜ_refl (c ∷ t) = ground (arith, =ₜ_refl t)

-- `t == ""`
abbrev pub is_empty : Text → Bool
is_empty [] = true
is_empty (c ∷ t) = false

-- How many bytes UTF-8 spends on a rune.
abbrev pub rune_len : ℕ → ℕ
rune_len r =
    if ltb r 0x80
    then 1
    else if ltb r 0x800
    then 2
    else if ltb r 0x10000
    then 3
    else if ltb r rune_limit
    then 4
    else 1

-- `len(t)`: the bytes of a string.
abbrev pub byte_len : Text → ℕ
byte_len [] = 0
byte_len (c ∷ t) = rune_len c + byte_len t

abbrev pub all : (ℕ → Bool) → Text → Bool
all p [] = true
all p (c ∷ t) = p c && all p t

-- `strings.HasPrefix(t, p)`
abbrev pub has_prefix : Text → Text → Bool
has_prefix t [] = true
has_prefix [] (d ∷ p) = false
has_prefix (c ∷ t) (d ∷ p) = c == d && has_prefix t p
