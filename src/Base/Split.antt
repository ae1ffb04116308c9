-- ===== src/Base/Split.antt =====
-- `strings.Split` and `strings.Count` on a separator of one rune, and the parts of what was joined.
use Prim.Native.Nat.{ℕ, zero, suc, ◌+◌, ◌/◌, ◌%◌, ◌<◌}
use mathlib.Core.Path.{◌≡◌, refl}
use mathlib.Core.Bool.{Bool, true, not}
use mathlib.Core.List.{List, [], ◌∷◌, ◌++◌}
use native.Mathlib.Omega.{arith}
use mail_suite.Base.Tests.{◌==◌, if◌then◌else◌}
use mail_suite.Base.Int.{ℤ, pos, negsuc}
use mail_suite.Base.Strings.{Text, all}
use mail_suite.Base.Numerals.{decimal_onto, print_int_onto, hex_digit, hex_onto}

-- A rune in front of the first part.
unfoldable pub grow : ℕ → List Text → List Text
grow c [] = (c ∷ []) ∷ []
grow c (part ∷ parts) = (c ∷ part) ∷ parts

-- `strings.Split(t, sep)`
unfoldable pub split : ℕ → Text → List Text
split sep [] = [] ∷ []
split sep (c ∷ t) = let parts = split sep t in if c == sep then [] ∷ parts else grow c parts

-- `strings.Count(t, sep)`
unfoldable pub count : ℕ → Text → ℕ
count sep [] = 0
count sep (c ∷ t) = let more = count sep t in if c == sep then suc more else more

-- `strings.Cut(t, sep)`: what is before the first separator, and what is behind it.
unfoldable pub before : ℕ → Text → Text
before sep [] = []
before sep (c ∷ t) = let more = before sep t in if c == sep then [] else c ∷ more

unfoldable pub after : ℕ → Text → Text
after sep [] = []
after sep (c ∷ t) = let more = after sep t in if c == sep then t else more

-- No rune of the text is the separator.
abbrev pub lacks : ℕ → Text → Bool
lacks sep t = all (λ c. not (c == sep)) t

pub split-joined :
    (sep : ℕ) (part rest : Text)
    → lacks sep part ≡ true
    → split sep (part ++ sep ∷ rest) ≡ part ∷ split sep rest
unfolding split grow
split-joined sep [] rest h = ground arith
split-joined sep (c ∷ part) rest h = ground (arith, split-joined sep part rest)

pub split-single : (sep : ℕ) (part : Text) → lacks sep part ≡ true → split sep part ≡ part ∷ []
unfolding split grow
split-single sep [] h = refl
split-single sep (c ∷ part) h = ground (arith, split-single sep part)

pub lacks-decimal_onto :
    (k n : ℕ) (rest : Text) → lacks b':' rest ≡ true → lacks b':' (decimal_onto k n rest) ≡ true
unfolding decimal_onto
lacks-decimal_onto zero n rest h = h
lacks-decimal_onto (suc k) n rest h =
    ground (arith, lacks-decimal_onto k (n / 10) ((b'0' + n % 10) ∷ rest))

pub lacks-print_int : (a : ℤ) → lacks b':' (print_int_onto a []) ≡ true
unfolding print_int_onto
lacks-print_int (pos n) = lacks-decimal_onto 20 n [] refl
lacks-print_int (negsuc n) = lacks-decimal_onto 20 (suc n) [] refl

hex_digit-colon : (d : ℕ) → d < 16 → not (hex_digit d == b':') ≡ true
unfolding hex_digit
hex_digit-colon d h = ground arith

pub lacks-hex_onto :
    (k n : ℕ) (rest : Text) → lacks b':' rest ≡ true → lacks b':' (hex_onto k n rest) ≡ true
unfolding hex_onto
lacks-hex_onto zero n rest h = h
lacks-hex_onto (suc k) n rest h =
    lacks-hex_onto k (n / 16) (hex_digit (n % 16) ∷ rest)
      (ground (arith, hex_digit-colon (n % 16) (omega arith)))
