-- ===== src/Base/Trim.antt =====
-- The functions of Go's packages strings, unicode and utf8 that the program calls on text. The lower
-- case of a rune beyond ASCII is a table of the library: an argument here.
use Prim.Native.Nat.{ℕ, ◌+◌}
use mathlib.Core.Path.{◌≡◌, refl}
use mathlib.Core.Bool.{Bool, true, false, ◌&&◌, ◌||◌, not}
use mathlib.Core.List.{[], ◌∷◌}
use native.Mathlib.Omega.{arith}
use mail_suite.Base.Tests.{ltb, leb, ◌==◌, if◌then◌else◌}
use mail_suite.Base.Strings.{Text, rune_limit, is_empty, all, has_prefix}

-- `unicode.IsSpace`
unfoldable pub is_space : ℕ → Bool
is_space r =
    leb 0x09 r && leb r 0x0d
    || r == 0x20
    || r == 0x85
    || r == 0xa0
    || r == 0x1680
    || leb 0x2000 r && leb r 0x200a
    || r == 0x2028
    || r == 0x2029
    || r == 0x202f
    || r == 0x205f
    || r == 0x3000

-- `unicode.IsControl`
unfoldable pub is_control : ℕ → Bool
is_control r = ltb r 0x20 || leb 0x7f r && leb r 0x9f

-- `utf8.ValidString`
abbrev pub valid_string : Text → Bool
valid_string t = all (λ r. ltb r rune_limit) t

unfoldable pub trim_left : Text → Text
trim_left [] = []
trim_left (c ∷ t) = let rest = trim_left t in if is_space c then rest else c ∷ t

unfoldable pub trim_right : Text → Text
trim_right [] = []
trim_right (c ∷ t) = let rest = trim_right t in if is_space c && is_empty rest then [] else c ∷ rest

-- `strings.TrimSpace`
unfoldable pub trim_space : Text → Text
trim_space t = trim_right (trim_left t)

-- `strings.ToLower`: a byte that is no UTF-8 becomes the replacement character.
unfoldable pub lower_char : (ℕ → ℕ) → ℕ → ℕ
lower_char lower r =
    if leb b'A' r && leb r b'Z'
    then r + 32
    else if ltb r 0x80
    then r
    else if ltb r rune_limit
    then lower r
    else 0xfffd

unfoldable pub to_lower : (ℕ → ℕ) → Text → Text
unfolding lower_char
to_lower lower [] = []
to_lower lower (c ∷ t) = lower_char lower c ∷ to_lower lower t

-- `strings.HasSuffix(t, ".")`, for a suffix of one rune.
unfoldable pub ends_with : ℕ → Text → Bool
ends_with d [] = false
ends_with d (c ∷ []) = c == d
ends_with d (c ∷ b ∷ t) = ends_with d (b ∷ t)

-- `strings.Contains(t, p)`
unfoldable pub contains : Text → Text → Bool
contains [] p = has_prefix [] p
contains (c ∷ t) p = has_prefix (c ∷ t) p || contains t p

-- Trimming twice is trimming once.
trim_right_idem : (t : Text) → trim_right (trim_right t) ≡ trim_right t
unfolding trim_right
trim_right_idem [] = refl
trim_right_idem (c ∷ t) = ground (arith, trim_right_idem t)

-- A text that starts with no space is left alone on the left.
starts_solid : Text → Bool
starts_solid [] = true
starts_solid (c ∷ t) = not (is_space c)

trim_left-of_solid : (t : Text) → starts_solid t ≡ true → trim_left t ≡ t
unfolding starts_solid trim_left
trim_left-of_solid [] h = refl
trim_left-of_solid (c ∷ t) h = ground arith

trim_left-solid : (t : Text) → starts_solid (trim_left t) ≡ true
unfolding starts_solid trim_left
trim_left-solid [] = refl
trim_left-solid (c ∷ t) = ground (arith, trim_left-solid t)

trim_right-solid : (t : Text) → starts_solid t ≡ true → starts_solid (trim_right t) ≡ true
unfolding starts_solid trim_right
trim_right-solid [] h = refl
trim_right-solid (c ∷ t) h = ground arith

pub trim_space_idem : (t : Text) → trim_space (trim_space t) ≡ trim_space t
unfolding trim_space
trim_space_idem t =
    let solid = trim_right-solid (trim_left t) (trim_left-solid t) in
    rw (trim_left-of_solid (trim_right (trim_left t)) solid) (trim_right_idem (trim_left t))

-- A text without spaces is left alone.
trim_left-of_all : (t : Text) → all (λ c. not (is_space c)) t ≡ true → trim_left t ≡ t
unfolding trim_left
trim_left-of_all [] h = refl
trim_left-of_all (c ∷ t) h = ground arith

trim_right-of_all : (t : Text) → all (λ c. not (is_space c)) t ≡ true → trim_right t ≡ t
unfolding trim_right
trim_right-of_all [] h = refl
trim_right-of_all (c ∷ t) h = ground (arith, trim_right-of_all t)

pub trim_space-of_all : (t : Text) → all (λ c. not (is_space c)) t ≡ true → trim_space t ≡ t
unfolding trim_space
trim_space-of_all t h = rw (trim_left-of_all t h) (trim_right-of_all t h)
