-- ===== src/Base/Numerals.antt =====
-- Numbers as text: what packages fmt, strconv, encoding/hex and encoding/binary do with the integers
-- that the program prints, reads and hashes. Digits are put in front of a text, the last one first,
-- as the packages fill their buffers.
use Prim.Native.Nat.{ℕ, zero, suc, ◌+◌, ◌-◌, ◌*◌, ◌/◌, ◌%◌, ◌^◌, ◌<◌, ◌≤◌}
use mathlib.Core.Path.{◌≡◌, refl, ◌∙◌}
use mathlib.Core.Bool.{Bool, true, false, ◌&&◌}
use mathlib.Core.Option.{Option, none, some}
use mathlib.Core.List.{List, [], ◌∷◌}
use native.Mathlib.Omega.{arith}
use mathlib.Core.Logic.{inl, inr}
use mail_suite.Base.Tests.{ltb, leb, ◌==◌, if◌then◌else◌, Bool-cases}
use mail_suite.Base.Strings.{Text}
use mail_suite.Base.Lists.{length}
use mail_suite.Base.Int.{ℤ, pos, negsuc, max_int64, IsInt64}

-- The decimal digits of a number in front of a text; the fuel bounds the digits.
unfoldable pub decimal_onto : ℕ → ℕ → Text → Text
decimal_onto zero n rest = rest
decimal_onto (suc k) n rest =
    let more : Text = decimal_onto k (n / 10) ((b'0' + n % 10) ∷ rest) in
    if ltb n 10 then (b'0' + n) ∷ rest else more

-- `%d` for an `int64`, which has at most 19 digits, in front of a text.
unfoldable pub print_int_onto : ℤ → Text → Text
print_int_onto (pos n) rest = decimal_onto 20 n rest
print_int_onto (negsuc n) rest = b'-' ∷ decimal_onto 20 (suc n) rest

-- The loop of `strconv.ParseUint(s, 10, …)`.
unfoldable pub decimal_from : ℕ → Text → Option ℕ
decimal_from acc [] = some acc
decimal_from acc (c ∷ t) =
    let more : Option ℕ = decimal_from (acc * 10 + (c - b'0')) t in
    if leb b'0' c && leb c b'9' then more else none

unfoldable pub parse_unsigned : Text → Option ℕ
parse_unsigned [] = none
parse_unsigned (c ∷ t) = decimal_from 0 (c ∷ t)

-- The range check of `strconv.ParseInt`, for 64 bits.
unfoldable pub in_range : Bool → ℕ → Option ℤ
in_range true zero = some (pos zero)
in_range true (suc n) = if leb n max_int64 then some (negsuc n) else none
in_range false n = if leb n max_int64 then some (pos n) else none

-- `strconv.ParseInt(s, 10, 64)`, without a value on an error.
unfoldable pub parse_int : Text → Option ℤ
parse_int [] = none
parse_int (c ∷ t) =
    if c == b'-'
    then elim (parse_unsigned t) [ none ↦ none | some n ↦ in_range true n ]
    else if c == b'+'
    then elim (parse_unsigned t) [ none ↦ none | some n ↦ in_range false n ]
    else elim (parse_unsigned (c ∷ t)) [ none ↦ none | some n ↦ in_range false n ]

unfoldable pub hex_digit : ℕ → ℕ
hex_digit d = if ltb d 10 then b'0' + d else b'a' + d - 10

unfoldable pub hex_value : ℕ → Option ℕ
hex_value c =
    if leb b'0' c && leb c b'9'
    then some (c - b'0')
    else if leb b'a' c && leb c b'f'
    then some (c - b'a' + 10)
    else if leb b'A' c && leb c b'F'
    then some (c - b'A' + 10)
    else none

-- `hex.EncodeToString` of the big-endian bytes of a number, as so many digits, in front of a text.
unfoldable pub hex_onto : ℕ → ℕ → Text → Text
hex_onto zero n rest = rest
hex_onto (suc k) n rest = hex_onto k (n / 16) (hex_digit (n % 16) ∷ rest)

unfoldable pub hex_from : ℕ → Text → Option ℕ
hex_from acc [] = some acc
hex_from acc (c ∷ t) = elim (hex_value c) [ none ↦ none | some d ↦ hex_from (acc * 16 + d) t ]

-- `hex.DecodeString` together with the test for 32 bytes: all 64 digits, in either case.
unfoldable pub decode_hex32 : Text → Option ℕ
decode_hex32 t = if length t == 64 then hex_from 0 t else none

-- The big-endian bytes of a number, as so many, in front of a list of bytes.
unfoldable pub big_endian_onto : ℕ → ℕ → List ℕ → List ℕ
big_endian_onto zero n rest = rest
big_endian_onto (suc k) n rest = big_endian_onto k (n / 256) ((n % 256) ∷ rest)

-- `uint64(a)`
unfoldable pub as_uint64 : ℤ → ℕ
as_uint64 (pos n) = n % 18446744073709551616
as_uint64 (negsuc n) = 18446744073709551615 - n % 18446744073709551616

pub decimal_from-decimal_onto :
    (k n : ℕ) (rest : Text)
    → n < 10 ^ k
    → 0 < k
    → decimal_from 0 (decimal_onto k n rest) ≡ decimal_from n rest
unfolding decimal_onto decimal_from
decimal_from-decimal_onto zero n rest h p = absurd (omega arith)
decimal_from-decimal_onto (suc zero) n rest h p = ground arith
decimal_from-decimal_onto (suc (suc k)) n rest h p =
    let later =
      decimal_from-decimal_onto (suc k) (n / 10) ((b'0' + n % 10) ∷ rest) (omega arith)
        (omega arith) in
    ground (arith, later)

-- A printed number starts with a digit.
abbrev StartsDecimal : ℕ → ℕ → Text → Type 0
StartsDecimal k n rest =
    (c : ℕ) × (t : Text) × (decimal_onto k n rest ≡ c ∷ t) × (b'0' ≤ c) × (c ≤ b'9')

decimal_onto-digit : (k n : ℕ) (rest : Text) → n < 10 ^ k → 0 < k → StartsDecimal k n rest
unfolding decimal_onto
decimal_onto-digit zero n rest h p = absurd (omega arith)
decimal_onto-digit (suc zero) n rest h p = (b'0' + n, rest, ground arith, omega arith, omega arith)
decimal_onto-digit (suc (suc k)) n rest h p =
    let (c, t, e, lo, hi) =
      decimal_onto-digit (suc k) (n / 10) ((b'0' + n % 10) ∷ rest) (omega arith) (omega arith) in
    elim (Bool-cases (ltb n 10)) [
      | inl small ↦ (b'0' + n, rest, ground arith, omega arith, ground arith)
      | inr large ↦ (c, t, ground (arith, e), lo, hi)
    ]

pub decimal_from-end : (n : ℕ) → decimal_from n [] ≡ some n
unfolding decimal_from
decimal_from-end n = refl

parse_int-unsigned :
    (c n : ℕ) (t u : Text)
    → u ≡ c ∷ t
    → b'0' ≤ c
    → c ≤ b'9'
    → decimal_from 0 u ≡ some n
    → parse_int u ≡ in_range false n
unfolding parse_int parse_unsigned
parse_int-unsigned c n t [] e lo hi d = cc
parse_int-unsigned c n t (b ∷ u) e lo hi d = ground arith

parse_int-negative :
    (c n : ℕ) (t u : Text)
    → u ≡ c ∷ t
    → decimal_from 0 u ≡ some n
    → parse_int (b'-' ∷ u) ≡ in_range true n
unfolding parse_int parse_unsigned
parse_int-negative c n t [] e d = cc
parse_int-negative c n t (b ∷ u) e d = ground arith

-- `ParseInt` reads back every `int64` that `%d` printed.
pub parse_int-print_int : (a : ℤ) → IsInt64 a → parse_int (print_int_onto a []) ≡ some a
unfolding print_int_onto
parse_int-print_int (pos n) h =
    let small : n < 10 ^ 20 = omega arith in
    let (c, t, e, lo, hi) = decimal_onto-digit 20 n [] small (omega arith) in
    parse_int-unsigned c n t _ e lo hi
      (decimal_from-decimal_onto 20 n [] small (omega arith) ∙ decimal_from-end _)
    ∙ unfold in_range in ground arith
parse_int-print_int (negsuc n) h =
    let small : suc n < 10 ^ 20 = omega arith in
    let (c, t, e, lo, hi) = decimal_onto-digit 20 (suc n) [] small (omega arith) in
    parse_int-negative c (suc n) t _ e
      (decimal_from-decimal_onto 20 (suc n) [] small (omega arith) ∙ decimal_from-end _)
    ∙ unfold in_range in ground arith

hex_value-hex_digit : (d : ℕ) → d < 16 → hex_value (hex_digit d) ≡ some d
unfolding hex_value hex_digit
hex_value-hex_digit d h = ground arith

hex_from-hex_onto :
    (k n : ℕ) (rest : Text) → n < 16 ^ k → hex_from 0 (hex_onto k n rest) ≡ hex_from n rest
unfolding hex_onto
hex_from-hex_onto zero n rest h = ground arith
hex_from-hex_onto (suc k) n rest h =
    hex_from-hex_onto k (n / 16) (hex_digit (n % 16) ∷ rest) (omega arith)
    ∙ (unfold hex_from in ground (arith, hex_value-hex_digit (n % 16) (omega arith)))

length-hex_onto : (k n : ℕ) (rest : Text) → length (hex_onto k n rest) ≡ k + length rest
unfolding hex_onto
length-hex_onto zero n rest = omega arith
length-hex_onto (suc k) n rest =
    omega (arith, length-hex_onto k (n / 16) (hex_digit (n % 16) ∷ rest))

hex_from-end : (n : ℕ) → hex_from n [] ≡ some n
unfolding hex_from
hex_from-end n = refl

-- The text of a 256-bit digest decodes to the digest.
pub decode_hex32-hex_onto : (n : ℕ) → n < 16 ^ 64 → decode_hex32 (hex_onto 64 n []) ≡ some n
unfolding decode_hex32
decode_hex32-hex_onto n h =
    let read : hex_from 0 (hex_onto 64 n []) ≡ some n =
      hex_from-hex_onto 64 n [] h ∙ hex_from-end n in
    ground (arith, length-hex_onto 64 n [], read)
