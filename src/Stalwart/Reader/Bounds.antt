-- ===== src/Stalwart/Reader/Bounds.antt =====
-- How long the text of a message can get.
use mail_suite.Base.{
  ℕ, ◌+◌, ◌-◌, ◌≤◌, ◌<◌, ◌≡◌, refl, subst, Text, Bool, true, false, ◌||◌, not, Option, some, List,
  [], ◌∷◌, ◌++◌, ltb, leb, is_empty, byte_len, rune_len, arith, if◌then◌else◌,
}
use mail_suite.Errors.{Error, Result, ok, fail}
use mail_suite.Stalwart.Mail.{EmailBodyPart, BodyValue}
use mail_suite.Stalwart.Reader.Message.{
  maximum_text_bytes, clip, separated, value_or_zero, is_there, body_text,
}

pub byte_len-append : (t u : Text) → byte_len (t ++ u) ≡ byte_len t + byte_len u
byte_len-append [] u = omega arith
byte_len-append (c ∷ t) u = omega (arith, byte_len-append t u)

byte_len-clip : (n : ℕ) (t : Text) → byte_len (clip n t) ≤ n
unfolding clip
byte_len-clip n [] = omega arith
byte_len-clip n (c ∷ t) = ground (arith, byte_len-clip (n - rune_len c) t)

byte_len-separated : (t : Text) → byte_len (separated t) ≤ byte_len t + 1
unfolding separated
byte_len-separated [] = omega arith
byte_len-separated (c ∷ t) = omega (arith, byte_len-append (c ∷ t) (b'\n' ∷ []))

below : (m n : ℕ) → leb m n ≡ false → n < m
below m n h = ground arith

fitting : (m n : ℕ) → ltb m n ≡ false → n ≤ m
fitting m n h = ground arith

-- The text of a result, if there is one, is at most one byte over the limit.
data Short : Result (Text × Bool) → Type 0 where
  short :
      {text : Text} {truncated : Bool}
      → byte_len text ≤ maximum_text_bytes + 1
      → Short (ok (text, truncated))
  refused : {e : Error} → Short (fail e)

short-if :
    (c : Bool) (r s : Result (Text × Bool))
    → (c ≡ true → Short r)
    → (c ≡ false → Short s)
    → Short (if c then r else s)
short-if true r s hr hs = hr refl
short-if false r s hr hs = hs refl

body_text-Short :
    (values : Text → Option BodyValue) (parts : List EmailBodyPart) (text : Text) (truncated : Bool)
    → byte_len text ≤ maximum_text_bytes
    → Short (body_text values parts text truncated)
unfolding body_text
body_text-Short values [] text truncated small = short (omega arith)
body_text-Short values (part ∷ parts) text truncated small =
    let value : BodyValue = value_or_zero (values part.part_id) in
    let longer : Text = separated text in
    let room : ℕ = maximum_text_bytes - byte_len longer in
    let one_more = byte_len-separated text in
    short-if (is_empty part.part_id || not (is_there (values part.part_id))) _ _ (λ _. refused)
      λ _.
        short-if (leb maximum_text_bytes (byte_len longer)) _ _
          (λ _. short (omega (arith, one_more)))
          λ some_room.
            short-if (ltb room (byte_len value.value)) _ _
              (λ _. short (
                omega (
                  arith,
                  below maximum_text_bytes (byte_len longer) some_room,
                  byte_len-append longer (clip room value.value),
                  byte_len-clip room value.value,
                )))
              λ fits.
                body_text-Short values parts (longer ++ value.value)
                  (truncated || value.is_truncated)
                  (omega (
                    arith,
                    byte_len-append longer value.value,
                    below maximum_text_bytes (byte_len longer) some_room,
                    fitting room (byte_len value.value) fits,
                  ))

same_text :
    (t : Text) (b : Bool) (s : Text × Bool)
    → ◌≡◌ {A = Result (Text × Bool)} (ok (t, b)) (ok s)
    → t ≡ s.0
same_text t b s e = cc

short_text :
    (r : Result (Text × Bool)) (s : Text × Bool)
    → Short r
    → r ≡ ok s
    → byte_len s.0 ≤ maximum_text_bytes + 1
short_text (ok (t, b)) s (short h) e =
    subst (λ x. byte_len x ≤ maximum_text_bytes + 1) (same_text t b s e) h
short_text (fail d) s refused e = cc

filled : (t : Text) → byte_len t ≡ maximum_text_bytes → is_empty t ≡ false
filled [] h = absurd (omega (arith, h))
filled (c ∷ t) h = refl

overfull :
    (t : Text)
    → byte_len t ≡ maximum_text_bytes
    → byte_len (t ++ b'\n' ∷ []) ≡ maximum_text_bytes + 1
overfull t full = omega (arith, full, byte_len-append t (b'\n' ∷ []))

full_text :
    (values : Text → Option BodyValue) (p q : EmailBodyPart) (v u : BodyValue)
    → is_empty p.part_id ≡ false
    → is_empty q.part_id ≡ false
    → values p.part_id ≡ some v
    → values q.part_id ≡ some u
    → byte_len v.value ≡ maximum_text_bytes
    → body_text values (p ∷ q ∷ []) [] false ≡ ok (v.value ++ b'\n' ∷ [], true)
unfolding body_text separated value_or_zero
full_text values p q v u hp hq fp fq full =
    rw (fp, fq) (ground (arith, hp, hq, full, filled v.value full, overfull v.value full))

-- The text of a message is at most one byte over 65536, whatever the server sends.
pub text_bounded :
    (values : Text → Option BodyValue) (parts : List EmailBodyPart) (text : Text) (truncated : Bool)
    → body_text values parts [] false ≡ ok (text, truncated)
    → byte_len text ≤ maximum_text_bytes + 1
text_bounded values parts text truncated h =
    short_text _ (text, truncated) (body_text-Short values parts [] false (omega arith)) h

-- A part of exactly 65536 bytes that another part follows gives a text of 65537 bytes, one over the limit
-- of the code: where both parts have an id and a value.
pub text_overfull :
    (values : Text → Option BodyValue) (p q : EmailBodyPart) (v u : BodyValue)
    → is_empty p.part_id ≡ false
    → is_empty q.part_id ≡ false
    → values p.part_id ≡ some v
    → values q.part_id ≡ some u
    → byte_len v.value ≡ maximum_text_bytes
    → (text : Text) × (body_text values (p ∷ q ∷ []) [] false ≡ ok (text, true))
      × (byte_len text ≡ maximum_text_bytes + 1)
text_overfull values p q v u hp hq fp fq full =
    (v.value ++ b'\n' ∷ [], full_text values p q v u hp hq fp fq full, overfull v.value full)
