-- ===== src/Identity/Pkce.antt =====
-- src/backend/internal/identity/pkce.go: the verifiers of PKCE and their envelopes. A ciphertext is
-- a list of bytes; the cipher of a key is Go's AES-256-GCM.
use mail_suite.Base.{
  ℕ, ◌≡◌, refl, ap, ◌∙◌, ◌<◌, Text, codes, Bool, true, false, ◌&&◌, ◌||◌, not, Option, none, some,
  List, [], ◌∷◌, ◌++◌, arith, ltb, leb, ◌==◌, ◌=ₜ◌, is_empty, byte_len, all, length, zero, suc,
  trim_space, length-append, if◌then◌else◌,
}
use mail_suite.Errors.{
  Cause, plain, Result, ok, fail, ◌>>◌, reject_if, invalid_request, auth_flow_invalid,
  persistence_unavailable,
}
use mail_suite.Identity.{new_error}

-- `validPKCEVerifier`
unfoldable pub is_unreserved : ℕ → Bool
is_unreserved c =
    leb b'a' c && leb c b'z'
    || leb b'A' c && leb c b'Z'
    || leb b'0' c && leb c b'9'
    || c == b'-'
    || c == b'.'
    || c == b'_'
    || c == b'~'

unfoldable pub valid_pkce_verifier : Text → Bool
valid_pkce_verifier value =
    not (ltb (byte_len value) 43 || ltb 128 (byte_len value)) && all is_unreserved value

-- `PKCEChallenge`; the argument is SHA-256 and base64 of Go's library.
unfoldable pub pkce_challenge : (Text → Text) → Text → Result Text
pkce_challenge challenge_of verifier =
    if not (valid_pkce_verifier verifier)
    then fail (new_error invalid_request)
    else ok (challenge_of verifier)

-- Sealing and opening with a key, a nonce, a plain text and associated data, and the reading of
-- random bytes: Go's AES-GCM and `crypto/rand`.
pub record Aead : Type 0 where
  pub nonce_size : ℕ
  pub seal : List ℕ → List ℕ → Text → Text → List ℕ
  pub open_sealed : List ℕ → List ℕ → List ℕ → Text → Option Text

pub record PkceCipher : Type 0 where
  pub current_key_id : Text
  pub keys : List (Text × List ℕ)

unfoldable pub find_key : Text → List (Text × List ℕ) → Option (List ℕ)
find_key key_id [] = none
find_key key_id ((k, key) ∷ keys) =
    let rest = find_key key_id keys in if k =ₜ key_id then some key else rest

unfoldable pub valid_key_id : Text → Bool
valid_key_id key_id = not (is_empty key_id) && key_id =ₜ trim_space key_id

unfoldable pub valid_keys : List (Text × List ℕ) → Bool
valid_keys [] = true
valid_keys ((key_id, key) ∷ keys) = (valid_key_id key_id && length key == 32) && valid_keys keys

abbrev pub is_found : Option (List ℕ) → Bool
is_found none = false
is_found (some key) = true

-- Keys of 32 bytes make a cipher without error.
unfoldable pub new_pkce_cipher : Text → List (Text × List ℕ) → Result PkceCipher
new_pkce_cipher current_key_id keys = do
  let refuse = λ (t : Text). plain (Cause.opaque t)
  reject_if (not (valid_key_id current_key_id)) (refuse (codes "PKCE 当前加密密钥标识不能为空或包含首尾空白"))
  reject_if (length keys == 0) (refuse (codes "PKCE 加密密钥集合不能为空"))
  reject_if (not (valid_keys keys)) (refuse (codes "PKCE 加密密钥必须使用非空标识和 32 字节 AES-256 密钥"))
  reject_if (not (is_found (find_key current_key_id keys))) (refuse (codes "PKCE 当前加密密钥标识不存在于密钥集合"))
  ok (record { current_key_id = current_key_id; keys = keys })

abbrev pub associated_data : Text → Text
associated_data key_id = codes "mail-suite:pkce:" ++ key_id

-- `ciphertext[:n]` and `ciphertext[n:]`
unfoldable pub split : ℕ → List ℕ → List ℕ × List ℕ
split zero l = ([], l)
split (suc n) [] = ([], [])
split (suc n) (c ∷ l) = let (front, back) = split n l in (c ∷ front, back)

module _ (aead : Aead) (cipher : PkceCipher) where
  -- `random` is what reading the nonce gives. A missing current key is a nil pointer in Go;
  -- `NewPKCECipher` rules it out.
  unfoldable pub encrypt : Option (List ℕ) → Text → Result (List ℕ × Text)
  encrypt random verifier =
      if not (valid_pkce_verifier verifier)
      then fail (new_error invalid_request)
      else elim (find_key cipher.current_key_id cipher.keys) [
        | none ↦ fail (plain (Cause.opaque (codes "nil pointer dereference")))
        | some key ↦ elim random [
          | none ↦ fail (new_error persistence_unavailable)
          | some nonce ↦ ok (
            nonce ++ aead.seal key nonce verifier (associated_data cipher.current_key_id),
            cipher.current_key_id,
          )
        ]
      ]

  -- `Decrypt` once the ciphertext is opened.
  unfoldable pub opened : Option Text → Result Text
  opened none = fail (new_error auth_flow_invalid)
  opened (some plaintext) =
      if valid_pkce_verifier plaintext then ok plaintext else fail (new_error auth_flow_invalid)

  -- `Decrypt` once the key is found.
  unfoldable pub open_with : List ℕ → Text → Option (List ℕ) → Result Text
  open_with ciphertext key_id none = fail (new_error auth_flow_invalid)
  open_with ciphertext key_id (some key) =
      let (nonce, sealed) = split aead.nonce_size ciphertext in
      if leb (length ciphertext) aead.nonce_size
      then fail (new_error auth_flow_invalid)
      else opened (aead.open_sealed key nonce sealed (associated_data key_id))

  unfoldable pub decrypt : List ℕ → Text → Result Text
  decrypt ciphertext key_id = open_with ciphertext key_id (find_key key_id cipher.keys)

split-append : (n : ℕ) (l r : List ℕ) → length l ≡ n → split n (l ++ r) ≡ (l, r)
unfolding split
split-append zero [] r e = refl
split-append zero (c ∷ l) r e = absurd (omega (arith, e))
split-append (suc n) [] r e = absurd (omega (arith, e))
split-append (suc n) (c ∷ l) r e = rw (split-append n l r (omega (arith, e))) refl

-- What `Decrypt` makes of a ciphertext that starts with its nonce.
open_sealed_lem :
    (aead : Aead) (cipher : PkceCipher) (key nonce : List ℕ) (verifier key_id : Text)
    → ((k n : List ℕ) (p ad : Text) → aead.open_sealed k n (aead.seal k n p ad) ad ≡ some p)
    → ((k n : List ℕ) (p ad : Text) → 0 < length (aead.seal k n p ad))
    → length nonce ≡ aead.nonce_size
    → valid_pkce_verifier verifier ≡ true
    → open_with aead cipher
        (nonce ++ aead.seal key nonce verifier (associated_data key_id))
        key_id
        (some key)
      ≡ ok verifier
unfolding open_with opened
open_sealed_lem aead cipher key nonce verifier key_id unseals grows size valid =
    let sealed : List ℕ = aead.seal key nonce verifier (associated_data key_id) in
    let long = grows key nonce verifier (associated_data key_id) in
    let total = length-append nonce sealed in
    let enough : leb (length (nonce ++ sealed)) aead.nonce_size ≡ false =
      ground (arith, long, total, size) in
    rw
      (
        enough,
        split-append aead.nonce_size nonce sealed size,
        unseals key nonce verifier (associated_data key_id),
        valid,
      )
      refl

-- What a successful `Encrypt` has done.
record Sealed (aead : Aead) (cipher : PkceCipher) (nonce ciphertext : List ℕ)
    (verifier key_id : Text) : Type 0 where
  key : List ℕ
  valid : valid_pkce_verifier verifier ≡ true
  named : key_id ≡ cipher.current_key_id
  found : find_key key_id cipher.keys ≡ some key
  text : ciphertext ≡ nonce ++ aead.seal key nonce verifier (associated_data key_id)

Sealed-with :
    (aead : Aead) (cipher : PkceCipher) (nonce ciphertext : List ℕ) (verifier key_id : Text)
    (found : Option (List ℕ))
    → find_key cipher.current_key_id cipher.keys ≡ found
    → encrypt aead cipher (some nonce) verifier ≡ ok (ciphertext, key_id)
    → Sealed aead cipher nonce ciphertext verifier key_id
unfolding encrypt
Sealed-with aead cipher nonce ciphertext verifier key_id none f e = absurd (ground arith)
Sealed-with aead cipher nonce ciphertext verifier key_id (some key) f e = record {
  key = key;
  valid = ground arith;
  named = ground arith;
  found = ground arith;
  text = ground arith;
}

-- What `Encrypt` has sealed, `Decrypt` gives back under the key name that `Encrypt` returned with it:
-- for a nonce of the cipher's size, a cipher that opens what it sealed and seals to at least one byte.
pub decrypt-encrypt :
    (aead : Aead) (cipher : PkceCipher) (nonce ciphertext : List ℕ) (verifier key_id : Text)
    → ((k n : List ℕ) (p ad : Text) → aead.open_sealed k n (aead.seal k n p ad) ad ≡ some p)
    → ((k n : List ℕ) (p ad : Text) → 0 < length (aead.seal k n p ad))
    → length nonce ≡ aead.nonce_size
    → encrypt aead cipher (some nonce) verifier ≡ ok (ciphertext, key_id)
    → decrypt aead cipher ciphertext key_id ≡ ok verifier
unfolding decrypt
decrypt-encrypt aead cipher nonce ciphertext verifier key_id unseals grows size e =
    let s =
      Sealed-with aead cipher nonce ciphertext verifier key_id
        (find_key cipher.current_key_id cipher.keys) refl e in
    ap (open_with aead cipher ciphertext key_id) s.found
    ∙ ap (λ c. open_with aead cipher c key_id (some s.key)) s.text
    ∙ open_sealed_lem aead cipher s.key nonce verifier key_id unseals grows size s.valid
