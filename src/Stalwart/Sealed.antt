-- ===== src/Stalwart/Sealed.antt =====
-- `sealReadToken` followed by `openReadToken`.
use mail_suite.Base.{
  ℕ, ◌≤◌, ◌<◌, ◌≡◌, refl, ap, sym, subst, Text, false, Option, none, some, List, [], ◌∷◌, ◌++◌,
  length, length-append, =ₜ_refl, is_empty, byte_len, arith,
}
use mail_suite.Base.Int.{ℤ, ◌+ℤ◌, ◌<ℤ◌}
use mail_suite.Errors.{ok}
use mail_suite.Stalwart.Metadata.{Derivation}
use mail_suite.Stalwart.Tokens.{
  ReadScope, ReadToken, Sealing, maximum_token_bytes, maximum_token_text, unix, new_read_token,
  take, drop, token_key, seal_plaintext, seal_read_token, refuses_token, accept_token,
  read_plaintext, open_bytes, open_read_token,
}

-- What Go's packages promise: what was sealed or encoded can be read back, sealing adds its
-- overhead, and base64 spends four characters on three bytes.
pub record Unseals (sealing : Sealing) (derivation : Derivation) : Type 0 where
  pub open-seal : (k n p : List ℕ) → sealing.open_sealed k n (sealing.seal k n p) ≡ some p
  pub decode-encode : (b : List ℕ) → sealing.decode_base64 (derivation.encode_base64 b) ≡ some b
  pub grows : (k n p : List ℕ) → sealing.overhead ≤ length (sealing.seal k n p)
  pub encoded_len :
      (b : List ℕ)
      → length b ≤ maximum_token_bytes
      → byte_len (derivation.encode_base64 b) ≤ maximum_token_text
  pub encoded_empty : (b : List ℕ) → 0 < length b → is_empty (derivation.encode_base64 b) ≡ false

take-append : (a b : List ℕ) → take (length a) (a ++ b) ≡ a
unfolding take
take-append [] [] = refl
take-append [] (y ∷ b) = refl
take-append (x ∷ a) b = ap (λ l. x ∷ l) (take-append a b)

drop-append : (a b : List ℕ) → drop (length a) (a ++ b) ≡ b
unfolding drop
drop-append [] b = refl
drop-append (x ∷ a) b = drop-append a b

take-sized : (a b : List ℕ) (n : ℕ) → length a ≡ n → take n (a ++ b) ≡ a
take-sized a b n size = subst (λ k. take k (a ++ b) ≡ a) size (take-append a b)

drop-sized : (a b : List ℕ) (n : ℕ) → length a ≡ n → drop n (a ++ b) ≡ b
drop-sized a b n size = subst (λ k. drop k (a ++ b) ≡ b) size (drop-append a b)

module _ (sealing : Sealing) (derivation : Derivation) (key : List ℕ)
    (u : Unseals sealing derivation) where
  -- What `sealReadToken` encodes.
  abbrev sealed : List ℕ → List ℕ → List ℕ
  sealed nonce plaintext = nonce ++ sealing.seal (token_key sealing derivation key) nonce plaintext

  opened_sealed :
      (nonce plaintext : List ℕ)
      → length nonce ≡ sealing.nonce_size
      → sealing.open_sealed
          (token_key sealing derivation key)
          (take sealing.nonce_size (sealed nonce plaintext))
          (drop sealing.nonce_size (sealed nonce plaintext))
        ≡ some plaintext
  opened_sealed nonce plaintext size =
      let body : List ℕ = sealing.seal (token_key sealing derivation key) nonce plaintext in
      rw (take-sized nonce body _ size, drop-sized nonce body _ size)
        (u.open-seal (token_key sealing derivation key) nonce plaintext)

  open_bytes-sealed :
      (now : ℤ) (scope : ReadScope) (purpose : Text) (nonce plaintext : List ℕ) (value : ReadToken)
      → length nonce ≡ sealing.nonce_size
      → length (sealed nonce plaintext) ≤ maximum_token_bytes
      → sealing.unmarshal plaintext ≡ some value
      → refuses_token sealing derivation key now scope purpose value ≡ false
      → open_bytes sealing derivation key now scope purpose (some (sealed nonce plaintext))
        ≡ ok value
  unfolding open_bytes read_plaintext accept_token
  open_bytes-sealed now scope purpose nonce plaintext value size small parsed kept =
      let grown = u.grows (token_key sealing derivation key) nonce plaintext in
      let whole =
        length-append nonce (sealing.seal (token_key sealing derivation key) nonce plaintext) in
      ground (arith, opened_sealed nonce plaintext size, grown, whole, parsed, kept)

  made_of :
      (nonce plaintext : List ℕ) (raw : Text)
      → seal_plaintext sealing derivation key (some plaintext) (some nonce) ≡ ok raw
      → (length (sealed nonce plaintext) ≤ maximum_token_bytes)
        × (raw ≡ derivation.encode_base64 (sealed nonce plaintext))
  unfolding seal_plaintext
  made_of nonce plaintext raw h = (ground arith, ground arith)

  open_read_token-sealed :
      (now : ℤ) (scope : ReadScope) (purpose : Text) (nonce plaintext : List ℕ) (value : ReadToken)
      → length nonce ≡ sealing.nonce_size
      → 0 < sealing.nonce_size
      → length (sealed nonce plaintext) ≤ maximum_token_bytes
      → sealing.unmarshal plaintext ≡ some value
      → refuses_token sealing derivation key now scope purpose value ≡ false
      → open_read_token sealing derivation key now
          (derivation.encode_base64 (sealed nonce plaintext))
          scope
          purpose
        ≡ ok value
  unfolding open_read_token
  open_read_token-sealed now scope purpose nonce plaintext value size large small parsed kept =
      let whole =
        length-append nonce (sealing.seal (token_key sealing derivation key) nonce plaintext) in
      let solid = u.encoded_empty (sealed nonce plaintext) (omega (arith, whole, size, large)) in
      let short = u.encoded_len (sealed nonce plaintext) small in
      rw (u.decode-encode (sealed nonce plaintext)) (
        ground (
          arith,
          solid,
          short,
          open_bytes-sealed now scope purpose nonce plaintext value size small parsed kept,
        ))

-- The fields of a token that `newReadToken` leaves empty, filled in.
abbrev pub fill : ReadToken → Text → Text → Text → ℤ → ReadToken
fill token message_id blob_id query_state position = record token {
  message_id = message_id;
  blob_id = blob_id;
  query_state = query_state;
  position = position;
}

fresh_kept :
    (sealing : Sealing) (derivation : Derivation) (key : List ℕ) (now later lifetime : ℤ)
    (scope : ReadScope) (purpose message blob state : Text) (position : ℤ)
    → unix later <ℤ unix (now +ℤ lifetime)
    → refuses_token sealing derivation key later scope purpose
        (fill (new_read_token now scope purpose lifetime) message blob state position)
      ≡ false
unfolding refuses_token new_read_token
fresh_kept sealing derivation key now later lifetime scope purpose message blob state position h =
    let same = =ₜ_refl purpose in ground arith

sealed_by :
    (sealing : Sealing) (derivation : Derivation) (key nonce : List ℕ) (o : Option (List ℕ))
    (value : ReadToken) (raw : Text)
    → sealing.marshal value ≡ o
    → seal_plaintext sealing derivation key o (some nonce) ≡ ok raw
    → (plaintext : List ℕ) × (sealing.marshal value ≡ some plaintext)
      × (seal_plaintext sealing derivation key (some plaintext) (some nonce) ≡ ok raw)
unfolding seal_plaintext
sealed_by sealing derivation key nonce none value raw m h = cc
sealed_by sealing derivation key nonce (some p) value raw m h = (p, m, h)

-- What `sealReadToken` made of a fresh token, `openReadToken` reads back for the same mailbox and purpose
-- at any instant before the token expires, whatever ids, state and position it carries: where Go's
-- packages read back what they wrote, of JSON for this token, and for a nonce of the cipher's size.
pub open-seal :
    (sealing : Sealing) (derivation : Derivation) (key nonce : List ℕ) (now later lifetime : ℤ)
    (scope : ReadScope) (purpose message blob state : Text) (position : ℤ) (raw : Text)
    → Unseals sealing derivation
    → length nonce ≡ sealing.nonce_size
    → 0 < sealing.nonce_size
    → unix later <ℤ unix (now +ℤ lifetime)
    → ((p : List ℕ)
        → sealing.marshal
            (fill (new_read_token now scope purpose lifetime) message blob state position)
          ≡ some p
        → sealing.unmarshal p
          ≡ some (fill (new_read_token now scope purpose lifetime) message blob state position))
    → seal_read_token sealing derivation key
        (some nonce)
        (fill (new_read_token now scope purpose lifetime) message blob state position)
      ≡ ok raw
    → open_read_token sealing derivation key later raw scope purpose
      ≡ ok (fill (new_read_token now scope purpose lifetime) message blob state position)
unfolding seal_read_token
open-seal sealing derivation key nonce now later lifetime scope purpose message blob state position
      raw u size large early reads made =
    let value : ReadToken =
      fill (new_read_token now scope purpose lifetime) message blob state position in
    let (plaintext, marshalled, sealed_as) =
      sealed_by sealing derivation key nonce (sealing.marshal value) value raw refl made in
    let (small, text) = made_of sealing derivation key u nonce plaintext raw sealed_as in
    subst (λ r. open_read_token sealing derivation key later r scope purpose ≡ ok value) (sym text)
      (open_read_token-sealed sealing derivation key u later scope purpose nonce plaintext value
        size large small (reads plaintext marshalled)
        (fresh_kept sealing derivation key now later lifetime scope purpose message blob state
          position early))
