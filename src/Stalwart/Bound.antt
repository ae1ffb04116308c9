-- ===== src/Stalwart/Bound.antt =====
-- What `openReadToken` accepts, in terms of the mailbox, the purpose and the time.
use mail_suite.Base.{ℕ, ◌≡◌, Text, true, false, Option, none, some, List, ◌=ₜ◌, =ₜ→eq, arith}
use mail_suite.Base.Int.{ℤ, ◌<ℤ◌}
use mail_suite.Errors.{ok}
use mail_suite.Stalwart.Metadata.{Derivation}
use mail_suite.Stalwart.Tokens.{
  ReadScope, ReadToken, Sealing, unix, take, drop, token_key, refuses_token, accept_token,
  read_plaintext, open_bytes, open_read_token,
}

-- The token belongs to the scope and the purpose, and is in its time.
abbrev pub IsBound : ℤ → ReadScope → Text → ReadToken → Type 0
IsBound now scope purpose value =
    (value.purpose ≡ purpose)
    × (value.mailbox_id ≡ scope.mailbox_id)
    × (value.domain_id ≡ scope.domain_id)
    × (value.revision ≡ scope.revision)
    × (value.configuration_hash ≡ scope.configuration_hash)
    × (unix now <ℤ value.expires_at)

refuses_token-IsBound :
    (sealing : Sealing) (derivation : Derivation) (key : List ℕ) (now : ℤ) (scope : ReadScope)
    (purpose : Text) (value : ReadToken)
    → refuses_token sealing derivation key now scope purpose value ≡ false
    → IsBound now scope purpose value
unfolding refuses_token
refuses_token-IsBound sealing derivation key now scope purpose value h =
    let same : (value.purpose =ₜ purpose) ≡ true = ground arith in
    (
      =ₜ→eq value.purpose purpose same,
      ground arith,
      ground arith,
      ground arith,
      ground arith,
      ground arith,
    )

accept_token-IsBound :
    (sealing : Sealing) (derivation : Derivation) (key : List ℕ) (now : ℤ) (scope : ReadScope)
    (purpose : Text) (o : Option ReadToken) (value : ReadToken)
    → accept_token sealing derivation key now scope purpose o ≡ ok value
    → IsBound now scope purpose value
unfolding accept_token
accept_token-IsBound sealing derivation key now scope purpose none value h = cc
accept_token-IsBound sealing derivation key now scope purpose (some v) value h =
    let kept : refuses_token sealing derivation key now scope purpose value ≡ false =
      ground arith in
    refuses_token-IsBound sealing derivation key now scope purpose value kept

plaintext-IsBound :
    (sealing : Sealing) (derivation : Derivation) (key : List ℕ) (now : ℤ) (scope : ReadScope)
    (purpose : Text) (o : Option (List ℕ)) (value : ReadToken)
    → read_plaintext sealing derivation key now scope purpose o ≡ ok value
    → IsBound now scope purpose value
unfolding read_plaintext
plaintext-IsBound sealing derivation key now scope purpose none value h = cc
plaintext-IsBound sealing derivation key now scope purpose (some p) value h =
    accept_token-IsBound sealing derivation key now scope purpose (sealing.unmarshal p) value h

bytes-IsBound :
    (sealing : Sealing) (derivation : Derivation) (key : List ℕ) (now : ℤ) (scope : ReadScope)
    (purpose : Text) (o : Option (List ℕ)) (value : ReadToken)
    → open_bytes sealing derivation key now scope purpose o ≡ ok value
    → IsBound now scope purpose value
unfolding open_bytes
bytes-IsBound sealing derivation key now scope purpose none value h = cc
bytes-IsBound sealing derivation key now scope purpose (some encoded) value h =
    let inner : read_plaintext sealing derivation key now scope purpose (
          sealing.open_sealed (token_key sealing derivation key) (take sealing.nonce_size encoded)
            (drop sealing.nonce_size encoded))
        ≡ ok value =
      ground arith in
    plaintext-IsBound sealing derivation key now scope purpose _ value inner

-- A token that `openReadToken` accepts names the same purpose, mailbox, domain, revision and configuration
-- as the request, and has not expired, whatever text was handed in.
pub opened-IsBound :
    (sealing : Sealing) (derivation : Derivation) (key : List ℕ) (now : ℤ) (raw : Text)
    (scope : ReadScope) (purpose : Text) (value : ReadToken)
    → open_read_token sealing derivation key now raw scope purpose ≡ ok value
    → IsBound now scope purpose value
unfolding open_read_token
opened-IsBound sealing derivation key now raw scope purpose value h =
    let inner : open_bytes sealing derivation key now scope purpose (sealing.decode_base64 raw)
        ≡ ok value =
      ground arith in
    bytes-IsBound sealing derivation key now scope purpose _ value inner
