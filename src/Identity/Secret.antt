-- ===== src/Identity/Secret.antt =====
-- src/backend/internal/identity/secret.go: digests of secrets, each under the purpose that it serves.
use mail_suite.Base.{
  ℕ, ◌≡◌, refl, ap, ◌∙◌, sym, Text, codes, Digest, Bool, true, not, Option, none, some, List, [],
  ◌∷◌, ◌++◌, arith, ltb, ◌==◌, all, length, if◌then◌else◌,
}
use mail_suite.Errors.{Cause, plain, Result, ok, fail}

-- The `SecretPurpose` constants.
pub data Purpose : Type 0 where
  session_cookie auth_flow_state auth_flow_cookie oidc_nonce csrf_token source csrf_derivation :
      Purpose

abbrev pub purpose_text : Purpose → Text
purpose_text session_cookie = codes "session-cookie"
purpose_text auth_flow_state = codes "auth-flow-state"
purpose_text auth_flow_cookie = codes "auth-flow-cookie"
purpose_text oidc_nonce = codes "oidc-nonce"
purpose_text csrf_token = codes "csrf-token"
purpose_text source = codes "audit-source"
purpose_text csrf_derivation = codes "csrf-derivation"

-- HMAC with SHA-256 of a pepper and a message, and the base64 text of a digest, as Go's packages
-- compute them.
pub record Crypto : Type 0 where
  pub hmac : List ℕ → Text → Digest
  pub encode_base64 : Digest → Text

-- The pepper is bytes.
pub record SecretHasher : Type 0 where
  pub pepper : List ℕ

abbrev pub minimum_pepper_bytes : ℕ
minimum_pepper_bytes = 32

unfoldable pub new_secret_hasher : List ℕ → Result SecretHasher
new_secret_hasher pepper =
    if ltb (length pepper) minimum_pepper_bytes
    then fail (plain (Cause.opaque (codes "认证摘要 pepper 至少需要 32 字节")))
    else ok (record { pepper = pepper })

-- What the three calls of `mac.Write` write.
unfoldable pub digest_message : Purpose → Text → Text
digest_message purpose secret = purpose_text purpose ++ 0 ∷ secret

module _ (crypto : Crypto) (hasher : SecretHasher) where
  unfoldable pub digest : Purpose → Text → Digest
  digest purpose secret = crypto.hmac hasher.pepper (digest_message purpose secret)

  unfoldable pub derive_csrf_token : Text → Text
  derive_csrf_token session_token = crypto.encode_base64 (digest csrf_derivation session_token)

-- `random` is what the source of random bytes gives, 32 of them, if it does not fail.
unfoldable pub new_opaque_token : Crypto → Option Digest → Result Text
new_opaque_token crypto none = fail (plain (Cause.opaque (codes "认证随机值生成失败")))
new_opaque_token crypto (some random) = ok (crypto.encode_base64 random)

abbrev nonzero : Text → Bool
nonzero t = all (λ c. not (c == 0)) t

split_at_zero :
    (a b s t : Text)
    → nonzero a ≡ true
    → nonzero b ≡ true
    → a ++ 0 ∷ s ≡ b ++ 0 ∷ t
    → (a ≡ b) × (s ≡ t)
split_at_zero [] [] s t h k e = ground arith
split_at_zero [] (d ∷ b) s t h k e = ground arith
split_at_zero (c ∷ a) [] s t h k e = ground arith
split_at_zero (c ∷ a) (d ∷ b) s t h k e = ground (arith, split_at_zero a b s t)

purpose_nonzero : (p : Purpose) → nonzero (purpose_text p) ≡ true
purpose_nonzero p = ground arith

-- What sets the names of the purposes apart.
abbrev named_by : Text → Purpose
named_by t =
    if length t == 14
    then session_cookie
    else if length t == 16
    then auth_flow_cookie
    else if length t == 12
    then source
    else if length t == 10
    then elim t [ [] ↦ csrf_token | c ∷ _ ↦ if c == b'o' then oidc_nonce else csrf_token ]
    else elim t [ [] ↦ csrf_token | c ∷ _ ↦ if c == b'a' then auth_flow_state else csrf_derivation ]

named_by-purpose_text : (p : Purpose) → named_by (purpose_text p) ≡ p
named_by-purpose_text session_cookie = refl
named_by-purpose_text auth_flow_state = refl
named_by-purpose_text auth_flow_cookie = refl
named_by-purpose_text oidc_nonce = refl
named_by-purpose_text csrf_token = refl
named_by-purpose_text source = refl
named_by-purpose_text csrf_derivation = refl

-- Purposes are kept apart: what is digested for one purpose and secret is never what is digested
-- for another purpose, nor for another secret.
pub digest_message_injective :
    (p q : Purpose) (s t : Text) → digest_message p s ≡ digest_message q t → (p ≡ q) × (s ≡ t)
unfolding digest_message
digest_message_injective p q s t e =
    let (names, secrets) =
      split_at_zero (purpose_text p) (purpose_text q) s t (purpose_nonzero p) (purpose_nonzero q)
        e in
    (sym (named_by-purpose_text p) ∙ ap named_by names ∙ named_by-purpose_text q, secrets)
