-- ===== src/Stalwart/Contract.antt =====
-- The contract of a run of the adapter: what it returns, with which errors it fails, and what it sends.
use mail_suite.Base.{
  ℕ, subst, Text, codes, ◌=ₜ◌, Bool, true, false, ◌&&◌, ◌≡◌, refl, ◌⊎◌, Option, none, some, ◌∷◌,
  arith, if◌then◌else◌,
}
use mail_suite.Errors.{
  ErrorClass, retryable, permanent, unknown, adapter_error, Error, plain, Result, ok, fail,
}
use mail_suite.Mailcore.{valid_error_class, matches_error_code, new_error}
use mail_suite.Operation.World.{Context}
use mail_suite.Stalwart.{
  error_code_authentication, error_code_rate_limited, error_code_unavailable,
  error_code_protocol_invalid, error_code_domain_missing, error_code_resource_conflict,
  error_code_configuration, error_code_mailbox_not_found, error_code_message_not_found,
  error_code_timeout, failure, IoFailure, uncertain_class, protocol_error, read_timeout_error,
  status_error, classify_set_error, classify_method_error,
}
use mail_suite.Stalwart.Tokens.{token_error}
use mail_suite.Stalwart.World.{
  Arguments, any_filter, filter_domain, filter_account, get_objects, set_create, set_update,
  email_query, email_get, nonce_drawn, Event, clock_read, sent, History, World, Run, continue,
}

-- The error is the adapter's own, of one of the three classes and with a code of the stored form.
unfoldable pub is_own : Error → Bool
is_own (plain (adapter_error class code)) = valid_error_class class && matches_error_code code
is_own _ = false

-- An error of the adapter: its own, or the error of a context.
abbrev pub IsStable : World → Error → Type 0
IsStable w e = (is_own e ≡ true) ⊎ ((h : History) × (ctx : Context) × (w.ctx_err h ctx ≡ some e))

-- The writes among the arguments carry a description that is allowed.
abbrev pub Writes : (Text → Type 0) → Arguments → Type 0
Writes W any_filter = Unit
Writes W (filter_domain name) = Unit
Writes W (filter_account name domain) = Unit
Writes W (get_objects ids properties) = Unit
Writes W (set_create name domain description secret) = W description
Writes W (set_update id description secret) = W description
Writes W (email_query account position limit) = Unit
Writes W (email_get account ids properties detail) = Unit

abbrev pub IsAllowed : (Text → Type 0) → Event → Type 0
IsAllowed W clock_read = Unit
IsAllowed W nonce_drawn = Unit
IsAllowed W (sent ctx request) = elim request.body [
  | none ↦ Unit
  | some call ↦ Writes W call.arguments
]

-- Since `start`, no write but the allowed ones was sent.
pub data Since (W : Text → Type 0) (start : History) : History → Type 0 where
  here : Since W start start
  next : {e : Event} {h : History} → IsAllowed W e → Since W start h → Since W start (e ∷ h)

-- How a run ends: with a value of `P`, or with an error of `E`, and in a history of `H`.
pub data Ends {A : Type 0} (P : A → Type 0) (E : Error → Type 0) (H : History → Type 0)
    : Result A × History → Type 0 where
  ended : {a : A} {h : History} → P a → H h → Ends P E H (ok a, h)
  broken : {e : Error} {h : History} → E e → H h → Ends P E H (fail e, h)

pub continue-Ends :
    {A B : Type 0} {Q : A → Type 0} {P : B → Type 0} {E : Error → Type 0} {H : History → Type 0}
    (r : Result A × History) (f : A → Run B)
    → Ends Q E H r
    → ((a : A) (h : History) → Q a → H h → Ends P E H (f a h))
    → Ends P E H (continue r f)
continue-Ends (ok a, h) f (ended q i) k = k a h q i
continue-Ends (fail e, h) f (broken x i) k = broken x i

pub ends-weaken :
    {A : Type 0} {P Q : A → Type 0} {E : Error → Type 0} {H : History → Type 0}
    (r : Result A × History)
    → Ends P E H r
    → ((a : A) → P a → Q a)
    → Ends Q E H r
ends-weaken (ok a, h) (ended p i) k = ended (k a p) i
ends-weaken (fail e, h) (broken x i) k = broken x i

pub ends-if :
    {A : Type 0} {P : A → Type 0} {E : Error → Type 0} {H : History → Type 0} (c : Bool)
    (r s : Result A × History)
    → Ends P E H r
    → Ends P E H s
    → Ends P E H (if c then r else s)
ends-if true r s hr hs = hr
ends-if false r s hr hs = hs

pub fail_injective : {A : Type 0} (d e : Error) → ◌≡◌ {A = Result A} (fail d) (fail e) → d ≡ e
fail_injective d e q = cc

ok_injective : {A : Type 0} (b a : A) → ok b ≡ ok a → b ≡ a
ok_injective b a q = cc

pub ends_history :
    {A : Type 0} {P : A → Type 0} {E : Error → Type 0} {H : History → Type 0}
    (r : Result A × History)
    → Ends P E H r
    → H r.1
ends_history (ok a, h) (ended p i) = i
ends_history (fail e, h) (broken x i) = i

pub ends_error :
    {A : Type 0} {P : A → Type 0} {E : Error → Type 0} {H : History → Type 0}
    (r : Result A × History)
    → Ends P E H r
    → (e : Error) → r.0 ≡ fail e
    → E e
ends_error (ok a, h) (ended p i) e q = cc
ends_error {A = A} {E = E} (fail d, h) (broken x i) e q = subst E (fail_injective {A = A} d e q) x

pub ends_value :
    {A : Type 0} {P : A → Type 0} {E : Error → Type 0} {H : History → Type 0}
    (r : Result A × History)
    → Ends P E H r
    → (a : A) → r.0 ≡ ok a
    → P a
ends_value {P = P} (ok b, h) (ended p i) a q = subst P (ok_injective b a q) p
ends_value (fail d, h) (broken x i) a q = cc

-- Every error that the adapter makes is its own.
pub failure-own :
    (class : ErrorClass) (code : Text)
    → valid_error_class class ≡ true
    → matches_error_code code ≡ true
    → is_own (failure class code) ≡ true
unfolding is_own new_error
failure-own class code c m = ground arith

own-if :
    (c : Bool) (a b : Error)
    → is_own a ≡ true
    → is_own b ≡ true
    → is_own (if c then a else b) ≡ true
own-if true a b ha hb = ha
own-if false a b ha hb = hb

pub own_mailbox_not_found : is_own (failure permanent error_code_mailbox_not_found) ≡ true
unfolding is_own new_error matches_error_code valid_error_class
own_mailbox_not_found = refl

pub own_message_not_found : is_own (failure permanent error_code_message_not_found) ≡ true
unfolding is_own new_error matches_error_code valid_error_class
own_message_not_found = refl

pub own_token : (purpose : Text) → is_own (token_error purpose) ≡ true
unfolding is_own new_error matches_error_code valid_error_class token_error
own_token purpose = own-if (purpose =ₜ codes "cursor") _ _ refl refl

own_authentication : is_own (failure permanent error_code_authentication) ≡ true
unfolding is_own new_error matches_error_code valid_error_class
own_authentication = refl

own_rate_limited : is_own (failure retryable error_code_rate_limited) ≡ true
unfolding is_own new_error matches_error_code valid_error_class
own_rate_limited = refl

own_timeout : is_own (failure retryable error_code_timeout) ≡ true
unfolding is_own new_error matches_error_code valid_error_class
own_timeout = refl

pub own_configuration : is_own (failure permanent error_code_configuration) ≡ true
unfolding is_own new_error matches_error_code valid_error_class
own_configuration = refl

pub own_conflict : is_own (failure permanent error_code_resource_conflict) ≡ true
unfolding is_own new_error matches_error_code valid_error_class
own_conflict = refl

pub own_domain_missing : is_own (failure permanent error_code_domain_missing) ≡ true
unfolding is_own new_error matches_error_code valid_error_class
own_domain_missing = refl

pub own_protocol : is_own protocol_error ≡ true
unfolding is_own new_error matches_error_code valid_error_class protocol_error
own_protocol = refl

pub own_unavailable :
    (mutation : Bool) → is_own (failure (uncertain_class mutation) error_code_unavailable) ≡ true
unfolding is_own new_error matches_error_code valid_error_class uncertain_class
own_unavailable true = refl
own_unavailable false = refl

pub own_invalid :
    (mutation : Bool)
    → is_own (failure (uncertain_class mutation) error_code_protocol_invalid) ≡ true
unfolding is_own new_error matches_error_code valid_error_class uncertain_class
own_invalid true = refl
own_invalid false = refl

own_unavailable_class :
    (class : ErrorClass)
    → valid_error_class class ≡ true
    → is_own (failure class error_code_unavailable) ≡ true
unfolding is_own new_error matches_error_code
own_unavailable_class retryable h = refl
own_unavailable_class permanent h = refl
own_unavailable_class unknown h = refl
own_unavailable_class (ErrorClass.other s) h = cc

own_protocol_invalid : is_own (failure permanent error_code_protocol_invalid) ≡ true
unfolding is_own new_error matches_error_code valid_error_class
own_protocol_invalid = refl

pub status_error-own : (status : ℕ) (mutation : Bool) → is_own (status_error status mutation) ≡ true
unfolding status_error valid_error_class
status_error-own status mutation =
    own-if _ _ _ (own-if _ _ _ (own_unavailable_class unknown refl) own_timeout) (
      own-if _ _ _ own_authentication (
        own-if _ _ _ own_rate_limited (
          own-if _ _ _ (own_unavailable mutation)
            (own-if _ _ _ (own_unavailable mutation) own_protocol_invalid))))

pub classify_set_error-own : (t : Text) → is_own (classify_set_error t) ≡ true
unfolding classify_set_error valid_error_class
classify_set_error-own t = own-if _ _ _ own_rate_limited (
    own-if _ _ _ (own_unavailable_class retryable refl)
      (own-if _ _ _ own_authentication own_conflict))

pub classify_method_error-own :
    (t : Text) (mutation : Bool) → is_own (classify_method_error t mutation) ≡ true
unfolding classify_method_error
classify_method_error-own t mutation = own-if _ _ _ own_rate_limited (
    own-if _ _ _ own_authentication
      (own-if _ _ _ (own_unavailable mutation) (own_invalid mutation)))

pub read_timeout_error-own :
    (c : Option Error) (f : Option IoFailure) (mutation : Bool) (e : Error)
    → read_timeout_error c f mutation ≡ some e
    → is_own e ≡ true
unfolding read_timeout_error
read_timeout_error-own c none mutation e h = cc
read_timeout_error-own c (some f) mutation e h = ground (arith, own_timeout)
