-- ===== src/Errors.antt =====
-- Go `error` values: what the packages return and what `errors.Is` and `errors.As` find in a chain.
-- The code types are the packages' `ErrorCode` and `ErrorClass` strings; `other` is any string that
-- is no constant of the package. `nil` is `none` of `Option Error`.
use mail_suite.Base.{Text, Bool, true, false}

-- mailcore.ErrorClass
pub data ErrorClass : Type 0 where
  retryable permanent unknown : ErrorClass
  other : Text → ErrorClass

-- provisioning.ErrorCode
pub data ProvisioningCode : Type 0 where
  invalid_argument domain_unavailable mailbox_already_exists : ProvisioningCode
  idempotency_conflict operation_not_found persistence_unavailable : ProvisioningCode
  other : Text → ProvisioningCode

-- identity.ErrorCode
pub data IdentityCode : Type 0 where
  invalid_request invalid_return_to auth_required auth_forbidden : IdentityCode
  auth_flow_invalid csrf_invalid persistence_unavailable : IdentityCode
  other : Text → IdentityCode

-- authorization.ErrorCode
pub data AuthorizationCode : Type 0 where
  auth_required auth_forbidden csrf_invalid invalid_argument not_found : AuthorizationCode
  idempotency_conflict operation_not_found upstream_timeout : AuthorizationCode
  upstream_unavailable persistence_unavailable : AuthorizationCode
  other : Text → AuthorizationCode

-- The concrete errors that the packages create or test for. `opaque` is `errors.New` with a text.
pub data Cause : Type 0 where
  adapter_error : ErrorClass → Text → Cause
  provisioning_error : ProvisioningCode → Cause
  identity_error : IdentityCode → Cause
  authorization_error : AuthorizationCode → Cause
  invalid_configuration invalid_claim lease_lost : Cause
  canceled deadline_exceeded no_rows : Cause
  constraint_violation : Text → Cause
  opaque : Text → Cause

-- A chain of wrapped errors, the outermost first.
pub data Error : Type 0 where
  plain : Cause → Error
  wrapped : Error → Error

-- The cause at the end of a chain.
abbrev pub cause_of : Error → Cause
cause_of (plain c) = c
cause_of (wrapped e) = cause_of e

-- A Go pair `(value, error)` of which one part is meaningful.
pub data Result {ℓ} (A : Type ℓ) : Type ℓ where
  ok : A → Result A
  fail : Error → Result A

infixl 5 ◌>>=◌ ◌>>◌
abbrev pub ◌>>=◌ {ℓ κ} : {A : Type ℓ} {B : Type κ} → Result A → (A → Result B) → Result B
ok a >>= f = f a
fail e >>= f = fail e

abbrev pub ◌>>◌ {ℓ} : {B : Type ℓ} → Result (Unit {0}) → Result B → Result B
m >> k = m >>= λ _. k

-- `if refused { return …, err }`
abbrev pub reject_if : Bool → Error → Result (Unit {0})
reject_if true e = fail e
reject_if false e = ok tt

unfoldable pub is_canceled : Cause → Bool
is_canceled canceled = true
is_canceled _ = false

unfoldable pub is_deadline_exceeded : Cause → Bool
is_deadline_exceeded deadline_exceeded = true
is_deadline_exceeded _ = false

unfoldable pub is_lease_lost : Cause → Bool
is_lease_lost lease_lost = true
is_lease_lost _ = false

unfoldable pub is_no_rows : Cause → Bool
is_no_rows no_rows = true
is_no_rows _ = false
