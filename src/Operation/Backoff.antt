-- ===== src/Operation/Backoff.antt =====
-- `retryDelay` in closed form, and the guard of `newService`.
use Prim.Native.Nat.{min}
use native.Mathlib.Nat.{pow-suc}
use mail_suite.Base.{
  ℕ, zero, suc, ◌+◌, ◌*◌, ◌^◌, ◌/◌, ◌≤◌, ◌<◌, ◌≡◌, refl, ◌≢◌, true, Bool, false, arith, ◌||◌, ◌↔◌,
}
use mail_suite.Base.Int.{
  ℤ, pos, negsuc, pos_part, ◌≤ℤ◌, ◌<ℤ◌, ◌+ℤ◌, ◌-ℤ◌, wrap64, IsInt64, max_int64, wrap64-of_IsInt64,
  +ℤ_parts, -ℤ_parts,
}
use mail_suite.Operation.Config.{
  Config, retry_loop, retry_delay, rejects_config, new_service, max_int32,
}
use mail_suite.Errors.{ok}

pub pow_pos : (k : ℕ) → 1 ≤ 2 ^ k
pow_pos zero = omega arith
pow_pos (suc k) = rw pow-suc (omega (arith, pow_pos k))

double_pow : (d k : ℕ) → (d + d) * 2 ^ k ≡ d * 2 ^ suc k
double_pow d k = rw pow-suc (omega arith)

cap_step : (m d k : ℕ) → m ≤ d + d → m ≤ d * 2 ^ suc k
cap_step m d k h = rw (← double_pow d k) (grind (arith, pow_pos k))

-- One round: the doubled delay is an int64, so the multiplication never wraps.
double_exact : (m d : ℕ) → d ≤ m / 2 → m ≤ max_int64 → wrap64 (pos d +ℤ pos d) ≡ pos (d + d)
unfolding ◌+ℤ◌ wrap64
double_exact m d h b = ground arith

retry_loop_lem :
    (m k d : ℕ)
    → 0 < d
    → d ≤ m
    → m ≤ max_int64
    → retry_loop (pos m) k (pos d) ≡ pos (min m (d * 2 ^ k))
unfolding retry_loop
retry_loop_lem m zero d p h b = ground arith
retry_loop_lem m (suc k) d p h b =
    ground (arith, cap_step m d k, double_exact m d, double_pow d k, retry_loop_lem m k (d + d))

pub record IsAccepted (config : Config) : Type 0 where
  pub owner : config.owner_id ≢ 0
  pub lease : pos 0 <ℤ config.lease_duration
  pub timeout : pos 0 <ℤ config.attempt_timeout
  pub margin : pos 0 <ℤ config.lease_safety_margin
  pub fits : config.attempt_timeout +ℤ config.lease_safety_margin ≤ℤ config.lease_duration
  pub base : pos 0 <ℤ config.base_retry_delay
  pub cap : config.base_retry_delay ≤ℤ config.max_retry_delay
  pub attempts : pos 0 <ℤ config.max_attempts
  pub attempts_fit : config.max_attempts ≤ℤ max_int32

margin_exact : (l m : ℤ) → IsInt64 l → IsInt64 m → pos 0 <ℤ m → m <ℤ l → wrap64 (l -ℤ m) ≡ l -ℤ m
unfolding ◌-ℤ◌
margin_exact (pos l) (pos m) hl hm p h = wrap64-of_IsInt64 (pos l -ℤ pos m) (ground arith)
margin_exact (pos l) (negsuc m) hl hm p h = absurd (omega arith)
margin_exact (negsuc l) (pos m) hl hm p h = absurd (omega arith)
margin_exact (negsuc l) (negsuc m) hl hm p h = absurd (omega arith)

rejects_config-IsAccepted :
    (no_repository no_adapter no_clock : Bool) (config : Config)
    → IsInt64 config.lease_duration
    → IsInt64 config.lease_safety_margin
    → rejects_config no_repository no_adapter no_clock config ≡ false
    → IsAccepted config
unfolding rejects_config
rejects_config-IsAccepted nr na nc config l m h = ground (
  arith,
  margin_exact config.lease_duration config.lease_safety_margin,
  -ℤ_parts config.lease_duration config.lease_safety_margin,
  +ℤ_parts config.attempt_timeout config.lease_safety_margin,
)

accepts_config :
    (config : Config)
    → IsInt64 config.lease_duration
    → IsInt64 config.lease_safety_margin
    → IsAccepted config
    → rejects_config false false false config ≡ false
unfolding rejects_config
accepts_config config l m a = ground (
  arith,
  margin_exact config.lease_duration config.lease_safety_margin,
  -ℤ_parts config.lease_duration config.lease_safety_margin,
  +ℤ_parts config.attempt_timeout config.lease_safety_margin,
)

guarded_deps :
    (nr na nc : Bool) (config : Config)
    → rejects_config nr na nc config ≡ ((nr || na || nc) || rejects_config false false false config)
unfolding rejects_config
guarded_deps true na nc config = refl
guarded_deps false true nc config = refl
guarded_deps false false true config = refl
guarded_deps false false false config = refl

-- `NewService` accepts exactly the configurations of `IsAccepted`, and only with a repository, an
-- adapter and a clock, where the lease duration and the safety margin are int64 values; the service
-- that it returns has the given configuration.
pub new_service_exact :
    (no_repository no_adapter no_clock : Bool) (config : Config)
    → IsInt64 config.lease_duration
    → IsInt64 config.lease_safety_margin
    → (new_service no_repository no_adapter no_clock config ≡ ok config)
      ↔ ((no_repository || no_adapter || no_clock) ≡ false) × IsAccepted config
unfolding new_service
new_service_exact nr na nc config l m = (
  λ h. (
    ground (arith, guarded_deps nr na nc config),
    rejects_config-IsAccepted nr na nc config l m (ground arith),
  ),
  λ h. ground (arith, guarded_deps nr na nc config, accepts_config config l m h.1),
)

retry_loop_closed :
    (base max : ℤ) (k : ℕ)
    → pos 0 <ℤ base
    → base ≤ℤ max
    → IsInt64 max
    → retry_loop max (pos_part (pos (suc k) -ℤ pos 1)) base
      ≡ pos (min (pos_part max) (pos_part base * 2 ^ k))
unfolding ◌-ℤ◌
retry_loop_closed (pos b) (pos m) k p h i =
    let rounds : pos_part (pos (suc k) -ℤ pos 1) ≡ k = ground arith in
    rw rounds (retry_loop_lem m k b (omega arith) (omega arith) (omega arith))
retry_loop_closed (pos b) (negsuc m) k p h i = absurd (omega arith)
retry_loop_closed (negsuc b) max k p h i = absurd (omega arith)

-- In an accepted configuration whose maximum delay is an int64, the delay before the retry of attempt
-- `k + 1` is the base delay doubled `k` times, capped at the maximum.
pub retry_delay_closed :
    (config : Config) (k : ℕ)
    → IsAccepted config
    → IsInt64 config.max_retry_delay
    → retry_delay config (pos (suc k))
      ≡ pos (min (pos_part config.max_retry_delay) (pos_part config.base_retry_delay * 2 ^ k))
unfolding retry_delay
retry_delay_closed config k a i =
    retry_loop_closed config.base_retry_delay config.max_retry_delay k a.base a.cap i
