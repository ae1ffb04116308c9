-- ===== src/Operation/Config.antt =====
-- `Config`, the guard of `newService`, `retryDelay`, and the pure tests of `Service`.
use mail_suite.Base.{
  ℕ, zero, suc, ◌-◌, ◌/◌, Uuid, nil_uuid, Bool, true, false, ◌&&◌, ◌||◌, not, ◌==◌, is_empty,
  if◌then◌else◌,
}
use mail_suite.Base.Int.{ℤ, pos, negsuc, pos_part, ◌+ℤ◌, ◌-ℤ◌, leb_ℤ, ltb_ℤ, ◌=ℤ◌, wrap64}
use mail_suite.Errors.{invalid_configuration, plain, Result, ok, fail}
use mail_suite.Mailcore.{MailboxStatus, active, ObservedMailbox}
use mail_suite.Operation.{Status, pending, running, retry_wait, unknown, ClaimedMailboxOperation}

pub record Config : Type 0 where
  pub owner_id : Uuid
  pub lease_duration : ℤ
  pub attempt_timeout : ℤ
  pub lease_safety_margin : ℤ
  pub base_retry_delay : ℤ
  pub max_retry_delay : ℤ
  pub max_attempts : ℤ

abbrev pub max_int32 : ℤ
max_int32 = pos 2147483647

-- The guard of `newService`; the three arguments say which dependencies are nil.
unfoldable pub rejects_config : Bool → Bool → Bool → Config → Bool
unfolding wrap64 ◌-ℤ◌
rejects_config no_repository no_adapter no_clock config =
    no_repository
    || no_adapter
    || no_clock
    || config.owner_id == nil_uuid
    || leb_ℤ config.lease_duration (pos 0)
    || leb_ℤ config.attempt_timeout (pos 0)
    || leb_ℤ config.lease_safety_margin (pos 0)
    || leb_ℤ config.lease_duration config.lease_safety_margin
    || ltb_ℤ (wrap64 (config.lease_duration -ℤ config.lease_safety_margin)) config.attempt_timeout
    || leb_ℤ config.base_retry_delay (pos 0)
    || ltb_ℤ config.max_retry_delay config.base_retry_delay
    || leb_ℤ config.max_attempts (pos 0)
    || ltb_ℤ max_int32 config.max_attempts

-- A service is its configuration: repository, adapter and clock are the world it runs in.
unfoldable pub new_service : Bool → Bool → Bool → Config → Result Config
new_service no_repository no_adapter no_clock config =
    if rejects_config no_repository no_adapter no_clock config
    then fail (plain invalid_configuration)
    else ok config

-- `d / 2`, which drops the fraction towards zero.
abbrev pub half : ℤ → ℤ
half (pos n) = pos (n / 2)
half (negsuc n) = if suc n / 2 == 0 then pos 0 else negsuc (suc n / 2 - 1)

-- The loop of `retryDelay`, by the rounds that are left until `current` reaches `attempt`.
unfoldable pub retry_loop : ℤ → ℕ → ℤ → ℤ
unfolding wrap64 ◌+ℤ◌
retry_loop max zero delay = if ltb_ℤ max delay then max else delay
retry_loop max (suc rounds) delay =
    let rest = retry_loop max rounds (wrap64 (delay +ℤ delay)) in
    if ltb_ℤ delay max
    then (if ltb_ℤ (half max) delay then max else rest)
    else (if ltb_ℤ max delay then max else delay)

unfoldable pub retry_delay : Config → ℤ → ℤ
unfolding ◌-ℤ◌
retry_delay config attempt =
    retry_loop config.max_retry_delay (pos_part (attempt -ℤ pos 1)) config.base_retry_delay

unfoldable pub claimable_prior_status : Status → Bool
claimable_prior_status pending = true
claimable_prior_status running = true
claimable_prior_status retry_wait = true
claimable_prior_status unknown = true
claimable_prior_status _ = false

unfoldable pub valid_claim : Config → ClaimedMailboxOperation → Bool
unfolding claimable_prior_status
valid_claim config claimed =
    not (claimed.operation_id == nil_uuid)
    && not (claimed.tenant_id == nil_uuid)
    && not (claimed.mailbox_id == nil_uuid)
    && not (claimed.domain_id == nil_uuid)
    && not (is_empty claimed.address)
    && ltb_ℤ (pos 0) claimed.desired_revision
    && ltb_ℤ (pos 0) claimed.attempt_number
    && leb_ℤ claimed.attempt_number config.max_attempts
    && claimed.lease_owner_id == config.owner_id
    && ltb_ℤ (pos 0) claimed.lease_epoch
    && not (claimed.lease_expires_at =ℤ pos 0)
    && claimable_prior_status claimed.prior_status

abbrev pub is_active : MailboxStatus → Bool
is_active active = true
is_active _ = false

unfoldable pub matches_desired : ClaimedMailboxOperation → ObservedMailbox → Bool
matches_desired claimed observation =
    observation.mailbox_id == claimed.mailbox_id
    && is_active observation.status
    && observation.revision =ℤ claimed.desired_revision
    && observation.configuration_hash == claimed.configuration_hash
    && not (observation.inspected_at =ℤ pos 0)
