-- ===== src/Subscriptions/Limits.antt =====
-- What an organization may do on its plan (src/lib/server/services/subscription.service.ts). The
-- numbers of its status pages and of its members and open invitations are arguments, since their
-- tables are not modelled; messages to the user are left out.
use uppity.Base.{
  ℕ, ◌+◌, Bool, true, false, Option, none, some, ltb, leb, if◌then◌else◌, or_default, any,
}
use uppity.Tables.{Db, Subscription}
use uppity.Plans.{
  PlanLimits, ChannelType, email, slack, discord, webhook, plan_or_free, apply_capacity_blocks,
  self_hosted_limits,
}
use uppity.Capacity.{active_monitor_count}
use uppity.Subscriptions.{get_or_create_subscription}

-- `LimitCheckResult`
pub record LimitCheckResult : Type 0 where
  pub allowed : Bool
  pub current_usage : Option ℕ
  pub limit : Option ℕ

-- `canAdd`, from the limit and the usage
abbrev pub can_add : Option ℕ → ℕ → LimitCheckResult
can_add none usage = record { allowed = true; current_usage = none; limit = none }
can_add (some n) usage = record {
  allowed = ltb usage n;
  current_usage = some usage;
  limit = some n;
}

abbrev pub same_channel : ChannelType → ChannelType → Bool
same_channel email email = true
same_channel slack slack = true
same_channel discord discord = true
same_channel webhook webhook = true
same_channel _ _ = false

abbrev pub limits_of : Subscription → PlanLimits
limits_of sub = apply_capacity_blocks (plan_or_free sub.plan_id) sub.blocks

module _ (self_hosted : Bool) (now id org : ℕ) where
  -- `getEffectiveLimits`
  unfoldable pub get_effective_limits : Db → Db × PlanLimits
  get_effective_limits db =
      if self_hosted
      then (db, self_hosted_limits)
      else let (ready, sub) = get_or_create_subscription now id org db in (ready, limits_of sub)

  -- `canAddMonitor`
  unfoldable pub can_add_monitor : Db → Db × LimitCheckResult
  unfolding get_effective_limits
  can_add_monitor db =
      let (ready, limits) = get_effective_limits db in
      (ready, can_add limits.monitors (active_monitor_count ready org))

  -- `canAddStatusPage`
  unfoldable pub can_add_status_page : ℕ → Db → Db × LimitCheckResult
  unfolding get_effective_limits
  can_add_status_page pages db =
      let (ready, limits) = get_effective_limits db in (ready, can_add limits.status_pages pages)

  -- `getMemberCapacity`: used, the limit, and whether one more may be invited
  unfoldable pub get_member_capacity : ℕ → ℕ → ℕ → Db → Db × ℕ × ℕ × Bool
  unfolding get_effective_limits
  get_member_capacity membership_limit members pending db =
      let (ready, limits) = get_effective_limits db in
      let limit = or_default limits.team_members membership_limit in
      (ready, members + pending, limit, ltb (members + pending) limit)

  -- `isCheckIntervalAllowed`
  unfoldable pub is_check_interval_allowed : ℕ → Db → Db × LimitCheckResult
  unfolding get_effective_limits
  is_check_interval_allowed seconds db =
      let (ready, limits) = get_effective_limits db in
      (
        ready,
        record {
          allowed = leb limits.check_interval_seconds seconds;
          current_usage = none;
          limit = some limits.check_interval_seconds;
        },
      )

  -- `isNotificationChannelAllowed`
  unfoldable pub is_notification_channel_allowed : ChannelType → Db → Db × Bool
  unfolding get_effective_limits
  is_notification_channel_allowed channel db =
      let (ready, limits) = get_effective_limits db in
      (ready, any (same_channel channel) limits.notification_channels)

  -- `areCustomDomainsAllowed`
  unfoldable pub are_custom_domains_allowed : Db → Db × Bool
  unfolding get_effective_limits
  are_custom_domains_allowed db =
      let (ready, limits) = get_effective_limits db in (ready, limits.custom_domains)

-- `takeMonitorSlot`. `take` is what the caller does in the slot; the result has its value, or the limit
-- that is reached.
pub data SlotResult {ℓ} (A : Type ℓ) : Type ℓ where
  taken : A → SlotResult A
  refused : ℕ → SlotResult A

abbrev pub taken_on {ℓ} : {A : Type ℓ} → (Db → Db × A) → Db → Db × SlotResult A
taken_on take db = let (after, value) = take db in (after, taken value)

abbrev pub take_below {ℓ} : {A : Type ℓ} → Option ℕ → ℕ → (Db → Db × A) → Db → Db × SlotResult A
take_below none used take db = taken_on take db
take_below (some limit) used take db =
    if leb limit used then (db, refused limit) else taken_on take db

unfoldable pub take_monitor_slot {ℓ} :
    {A : Type ℓ} → Bool → ℕ → ℕ → ℕ → (Db → Db × A) → Db → Db × SlotResult A
take_monitor_slot self_hosted now id org take db =
    if self_hosted
    then taken_on take db
    else let (ready, sub) = get_or_create_subscription now id org db in
      take_below (limits_of sub).monitors (active_monitor_count ready org) take ready
