-- ===== src/Subscriptions.antt =====
-- Subscriptions: purchased capacity, syncs from Polar, and the limits of an organization
-- (src/lib/server/services/subscription.service.ts). `self_hosted` is `isSelfHosted()`.
pub mod Sync
pub mod Limits
pub mod Blocks
pub mod Billed
pub mod Slots
pub mod Reduction
use uppity.Base.{
  ℕ, zero, ◌+◌, ◌-◌, ◌*◌, String, Bool, true, false, not, ◌&&◌, ◌||◌, Option, none, some, List, [],
  ◌∷◌, ltb, leb, ◌==◌, if◌then◌else◌, is_some, is_none, holds, or_default, or_else, rows_where,
  count_where, first_where, update_where, length,
}
use uppity.Tables.{
  Db, Monitor, Subscription, SubscriptionStatus, active, BillingInterval, PlanId, free_id,
  unlisted_id,
}
use uppity.Plans.{
  Plan, PlanLimits, plans, plan_or_free, is_block_eligible, max_monitor_blocks,
  apply_capacity_blocks, self_hosted_limits,
}
use uppity.Capacity.{ceiling_of, resume_after_raise, active_monitor_count, find_subscription}

-- The row that `getOrCreateSubscription` inserts.
abbrev pub free_subscription : ℕ → ℕ → ℕ → Subscription
free_subscription now id org = record {
  id = id;
  organization_id = org;
  plan_id = free_id;
  status = active;
  blocks = 0;
  scheduled_blocks = none;
  over_capacity_since = none;
  capacity_notice = none;
  capacity_noticed_at = none;
  billing_interval = none;
  current_period_start = none;
  current_period_end = none;
  polar_customer_id = none;
  polar_subscription_id = none;
  updated_at = now;
}

abbrev pub insert_subscription : Subscription → Db → Db
insert_subscription s db = record db { subscriptions = s ∷ db.subscriptions }

abbrev pub or_insert : Subscription → Db → Option Subscription → Db × Subscription
or_insert fresh db none = (insert_subscription fresh db, fresh)
or_insert fresh db (some s) = (db, s)

-- `getOrCreateSubscription`
unfoldable pub get_or_create_subscription : ℕ → ℕ → ℕ → Db → Db × Subscription
get_or_create_subscription now id org db =
    or_insert (free_subscription now id org) db (find_subscription db org)

-- `SetBlocksResult`; a count that is not a natural number is no input of the model.
pub data SetBlocksResult : Type 0 where
  set : Subscription → SetBlocksResult
  plan_ineligible : SetBlocksResult
  above_max : ℕ → SetBlocksResult
  multi_org_customer : ℕ → SetBlocksResult

abbrev pub is_other_holder : Subscription → ℕ → Subscription → Bool
is_other_holder sub customer s =
    holds (λ c. c == customer) s.polar_customer_id
    && not (s.organization_id == sub.organization_id)
    && is_block_eligible s.plan_id
    && ltb 0 s.blocks

-- `otherBlockHolder`: the other organization
unfoldable pub other_block_holder : Db → Subscription → Option ℕ
other_block_holder db sub = elim sub.polar_customer_id [
  | none ↦ none
  | some customer ↦ elim (first_where (is_other_holder sub customer) db.subscriptions) [
    | none ↦ none
    | some s ↦ some s.organization_id
  ]
]

-- `schedule`: a reduction with a period end to schedule it for
abbrev pub is_scheduling : ℕ → Subscription → Bool
is_scheduling blocks sub = ltb blocks sub.blocks && is_some sub.current_period_end

abbrev pub with_blocks : ℕ → ℕ → Bool → Subscription → Subscription
with_blocks now blocks schedule s = record s {
  blocks = if schedule then s.blocks else blocks;
  scheduled_blocks = if schedule then some blocks else none;
  updated_at = now;
}

abbrev pub set_subscription : ℕ → (Subscription → Subscription) → Db → Db
set_subscription org f db = record db {
  subscriptions = update_where (λ s. s.organization_id == org) f db.subscriptions;
}

module _ (self_hosted : Bool) where
  abbrev pub write_blocks : ℕ → ℕ → ℕ → Subscription → Db → Db × SetBlocksResult
  write_blocks now org blocks sub db =
      let changed = with_blocks now blocks (is_scheduling blocks sub) sub in
      let written = set_subscription org (with_blocks now blocks (is_scheduling blocks sub)) db in
      (
        (resume_after_raise self_hosted now org (ceiling_of self_hosted sub)
            (ceiling_of self_hosted changed) written).0,
        set changed,
      )

  abbrev pub unless_held : ℕ → ℕ → ℕ → Subscription → Db → Option ℕ → Db × SetBlocksResult
  unless_held now org blocks sub db none = write_blocks now org blocks sub db
  unless_held now org blocks sub db (some holder) = (db, multi_org_customer holder)

  abbrev pub set_blocks_of : ℕ → ℕ → ℕ → Subscription → Db → Db × SetBlocksResult
  set_blocks_of now org blocks sub db =
      if is_none (plans sub.plan_id) || not (is_block_eligible sub.plan_id)
      then (db, plan_ineligible)
      else unless_held now org blocks sub db
          (if ltb sub.blocks blocks then other_block_holder db sub else none)

  -- `setBlocks`; `id` is the identifier of a row that it may have to create
  unfoldable pub set_blocks : ℕ → ℕ → ℕ → ℕ → Db → Db × SetBlocksResult
  set_blocks now id org blocks db =
      if ltb max_monitor_blocks blocks
      then (db, above_max max_monitor_blocks)
      else let (ready, sub) = get_or_create_subscription now id org db in
        set_blocks_of now org blocks sub ready

abbrev pub is_reducing : ℕ → Subscription → Bool
is_reducing at s = is_some s.scheduled_blocks && holds (λ t. leb t at) s.current_period_end

abbrev pub reduced : ℕ → Subscription → Subscription
reduced now s = record s {
  blocks = or_default s.scheduled_blocks s.blocks;
  scheduled_blocks = none;
  updated_at = now;
}

-- `applyScheduledReductions`
unfoldable pub apply_scheduled_reductions : ℕ → ℕ → Db → Db × ℕ
apply_scheduled_reductions at now db = (
  record db { subscriptions = update_where (is_reducing at) (reduced now) db.subscriptions },
  count_where (is_reducing at) db.subscriptions,
)
