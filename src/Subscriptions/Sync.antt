-- ===== src/Subscriptions/Sync.antt =====
-- What a Polar webhook changes: `applySync` and the calls through it
-- (src/lib/server/services/subscription.service.ts).
use uppity.Base.{
  ℕ, ◌+◌, Bool, not, ◌&&◌, ◌||◌, Option, none, some, leb, ◌==◌, if◌then◌else◌, is_some, is_none,
  holds, or_default, or_else, count_where, update_where,
}
use uppity.Tables.{Db, Subscription, SubscriptionStatus, active, BillingInterval, PlanId, free_id}
use uppity.Plans.{is_block_eligible}
use uppity.Capacity.{ceiling_of, resume_after_raise, find_subscription}
use uppity.Subscriptions.{insert_subscription}

-- `PolarSyncData`. In `billing_interval`, `none` keeps what is stored and `some none` clears it.
pub record PolarSyncData : Type 0 where
  pub plan_id : PlanId
  pub status : SubscriptionStatus
  pub polar_customer_id : Option ℕ
  pub polar_subscription_id : Option ℕ
  pub billing_interval : Option (Option BillingInterval)
  pub current_period_start : Option ℕ
  pub current_period_end : Option ℕ

pub record HeldPolarSubscription : Type 0 where
  pub polar_subscription_id : ℕ
  pub polar_customer_id : ℕ

-- `FREE_SYNC`
abbrev pub free_sync : PolarSyncData
free_sync = record {
  plan_id = free_id;
  status = active;
  polar_customer_id = none;
  polar_subscription_id = none;
  billing_interval = some none;
  current_period_start = none;
  current_period_end = none;
}

abbrev pub period_boundary_tolerance_ms : ℕ
period_boundary_tolerance_ms = 60000

-- `periodRolled`. `start >= end - tolerance` is `end <= start + tolerance`.
abbrev pub period_rolled : Subscription → PolarSyncData → Bool
period_rolled existing incoming =
    is_some incoming.current_period_end
    && holds
        (λ start.
          holds (λ t. leb t (start + period_boundary_tolerance_ms)) existing.current_period_end)
        incoming.current_period_start

-- `heldBy`
abbrev pub held_by : HeldPolarSubscription → Subscription → Bool
held_by held s =
    holds (λ i. i == held.polar_subscription_id) s.polar_subscription_id
    || (is_none s.polar_subscription_id
        && holds (λ c. c == held.polar_customer_id) s.polar_customer_id)

-- The `WHERE` of the update: the organization, and what it is held by, if that is given.
abbrev pub is_synced : ℕ → Option HeldPolarSubscription → Subscription → Bool
is_synced org none s = s.organization_id == org
is_synced org (some held) s = (s.organization_id == org) && held_by held s

-- `leavingBlockEligibility`
abbrev pub is_leaving : Subscription → PolarSyncData → Bool
is_leaving existing incoming =
    is_block_eligible existing.plan_id && not (is_block_eligible incoming.plan_id)

-- A scheduled reduction lands.
abbrev pub lands : Subscription → PolarSyncData → Bool
lands existing incoming = is_some existing.scheduled_blocks && period_rolled existing incoming

-- The update's `SET`; `existing` is the row as it was read, `s` the row that is written.
abbrev pub synced : ℕ → PolarSyncData → Subscription → Subscription → Subscription
synced now incoming existing s = record s {
  plan_id = incoming.plan_id;
  status = incoming.status;
  blocks =
      if is_leaving existing incoming
      then 0
      else if lands existing incoming
      then or_default s.scheduled_blocks s.blocks
      else s.blocks;
  scheduled_blocks =
      if is_leaving existing incoming || lands existing incoming then none else s.scheduled_blocks;
  polar_customer_id = or_else incoming.polar_customer_id existing.polar_customer_id;
  polar_subscription_id = or_else incoming.polar_subscription_id existing.polar_subscription_id;
  billing_interval = or_default incoming.billing_interval existing.billing_interval;
  current_period_start = or_else incoming.current_period_start existing.current_period_start;
  current_period_end = or_else incoming.current_period_end existing.current_period_end;
  updated_at = now;
}

-- The row that a first sync inserts.
abbrev pub new_synced : ℕ → ℕ → ℕ → PolarSyncData → Subscription
new_synced now id org incoming = record {
  id = id;
  organization_id = org;
  plan_id = incoming.plan_id;
  status = incoming.status;
  blocks = 0;
  scheduled_blocks = none;
  over_capacity_since = none;
  capacity_notice = none;
  capacity_noticed_at = none;
  billing_interval = or_default incoming.billing_interval none;
  current_period_start = incoming.current_period_start;
  current_period_end = incoming.current_period_end;
  polar_customer_id = incoming.polar_customer_id;
  polar_subscription_id = incoming.polar_subscription_id;
  updated_at = now;
}

module _ (self_hosted : Bool) where
  abbrev pub write_sync :
      ℕ
      → ℕ
      → PolarSyncData
      → Option HeldPolarSubscription
      → Subscription
      → Db
      → Db × Option Subscription
  write_sync now org incoming held existing db =
      let written : Db = record db {
        subscriptions =
            update_where (is_synced org held) (synced now incoming existing) db.subscriptions;
      } in
      let updated = synced now incoming existing existing in
      if count_where (is_synced org held) db.subscriptions == 0 then (db, none) else (
        (resume_after_raise self_hosted now org (ceiling_of self_hosted existing)
            (ceiling_of self_hosted updated) written).0,
        some updated,
      )

  abbrev pub sync_row :
      ℕ
      → ℕ
      → ℕ
      → PolarSyncData
      → Option HeldPolarSubscription
      → Db
      → Option Subscription
      → Db × Option Subscription
  sync_row now id org incoming held db (some existing) =
      write_sync now org incoming held existing db
  sync_row now id org incoming (some held) db none = (db, none)
  sync_row now id org incoming none db none = (
    insert_subscription (new_synced now id org incoming) db,
    some (new_synced now id org incoming),
  )

  -- `applySync`: `none` is null
  unfoldable pub apply_sync :
      ℕ → ℕ → ℕ → PolarSyncData → Option HeldPolarSubscription → Db → Db × Option Subscription
  apply_sync now id org incoming held db =
      sync_row now id org incoming held db (find_subscription db org)

  -- `syncFromPolar`: `none` is the throw
  unfoldable pub sync_from_polar : ℕ → ℕ → ℕ → PolarSyncData → Db → Db × Option Subscription
  sync_from_polar now id org incoming = apply_sync now id org incoming none

  -- `syncHeldFromPolar`
  unfoldable pub sync_held_from_polar :
      ℕ → ℕ → ℕ → HeldPolarSubscription → PolarSyncData → Db → Db × Option Subscription
  sync_held_from_polar now id org held incoming = apply_sync now id org incoming (some held)

  -- `downgradeToFree`
  unfoldable pub downgrade_to_free : ℕ → ℕ → ℕ → Db → Db × Option Subscription
  downgrade_to_free now id org = sync_from_polar now id org free_sync

  -- `downgradeHeldToFree`
  unfoldable pub downgrade_held_to_free :
      ℕ → ℕ → ℕ → HeldPolarSubscription → Db → Db × Option Subscription
  downgrade_held_to_free now id org held = apply_sync now id org free_sync (some held)
