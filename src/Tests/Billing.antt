-- ===== src/Tests/Billing.antt =====
-- Subscriptions and the ceiling at a sample organization.
use uppity.Base.{
  order_by, ℕ, ◌-◌, max, ◌≤◌, ◌<◌, ◌≡◌, ◌⊎◌, refl, false, none, some, [], ◌∷◌, arith, count_where,
  first_where, rows_where,
}
use uppity.Tables.{Db, Subscription, uppity_id, active, month, dedicated_id}
use uppity.Capacity.{active_monitor_count, resume_after_raise, find_subscription}
use uppity.Capacity.Slots.{resume-IsWithin}
use uppity.Subscriptions.{
  get_or_create_subscription, set_blocks, free_subscription, apply_scheduled_reductions,
}
use uppity.Subscriptions.Sync.{PolarSyncData, apply_sync}
use uppity.Subscriptions.Limits.{take_monitor_slot, taken, refused}
use uppity.Subscriptions.Blocks.{AreSound}
use uppity.Subscriptions.Billed.{Changes, here, next, blocks_set, synced_from, Changes-AreSound}
use uppity.Subscriptions.Reduction.{set_blocks-reduces}
use uppity.Subscriptions.Slots.{take_monitor_slot-IsWithin}
use uppity.Tests.Sample.{web, sample}

abbrev paying : Subscription
paying = record (free_subscription 0 5 7) {
  plan_id = uppity_id;
  blocks = 4;
  billing_interval = some month;
  current_period_start = some 1000;
  current_period_end = some 9000;
  polar_customer_id = some 70;
  polar_subscription_id = some 71;
}

abbrev billed : Db
billed = record sample {
  monitors = record web { id = 2; active = false; capacity_paused_at = some 4 } ∷ sample.monitors;
  subscriptions = paying ∷ [];
}

billed-AreSound : AreSound billed.subscriptions
unfolding count_where
billed-AreSound = record {
  keyed = λ org. ground arith;
  sound = (record { bounded = omega arith; billed = λ e. cc; lower = λ n e. cc }, tt);
}

abbrev to_dedicated : PolarSyncData
to_dedicated = record {
  plan_id = dedicated_id;
  status = active;
  polar_customer_id = none;
  polar_subscription_id = none;
  billing_interval = none;
  current_period_start = none;
  current_period_end = none;
}

-- A reduction is scheduled, then the organization moves to a plan without blocks.
abbrev reduced_then_moved :
    Changes false billed
      (apply_sync false 3000 9 7 to_dedicated none (set_blocks false 2000 8 7 1 billed).0).0
reduced_then_moved =
    next (next here (blocks_set 2000 8 7 1)) (synced_from 3000 9 7 to_dedicated none)

Changes-AreSound_example :
    AreSound
      (apply_sync false 3000 9 7 to_dedicated none
        (set_blocks false 2000 8 7 1 billed).0).0.subscriptions
Changes-AreSound_example = Changes-AreSound reduced_then_moved billed-AreSound

abbrev paying_found : find_subscription billed 7 ≡ some paying
unfolding find_subscription first_where
paying_found = refl

set_blocks-reduces_example :
    let db' = (set_blocks false 2000 8 7 1 billed).0 in
    ((s : Subscription) × (find_subscription db' 7 ≡ some s)
      × (s.blocks ≡ 4)
      × (s.scheduled_blocks ≡ some 1))
    × ((s : Subscription) × (find_subscription (apply_scheduled_reductions 9000 9001 db').0 7
          ≡ some s)
        × (s.blocks ≡ 1)
        × (s.scheduled_blocks ≡ none))
set_blocks-reduces_example =
    set_blocks-reduces false 2000 8 7 1 9000 9001 billed paying 9000 paying_found refl
      (omega arith, omega arith) (refl, omega arith)

resume-IsWithin_example :
    let (db', resumed) = resume_after_raise false 10 7 (some 1) (some 2) billed in
    (resumed ≤ 2 - 1) × (active_monitor_count db' 7 ≤ max 2 (active_monitor_count billed 7))
unfolding count_where
resume-IsWithin_example = resume-IsWithin false 10 7 1 2 billed (λ id. ground arith)

resumed_one : (resume_after_raise false 10 7 (some 1) (some 2) billed).1 ≡ 1
unfolding resume_after_raise active_monitor_count count_where order_by rows_where
resumed_one = refl

-- A take that adds a monitor.
abbrev add_monitor : Db → Db × ℕ
add_monitor db = (record db { monitors = record web { id = 3 } ∷ db.monitors }, 3)

take_monitor_slot-IsWithin_example :
    let (db', result) = take_monitor_slot false 10 6 7 add_monitor billed in
    ((result ≡ refused 250)
      × (active_monitor_count billed 7 ≡ 250)
      × (db'.monitors ≡ billed.monitors))
    ⊎ ((v : ℕ) × (result ≡ taken v)
        × (active_monitor_count billed 7 < 250)
        × (active_monitor_count db' 7 ≤ 250))
unfolding active_monitor_count count_where get_or_create_subscription find_subscription first_where
take_monitor_slot-IsWithin_example =
    take_monitor_slot-IsWithin 10 6 7 250 add_monitor billed (λ d. ground arith) refl (omega arith)
