-- ===== src/Subscriptions/Slots.antt =====
-- `takeMonitorSlot` (src/lib/server/services/subscription.service.ts).
use uppity.Base.{
  ℕ, ◌+◌, ◌≤◌, ◌≡◌, refl, false, some, arith, ◌<◌, ◌⊎◌, ap, Option, none, count_where, Bool-cases,
  inl, inr, leb,
}
use uppity.Tables.{Db, Subscription}
use uppity.Capacity.{active_monitor_count, is_active_of, find_subscription}
use uppity.Subscriptions.{get_or_create_subscription, or_insert, free_subscription}
use uppity.Subscriptions.Limits.{limits_of, take_monitor_slot, taken, refused}

-- A caller that takes a slot starts at most one monitor of the organization.
abbrev pub TakesOne : ℕ → (Db → Db × ℕ) → Type 0
TakesOne org take = (d : Db) → active_monitor_count (take d).0 org ≤ active_monitor_count d org + 1

same_monitors :
    (now id org : ℕ) (db : Db) → (get_or_create_subscription now id org db).0.monitors ≡ db.monitors
unfolding get_or_create_subscription
same_monitors now id org db = go (find_subscription db org)
  where
    go :
        (o : Option Subscription)
        → (or_insert (free_subscription now id org) db o).0.monitors ≡ db.monitors
    go none = refl
    go (some s) = refl

-- On a plan with a ceiling that is kept, and for a caller that starts one monitor at most, a
-- slot is refused, and no monitor changes, only where the active monitors fill the ceiling;
-- otherwise it is taken below the ceiling, and the ceiling is still kept.
pub take_monitor_slot-IsWithin :
    (now id org limit : ℕ) (take : Db → Db × ℕ) (db : Db)
    → TakesOne org take
    → (limits_of (get_or_create_subscription now id org db).1).monitors ≡ some limit
    → active_monitor_count db org ≤ limit
    → let (db', result) = take_monitor_slot false now id org take db in
      ((result ≡ refused limit)
        × (active_monitor_count db org ≡ limit)
        × (db'.monitors ≡ db.monitors))
      ⊎ ((v : ℕ) × (result ≡ taken v)
          × (active_monitor_count db org < limit)
          × (active_monitor_count db' org ≤ limit))
unfolding take_monitor_slot active_monitor_count
take_monitor_slot-IsWithin now id org limit take db one capped fits =
    let (ready, sub) = get_or_create_subscription now id org db in
    let same : ready.monitors ≡ db.monitors = same_monitors now id org db in
    let count : active_monitor_count ready org ≡ active_monitor_count db org =
      ap (count_where (is_active_of org)) same in
    let adds : active_monitor_count (take ready).0 org ≤ active_monitor_count ready org + 1 =
      one ready in
    elim (Bool-cases (leb limit (active_monitor_count ready org))) [
      | inl full ↦ simp (capped, full) (inl (refl, ground (arith, count, fits), same))
      | inr room ↦
          simp (capped, room)
            (inr ((take ready).1, refl, ground (arith, count), ground (arith, adds)))
    ]
