-- ===== src/Capacity.antt =====
-- The monitor ceiling and the grace period above it (src/lib/server/services/capacity.service.ts).
-- `self_hosted` is `isSelfHosted()`. A ceiling of `none` is no ceiling.
pub mod Slots
pub mod Pass
pub mod Grace
pub mod Spared
use uppity.Base.{
  ℕ, zero, ◌+◌, ◌-◌, ◌*◌, min, String, Bool, true, false, not, ◌&&◌, ◌||◌, Option, none, some, List,
  [], ◌∷◌, ltb, leb, ◌==◌, if◌then◌else◌, is_some, is_none, holds, rows_where, count_where,
  first_where, update_where, take, length, order_by, map, any,
}
use uppity.Tables.{
  Db, Monitor, Subscription, NoticeKind, over_notice, week_notice, day_notice, paused_notice,
}
use uppity.Plans.{plan_or_free, apply_capacity_blocks}
use uppity.Schedule.{is_among}

abbrev pub day_ms : ℕ
day_ms = 86400000

abbrev pub grace_period_days : ℕ
grace_period_days = 14

-- `ceilingOf`
unfoldable pub ceiling_of : Bool → Subscription → Option ℕ
ceiling_of self_hosted sub =
    if self_hosted
    then none
    else (apply_capacity_blocks (plan_or_free sub.plan_id) sub.blocks).monitors

-- `pauseDate`
abbrev pub pause_date : ℕ → ℕ
pause_date since = since + grace_period_days * day_ms

abbrev pub is_active_of : ℕ → Monitor → Bool
is_active_of org m = (m.organization_id == org) && m.active

-- `activeMonitorCount`
unfoldable pub active_monitor_count : Db → ℕ → ℕ
active_monitor_count db org = count_where (is_active_of org) db.monitors

-- `desc(createdAt), desc(id)`
abbrev pub newer_first : Monitor → Monitor → Bool
newer_first m n = ltb n.created_at m.created_at || ((m.created_at == n.created_at) && leb n.id m.id)

-- `newestActive`
unfoldable pub newest_active : Db → ℕ → ℕ → List Monitor
newest_active db org limit =
    take limit (order_by newer_first (rows_where (is_active_of org) db.monitors))

abbrev pub has_clock : ℕ → Subscription → Bool
has_clock org s = (s.organization_id == org) && is_some s.over_capacity_since

abbrev pub without_clock : Subscription → Subscription
without_clock s = record s {
  over_capacity_since = none;
  capacity_notice = none;
  capacity_noticed_at = none;
}

-- `clearClock`
unfoldable pub clear_clock : ℕ → Db → Db × Bool
clear_clock org db = (
  record db { subscriptions = update_where (has_clock org) without_clock db.subscriptions },
  ltb 0 (count_where (has_clock org) db.subscriptions),
)

unfoldable pub find_subscription : Db → ℕ → Option Subscription
find_subscription db org = first_where (λ s. s.organization_id == org) db.subscriptions

-- `active <= ceiling`, or no ceiling
abbrev pub fits : Option ℕ → ℕ → Bool
fits none active = true
fits (some c) active = leb active c

abbrev pub max_safe_integer : ℕ
max_safe_integer = 9007199254740991

-- How many monitors a raise resumes at most. Where the source's difference is negative it
-- resumes none, as the truncated one here.
abbrev pub room : Option ℕ → Option ℕ → ℕ → ℕ
room none after active = 0
room (some b) none active = max_safe_integer
room (some b) (some a) active = min (a - b) (a - active)

abbrev pub is_paused_of : ℕ → Monitor → Bool
is_paused_of org m = (m.organization_id == org) && is_some m.capacity_paused_at

abbrev pub older_first : Monitor → Monitor → Bool
older_first m n = ltb m.created_at n.created_at || ((m.created_at == n.created_at) && leb m.id n.id)

abbrev pub resume : ℕ → Monitor → Monitor
resume now m = record m {
  active = true;
  capacity_paused_at = none;
  updated_at = now;
  next_check_at = some now;
  check_retry_count = some 0;
  check_last_error = none;
  check_backoff_until = none;
}

abbrev pub paused_rows : ℕ → ℕ → Db → List Monitor
paused_rows org n db = take n (order_by older_first (rows_where (is_paused_of org) db.monitors))

abbrev pub resume_rows : ℕ → List Monitor → Db → Db
resume_rows now rows db = record db {
  monitors = update_where (is_among rows) (resume now) db.monitors;
}

module _ (self_hosted : Bool) where
  abbrev pub clear_found : ℕ → Db → Option Subscription → Db
  clear_found org db none = db
  clear_found org db (some sub) =
      if is_some sub.over_capacity_since
        && fits (ceiling_of self_hosted sub) (active_monitor_count db org)
      then (clear_clock org db).0
      else db

  -- `clearIfWithinCeiling`
  unfoldable pub clear_if_within_ceiling : ℕ → Db → Db
  clear_if_within_ceiling org db = clear_found org db (find_subscription db org)

  -- `resumeAfterRaise`: the database, and how many resumed
  unfoldable pub resume_after_raise : ℕ → ℕ → Option ℕ → Option ℕ → Db → Db × ℕ
  resume_after_raise now org before after db =
      let n = room before after (active_monitor_count db org) in
      let rows = paused_rows org n db in
      if n == 0 then (db, 0) else (
        clear_if_within_ceiling org (resume_rows now rows db),
        count_where (is_among rows) db.monitors,
      )
