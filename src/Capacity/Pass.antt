-- ===== src/Capacity/Pass.antt =====
-- The daily pass of the grace period: `runCapacityGrace`
-- (src/lib/server/services/capacity.service.ts). `send` says which notices are delivered; the
-- organization's name and its recipients are left to it.
use uppity.Base.{
  ℕ, ◌+◌, ◌-◌, ◌*◌, String, Bool, true, false, ◌&&◌, Option, none, some, List, [], ◌∷◌, ltb, leb,
  ◌==◌, if◌then◌else◌, is_some, holds, update_where, count_where, map,
}
use uppity.Tables.{
  Db, Monitor, Subscription, NoticeKind, over_notice, week_notice, day_notice, paused_notice,
}
use uppity.Schedule.{is_among}
use uppity.Capacity.{
  day_ms, pause_date, ceiling_of, active_monitor_count, newest_active, clear_clock,
}

pub data CapacityNotice : Type 0 where
  warning : NoticeKind → ℕ → ℕ → ℕ → List String → CapacityNotice
  paused : ℕ → List String → CapacityNotice

-- `CapacityGraceResult`
pub record GraceResult : Type 0 where
  pub organizations_over : ℕ
  pub clocks_started : ℕ
  pub clocks_cleared : ℕ
  pub notices_sent : ℕ
  pub monitors_paused : ℕ
  pub failures : List ℕ

-- `warningDue`
abbrev pub warning_due : ℕ → NoticeKind
warning_due elapsed =
    if leb (13 * day_ms) elapsed
    then day_notice
    else if leb (7 * day_ms) elapsed
    then week_notice
    else over_notice

-- `rank`, counted from zero
abbrev pub rank : Option NoticeKind → ℕ
rank none = 0
rank (some over_notice) = 1
rank (some week_notice) = 2
rank (some day_notice) = 3
rank (some paused_notice) = 4

abbrev pub is_day : NoticeKind → Bool
is_day day_notice = true
is_day _ = false

-- `enforce`
abbrev pub enforces : ℕ → ℕ → Subscription → Bool
enforces now since sub =
    holds is_day sub.capacity_notice
    && leb (pause_date since) now
    && holds (λ t. leb (t + day_ms) now) sub.capacity_noticed_at

abbrev pub set_sub : ℕ → (Subscription → Subscription) → Db → Db
set_sub id f db = record db { subscriptions = update_where (λ s. s.id == id) f db.subscriptions }

abbrev pub with_notice : ℕ → NoticeKind → Subscription → Subscription
with_notice now kind s = record s { capacity_notice = some kind; capacity_noticed_at = some now }

abbrev pub with_clock : ℕ → Subscription → Subscription
with_clock now s = record s {
  over_capacity_since = some now;
  capacity_notice = none;
  capacity_noticed_at = none;
}

abbrev pub pause_row : ℕ → Monitor → Monitor
pause_row now m = record m { active = false; capacity_paused_at = some now; updated_at = now }

abbrev pub is_pausing : List Monitor → Monitor → Bool
is_pausing rows m = is_among rows m && m.active

abbrev names : List Monitor → List String
names = map (λ m. m.name)

abbrev fail : Subscription → GraceResult → GraceResult
fail sub r = record r { failures = sub.organization_id ∷ r.failures }

module _ (now : ℕ) (send : ℕ → CapacityNotice → Bool) (sub : Subscription) where
  abbrev pub warn : ℕ → ℕ → ℕ → Db → GraceResult → Db × GraceResult
  warn active ceiling since db r =
      let due : NoticeKind = warning_due (now - since) in
      let rows = newest_active db sub.organization_id (active - ceiling) in
      if send sub.organization_id (warning due active ceiling (pause_date since) (names rows))
      then (set_sub sub.id (with_notice now due) db, record r { notices_sent = r.notices_sent + 1 })
      else (db, fail sub r)

  abbrev pub pause : ℕ → ℕ → Db → GraceResult → Db × GraceResult
  pause active ceiling db r =
      let rows = newest_active db sub.organization_id (active - ceiling) in
      let paused_db : Db = record db {
        monitors = update_where (is_pausing rows) (pause_row now) db.monitors;
      } in
      if send sub.organization_id (paused ceiling (names rows))
      then (
        set_sub sub.id (with_notice now paused_notice) paused_db,
        record r {
          notices_sent = r.notices_sent + 1;
          monitors_paused = r.monitors_paused + count_where (is_pausing rows) db.monitors;
        },
      )
      else (db, fail sub r)

  -- The `try` block, with the clock running since `since`.
  abbrev pub enforce_row : ℕ → ℕ → ℕ → Db → GraceResult → Db × GraceResult
  enforce_row active ceiling since db r =
      if ltb (rank sub.capacity_notice) (rank (some (warning_due (now - since))))
      then warn active ceiling since db r
      else if enforces now since sub
      then pause active ceiling db r
      else (db, r)

  abbrev over : GraceResult → GraceResult
  over r = record r { organizations_over = r.organizations_over + 1 }

  abbrev started : GraceResult → GraceResult
  started r = record r { clocks_started = r.clocks_started + 1 }

  abbrev pub over_row : ℕ → ℕ → Option ℕ → Db → GraceResult → Db × GraceResult
  over_row active ceiling (some since) db r = enforce_row active ceiling since db (over r)
  over_row active ceiling none db r =
      enforce_row active ceiling now (set_sub sub.id (with_clock now) db) (started (over r))

  abbrev pub clear_row : Db → GraceResult → Db × GraceResult
  clear_row db r =
      let (cleared, any_cleared) = clear_clock sub.organization_id db in
      if is_some sub.over_capacity_since
      then (cleared, if any_cleared then record r { clocks_cleared = r.clocks_cleared + 1 } else r)
      else (db, r)

  -- One turn of the loop; `active` was counted before it.
  abbrev pub grace_row : Option ℕ → ℕ → Db → GraceResult → Db × GraceResult
  grace_row none active db r = clear_row db r
  grace_row (some ceiling) active db r =
      if leb active ceiling
      then clear_row db r
      else over_row active ceiling sub.over_capacity_since db r

module _ (now : ℕ) (send : ℕ → CapacityNotice → Bool) where
  unfoldable pub grace_rows : List (Subscription × ℕ) → Db → GraceResult → Db × GraceResult
  grace_rows [] db r = (db, r)
  grace_rows ((sub, active) ∷ rows) db r =
      let (next, r') = grace_row now send sub (ceiling_of false sub) active db r in
      grace_rows rows next r'

  abbrev no_result : GraceResult
  no_result = record {
    organizations_over = 0;
    clocks_started = 0;
    clocks_cleared = 0;
    notices_sent = 0;
    monitors_paused = 0;
    failures = [];
  }

  -- `runCapacityGrace`
  unfoldable pub run_capacity_grace : Bool → Db → Db × GraceResult
  run_capacity_grace self_hosted db =
      if self_hosted
      then (db, no_result)
      else grace_rows (map (λ s. (s, active_monitor_count db s.organization_id)) db.subscriptions)
          db no_result
