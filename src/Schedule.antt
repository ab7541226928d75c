-- ===== src/Schedule.antt =====
-- The scheduler (src/worker/monitor/schedule.ts): claims of due monitors, and what a check's end does
-- to the schedule. `now` is the database's clock in milliseconds.
pub mod Claim
pub mod Backoff
pub mod DeadLetter
use uppity.Base.{
  ℕ, zero, suc, ◌+◌, ◌-◌, ◌*◌, ◌/◌, ◌^◌, min, max, String, Bool, true, false, not, ◌&&◌, ◌||◌,
  Option, none, some, List, [], ◌∷◌, ltb, leb, ◌==◌, if◌then◌else◌, is_some, is_none, or_default,
  holds, rows_where, update_where, any, take, order_by,
}
use uppity.Settings.{Settings}
use uppity.Tables.{
  Db, Monitor, NotificationEvent, NotificationType, monitor_checks_stopped, monitor_checks_resumed,
  pending, Content, empty,
}

-- Whole seconds, rounded up.
abbrev pub ceil_seconds : ℕ → ℕ
ceil_seconds ms = (ms + 999) / 1000

-- `monitor_lease_seconds` (drizzle/0029_monitor_lease.sql)
abbrev pub lease_seconds : Settings → Monitor → ℕ
lease_seconds cfg m = (m.timeout_seconds + ceil_seconds cfg.retry_delay_ms) * (m.retries + 1) + 30

abbrev pub is_due : ℕ → Monitor → Bool
is_due now m =
    m.active
    && holds (λ t. leb t now) m.next_check_at
    && (is_none m.check_backoff_until || holds (λ t. leb t now) m.check_backoff_until)

-- `ORDER BY next_check_at ASC`; a due monitor has a time.
abbrev pub due_before : Monitor → Monitor → Bool
due_before m n = leb (or_default m.next_check_at 0) (or_default n.next_check_at 0)

abbrev pub lease : Settings → ℕ → Monitor → Monitor
lease cfg now m = record m { check_backoff_until = some (now + lease_seconds cfg m * 1000) }

abbrev pub is_among : List Monitor → Monitor → Bool
is_among rows m = any (λ r. r.id == m.id) rows

-- The rows that a poll picks: due, not locked by another poll, the longest due first.
unfoldable pub due_rows : (ℕ → Bool) → ℕ → ℕ → List Monitor → List Monitor
due_rows locked limit now ms =
    take limit (order_by due_before (rows_where (λ m. is_due now m && not (locked m.id)) ms))

-- `claimDueMonitors`: the leased rows are the claim.
unfoldable pub claim_due_monitors : Settings → (ℕ → Bool) → ℕ → ℕ → Db → Db × List Monitor
claim_due_monitors cfg locked limit now db =
    let due : List Monitor = due_rows locked limit now db.monitors in
    let leased : List Monitor = update_where (is_among due) (lease cfg now) db.monitors in
    (record db { monitors = leased }, rows_where (is_among due) leased)

-- `GREATEST`, which passes over NULL
abbrev pub greatest : Option ℕ → Option ℕ → Option ℕ
greatest none u = u
greatest (some t) none = some t
greatest (some t) (some u) = some (max t u)

-- The furthest time at which this scheduler ever schedules a monitor.
abbrev pub horizon : Settings → ℕ → Monitor → ℕ
horizon cfg now m =
    now + (max m.interval_seconds (ceil_seconds cfg.max_backoff_ms) + lease_seconds cfg m) * 1000

abbrev pub is_overlong : Settings → ℕ → Monitor → Bool
is_overlong cfg now m =
    m.active && holds (ltb (horizon cfg now m)) (greatest m.next_check_at m.check_backoff_until)

abbrev pub make_due : ℕ → Monitor → Monitor
make_due now m = record m { next_check_at = some now; check_backoff_until = none }

-- `releaseOverlongSchedules`
unfoldable pub release_overlong_schedules : Settings → ℕ → Db → Db
release_overlong_schedules cfg now db = record db {
  monitors = update_where (is_overlong cfg now) (make_due now) db.monitors;
}

-- `enqueue`
abbrev pub check_event : Monitor → ℕ → ℕ → NotificationType → NotificationEvent
check_event m id now type = record {
  id = id;
  organization_id = m.organization_id;
  monitor_id = some m.id;
  incident_id = none;
  type = type;
  payload = record { content = empty; retry = none; mail_server_down = none };
  status = pending;
  claimed_at = none;
  processed_at = none;
  error_message = none;
  created_at = now;
}

abbrev pub after_success : ℕ → Monitor → Monitor → Monitor
after_success now m row = record row {
  next_check_at = some (now + m.interval_seconds * 1000);
  check_retry_count = some 0;
  check_last_error = none;
  check_backoff_until = none;
  dead_lettered_at = if is_some m.dead_lettered_at then none else row.dead_lettered_at;
}

abbrev pub set_monitor : ℕ → (Monitor → Monitor) → Db → Db
set_monitor id f db = record db { monitors = update_where (λ r. r.id == id) f db.monitors }

-- `recordCheckSuccess`, of the row `m` as the worker claimed it
unfoldable pub record_check_success : ℕ → ℕ → Monitor → Db → Db
record_check_success now event_id m db =
    let written : Db = set_monitor m.id (after_success now m) db in
    if is_some m.dead_lettered_at
    then record written { events = check_event m event_id now monitor_checks_resumed ∷ db.events }
    else written

abbrev pub retry_count : Monitor → ℕ
retry_count m = or_default m.check_retry_count 0 + 1

-- The wait after the n-th failure in a row.
unfoldable pub backoff_ms : Settings → ℕ → ℕ
backoff_ms cfg n = min (cfg.initial_backoff_ms * cfg.multiplier ^ (n - 1)) cfg.max_backoff_ms

-- `entering`; `tracked` says whether the dead-letter column exists yet
abbrev pub is_entering : Settings → Bool → Monitor → Bool
is_entering cfg tracked m =
    leb cfg.max_attempts (retry_count m) && is_none m.dead_lettered_at && tracked

abbrev pub after_failure : Settings → Bool → ℕ → String → Monitor → Monitor → Monitor
after_failure cfg tracked now error m row = record row {
  check_retry_count = some (retry_count m);
  check_last_error = some error;
  check_backoff_until = some (now + backoff_ms cfg (retry_count m));
  next_check_at = some (now + backoff_ms cfg (retry_count m));
  dead_lettered_at = if is_entering cfg tracked m then some now else row.dead_lettered_at;
}

-- `recordCheckFailure`
unfoldable pub record_check_failure : Settings → Bool → ℕ → ℕ → String → Monitor → Db → Db
record_check_failure cfg tracked now event_id error m db =
    let written : Db = set_monitor m.id (after_failure cfg tracked now error m) db in
    if is_entering cfg tracked m
    then record written { events = check_event m event_id now monitor_checks_stopped ∷ db.events }
    else written
