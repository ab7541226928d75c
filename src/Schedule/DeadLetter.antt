-- ===== src/Schedule/DeadLetter.antt =====
-- Dead letter: the ends of the checks of a monitor (src/worker/monitor/schedule.ts).
use mathlib.Core.Option
use uppity.Base.{
  ℕ, zero, suc, or_default, ◌+◌, ◌≡◌, refl, ◌∙◌, ap, String, Bool, true, false, Option, none, some,
  arith, is_some, leb, first_where, first_where-update_where, first_where-holds, count_where, ◌==◌,
  ==_iff, if◌then◌else◌,
}
use uppity.Settings.{Settings}
use uppity.Tables.{Db, Monitor, NotificationType, monitor_checks_stopped, monitor_checks_resumed}
use uppity.Alerts.{event_of}
use uppity.Schedule.{
  set_monitor, record_check_success, record_check_failure, after_success, after_failure,
}

abbrev pub is_stopped : NotificationType → Bool
is_stopped monitor_checks_stopped = true
is_stopped _ = false

abbrev pub is_resumed : NotificationType → Bool
is_resumed monitor_checks_resumed = true
is_resumed _ = false

abbrev pub monitor_row : Db → ℕ → Option Monitor
monitor_row db id = first_where (λ r. r.id == id) db.monitors

abbrev pub dead_letters : Option Monitor → ℕ
dead_letters none = 0
dead_letters (some m) = if is_some m.dead_lettered_at then 1 else 0

-- The end of a check of the monitor, whose row the worker has as it is in the table.
pub data CheckEnd (cfg : Settings) (id : ℕ) (db db' : Db) : Type 0 where
  succeeded :
      (now event_id : ℕ) (m : Monitor)
      → monitor_row db id ≡ some m
      → db' ≡ record_check_success now event_id m db
      → CheckEnd cfg id db db'
  failed :
      (tracked : Bool) (now event_id : ℕ) (error : String) (m : Monitor)
      → monitor_row db id ≡ some m
      → db' ≡ record_check_failure cfg tracked now event_id error m db
      → CheckEnd cfg id db db'

-- Any number of checks of one monitor, one after the other.
pub data CheckEnds (cfg : Settings) (id : ℕ) (db : Db) : Db → Type 0 where
  here : CheckEnds cfg id db db
  next : {a b : Db} → CheckEnds cfg id db a → CheckEnd cfg id a b → CheckEnds cfg id db b

-- There is one notice of a stop more than of a resumption exactly while the monitor is
-- dead-lettered, and otherwise there are as many.
abbrev pub IsBalanced : ℕ → Db → Type 0
IsBalanced id db =
    count_where (event_of id is_stopped) db.events
    ≡ count_where (event_of id is_resumed) db.events + dead_letters (monitor_row db id)

set_monitor-row :
    (id : ℕ) (m : Monitor) (f : Monitor → Monitor) (db : Db)
    → ((r : Monitor) → (f r).id ≡ r.id)
    → monitor_row db id ≡ some m
    → monitor_row (set_monitor m.id f db) id ≡ some (f m)
set_monitor-row id m f db keeps found =
    let own : m.id ≡ id =
      (==_iff m.id id).0 (first_where-holds (λ r. r.id == id) db.monitors found) in
    simp own (
      first_where-update_where (λ r. r.id == id) f db.monitors (λ r. ap (λ i. i == id) (keeps r))
      ∙ ap (Option.map f) found)

success-IsBalanced :
    (now event_id id : ℕ) (m : Monitor) (db : Db)
    → monitor_row db id ≡ some m
    → IsBalanced id db
    → IsBalanced id (record_check_success now event_id m db)
unfolding record_check_success count_where
success-IsBalanced now event_id id m db found bal = ground (
  arith,
  found,
  bal,
  first_where-holds (λ r. r.id == id) db.monitors found,
  set_monitor-row id m (after_success now m) db (λ r. refl) found,
)

failure-IsBalanced :
    (cfg : Settings) (tracked : Bool) (now event_id id : ℕ) (error : String) (m : Monitor) (db : Db)
    → monitor_row db id ≡ some m
    → IsBalanced id db
    → IsBalanced id (record_check_failure cfg tracked now event_id error m db)
unfolding record_check_failure count_where
failure-IsBalanced cfg tracked now event_id id error m db found bal = ground (
  arith,
  found,
  bal,
  first_where-holds (λ r. r.id == id) db.monitors found,
  set_monitor-row id m (after_failure cfg tracked now error m) db (λ r. refl) found,
)

CheckEnd-IsBalanced :
    {cfg : Settings} {id : ℕ} {db db' : Db}
    → CheckEnd cfg id db db'
    → IsBalanced id db
    → IsBalanced id db'
CheckEnd-IsBalanced {id} {db} (succeeded now event_id m found e) bal =
    rw e (success-IsBalanced now event_id id m db found bal)
CheckEnd-IsBalanced {cfg} {id} {db} (failed tracked now event_id error m found e) bal =
    rw e (failure-IsBalanced cfg tracked now event_id id error m db found bal)

-- Over any number of ended checks of a monitor, successful or not, each on the row as it is in
-- the table, it is kept that there is one notice that its checks stopped more than notices that
-- they resumed exactly while it is dead-lettered, and otherwise as many of either.
pub CheckEnds-IsBalanced :
    {cfg : Settings} {id : ℕ} {db db' : Db}
    → CheckEnds cfg id db db'
    → IsBalanced id db
    → IsBalanced id db'
CheckEnds-IsBalanced here bal = bal
CheckEnds-IsBalanced (next before last) bal =
    CheckEnd-IsBalanced last (CheckEnds-IsBalanced before bal)

-- Failures in a row: each time the worker reads the row, and its check fails.
pub fail_times : Settings → ℕ → (ℕ → ℕ) → (ℕ → ℕ) → ℕ → Db → Db
fail_times cfg id clock ids zero db = db
fail_times cfg id clock ids (suc k) db =
    let before : Db = fail_times cfg id clock ids k db in
    elim (monitor_row before id) [
      | none ↦ before
      | some m ↦ record_check_failure cfg true (clock k) (ids k) "" m before
    ]

-- The row after `k` failures in a row.
abbrev pub HasFailed : Settings → ℕ → Monitor → Type 0
HasFailed cfg k r =
    (or_default r.check_retry_count 0 ≡ k) × (is_some r.dead_lettered_at ≡ leb cfg.max_attempts k)

failure-HasFailed :
    (cfg : Settings) (now k : ℕ) (error : String) (r : Monitor)
    → HasFailed cfg k r
    → HasFailed cfg (suc k) (after_failure cfg true now error r r)
failure-HasFailed cfg now k error r h = ground arith

failure-row :
    (cfg : Settings) (now event_id id : ℕ) (error : String) (m : Monitor) (db : Db)
    → monitor_row db id ≡ some m
    → monitor_row (record_check_failure cfg true now event_id error m db) id
      ≡ some (after_failure cfg true now error m m)
unfolding record_check_failure
failure-row cfg now event_id id error m db found =
    ground (arith, set_monitor-row id m (after_failure cfg true now error m) db (λ r. refl) found)

-- A monitor with no failure behind it is dead-lettered after `k` failures in a row, where dead
-- letter is tracked, exactly if they reach the allowed attempts, and its retry count is then
-- `k`.
pub fail_times-HasFailed :
    (cfg : Settings) (id : ℕ) (clock ids : ℕ → ℕ) (k : ℕ) (db : Db) (m : Monitor)
    → monitor_row db id ≡ some m
    → HasFailed cfg 0 m
    → (r : Monitor) × (monitor_row (fail_times cfg id clock ids k db) id ≡ some r)
      × HasFailed cfg k r
unfolding fail_times
fail_times-HasFailed cfg id clock ids zero db m found h = (m, found, h)
fail_times-HasFailed cfg id clock ids (suc k) db m found h =
    let (r, now_found, failed_k) = fail_times-HasFailed cfg id clock ids k db m found h in
    let next = after_failure cfg true (clock k) "" r in
    (
      next r,
      rw (now_found, fail_times) (failure-row cfg (clock k) (ids k) id "" r _ now_found),
      failure-HasFailed cfg (clock k) k "" r failed_k,
    )
