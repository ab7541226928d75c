-- ===== src/Processor/Failures.antt =====
-- The failure counter and the last check time of a monitor's status row
-- (src/worker/monitor/processor.ts).
use mathlib.Core.Path.{subst}
use uppity.Base.{
  ℕ, ◌≤◌, ◌<◌, ◌≡◌, refl, false, Option, none, some, List, [], ◌∷◌, arith, All, All-update_where,
  first_where-update_where, update_where, ◌==◌, if◌then◌else◌, inl, inr, ◌⊎◌,
}
use uppity.Settings.{Settings}
use uppity.Tables.{Db, Monitor, MonitorCheck, MonitorStatus, is_down}
use uppity.Verdict.{Verdict, judge}
use uppity.Processor.Actions.{Calls, ssl_warning, open_incident, resolve_auto_incident}
use uppity.Processor.Interpret.{
  interpret, settle, announce, record_status, interpret_all, current_status, is_late, next_status,
  start_flapping, keep_flapping, alert_down, alert_up, when_degraded, process_results, waiting_rows,
}
use uppity.Processor.Batch.{process_results_cases}

-- The counter is positive exactly while the monitor is down.
abbrev pub CountsFailures : MonitorStatus → Type 0
CountsFailures s =
    if is_down s.status then 0 < s.consecutive_failures else s.consecutive_failures ≡ 0

-- The time of the last result interpreted for the monitor.
abbrev pub last_check_of : Option MonitorStatus → Option ℕ
last_check_of none = none
last_check_of (some s) = s.last_check_at

abbrev pub NotBefore : Option ℕ → Option ℕ → Type 0
NotBefore none u = Unit
NotBefore (some t) none = ⊥
NotBefore (some t) (some u) = t ≤ u

NotBefore-refl : (t : Option ℕ) → NotBefore t t
NotBefore-refl none = tt
NotBefore-refl (some t) = omega arith

NotBefore-trans : (t u v : Option ℕ) → NotBefore t u → NotBefore u v → NotBefore t v
NotBefore-trans none u v h k = tt
NotBefore-trans (some t) none v h k = absurd h
NotBefore-trans (some t) (some u) none h k = absurd k
NotBefore-trans (some t) (some u) (some v) h k = omega arith

module _ (cfg : Settings) (calls : Calls) (m : Monitor) (c : MonitorCheck) where
  ssl_warning-statuses : (db : Db) → (ssl_warning cfg calls m c db).statuses ≡ db.statuses
  unfolding ssl_warning
  ssl_warning-statuses db = ground arith

  announce-statuses :
      (current : Option MonitorStatus) (v : Verdict) (db : Db)
      → (announce cfg calls m c current v db).statuses ≡ db.statuses
  unfolding announce start_flapping keep_flapping alert_down alert_up when_degraded open_incident
      resolve_auto_incident
  announce-statuses current v db = ground arith

  abbrev updated : Option MonitorStatus → List MonitorStatus → List MonitorStatus
  updated current = update_where (λ s. s.monitor_id == m.id) (next_status cfg calls m c current)

  settle-statuses :
      (current : Option MonitorStatus) (db : Db)
      → (settle cfg calls m c current db).statuses ≡ updated current db.statuses
  unfolding settle record_status
  settle-statuses current db =
      announce-statuses current (judge cfg m c current db.events db.checks)
        (record_status cfg calls m c current db)

  -- An interpretation leaves the status rows, or updates those of its monitor.
  pub interpret-statuses :
      (db : Db)
      → ((interpret cfg calls m c db).statuses ≡ db.statuses)
        ⊎ ((is_late (current_status db m.id) c ≡ false)
            × ((interpret cfg calls m c db).statuses
                ≡ updated (current_status db m.id) db.statuses))
  unfolding interpret
  interpret-statuses db = ground (
    arith,
    ssl_warning-statuses db,
    settle-statuses (current_status db m.id) (ssl_warning cfg calls m c db),
  )

  interpret-CountsFailures :
      (db : Db)
      → All CountsFailures db.statuses
      → All CountsFailures (interpret cfg calls m c db).statuses
  interpret-CountsFailures db h = elim (interpret-statuses db) [
    | inl same ↦ rw same h
    | inr (_, new) ↦
        rw new (All-update_where CountsFailures _ _ db.statuses (λ s _ _. ground arith) h)
  ]

  interpret-last_check :
      (db : Db)
      → NotBefore
          (last_check_of (current_status db m.id))
          (last_check_of (current_status (interpret cfg calls m c db) m.id))
  unfolding current_status
  interpret-last_check db = elim (interpret-statuses db) [
    | inl same ↦ rw same (NotBefore-refl _)
    | inr (timely, new) ↦
        rw
          (
            new,
            first_where-update_where (λ s. s.monitor_id == m.id)
                (next_status cfg calls m c (current_status db m.id)) db.statuses (λ s. refl),
          )
          (ground arith)
  ]

module _ (cfg : Settings) (calls : ℕ → Calls) (m : Monitor) where
  interpret_all-CountsFailures :
      (cs : List MonitorCheck) (db : Db)
      → All CountsFailures db.statuses
      → All CountsFailures (interpret_all cfg calls m cs db).statuses
  unfolding interpret_all
  interpret_all-CountsFailures [] db h = h
  interpret_all-CountsFailures (c ∷ cs) db h =
      interpret_all-CountsFailures cs (interpret cfg (calls c.id) m c db)
        (interpret-CountsFailures cfg (calls c.id) m c db h)

  interpret_all-last_check :
      (k : ℕ) (cs : List MonitorCheck) (db : Db)
      → m.id ≡ k
      → NotBefore
          (last_check_of (current_status db k))
          (last_check_of (current_status (interpret_all cfg calls m cs db) k))
  unfolding interpret_all
  interpret_all-last_check k [] db named = NotBefore-refl _
  interpret_all-last_check k (c ∷ cs) db named =
      let next : Db = interpret cfg (calls c.id) m c db in
      NotBefore-trans _ _ _
        (subst
          (λ j.
            NotBefore (last_check_of (current_status db j)) (last_check_of (current_status next j)))
          named (interpret-last_check cfg (calls c.id) m c db))
        (interpret_all-last_check k cs next named)

-- If every status row has a positive failure counter exactly while the monitor is recorded as
-- down, a batch keeps that; and the recorded time of the monitor's last check never moves back,
-- although results may arrive late.
pub process_results-CountsFailures :
    (cfg : Settings) (calls : ℕ → Calls) (now m : ℕ) (db : Db) {db' : Db} {n : ℕ}
    → All CountsFailures db.statuses
    → process_results cfg calls now m db ≡ some (db', n)
    → All CountsFailures db'.statuses
      × NotBefore (last_check_of (current_status db m)) (last_check_of (current_status db' m))
unfolding current_status
process_results-CountsFailures cfg calls now m db h p =
    elim (process_results_cases cfg calls now m db p) [
      | inl (idle, same) ↦ (rw same h, rw same (NotBefore-refl _))
      | inr (row, named, done) ↦
          let rows : List MonitorCheck = waiting_rows db m in
          (
            rw done (interpret_all-CountsFailures cfg calls row rows db h),
            rw done (interpret_all-last_check cfg calls row m rows db named),
          )
    ]
