-- ===== src/Checks/Rescheduled.antt =====
-- The schedule of a monitor after a check (src/worker/monitor/check.ts).
use uppity.Base.{
  ℕ, ◌+◌, ◌*◌, ◌≤◌, ◌≡◌, refl, ◌∙◌, ap, Bool, true, false, Option, none, some, List, [], ◌∷◌, arith,
  max, ◌==◌, Bool-cases, inl, inr, first_where, first_where-update_hit, is_some,
}
use uppity.Settings.{Settings}
use uppity.Tables.{Db, Monitor, MonitorCheck, MonitorStatus}
use uppity.Probes.{CheckResult}
use uppity.Processor.Actions.{Calls, ssl_warning, open_incident, resolve_auto_incident}
use uppity.Processor.Interpret.{
  process_results, interpret, settle, announce, current_status, start_flapping, keep_flapping,
  alert_down, alert_up, when_degraded, interpret_all, waiting_rows,
}
use uppity.Processor.Batch.{process_results_cases}
use uppity.Schedule.{
  is_due, record_check_success, record_check_failure, after_success, after_failure, backoff_ms,
  is_entering, retry_count, set_monitor,
}
use uppity.Checks.{
  CheckCalls, insert_result, record_push_check, write_result, processed, process_written,
  execute_check, schedule_next, run_check, find_missed_heartbeat, insert_missed, is_push,
  perform_probe_with_retries, perform_probe,
}

abbrev pub monitor_at : Db → ℕ → Option Monitor
monitor_at db id = first_where (λ r. r.id == id) db.monitors

module _ (cfg : Settings) where
  settle-monitors :
      (calls : Calls) (m : Monitor) (c : MonitorCheck) (current : Option MonitorStatus) (db : Db)
      → (settle cfg calls m c current db).monitors ≡ db.monitors
  unfolding settle announce start_flapping keep_flapping alert_down alert_up when_degraded
      open_incident resolve_auto_incident
  settle-monitors calls m c current db = ground arith

  interpret-monitors :
      (calls : Calls) (m : Monitor) (c : MonitorCheck) (db : Db)
      → (interpret cfg calls m c db).monitors ≡ db.monitors
  unfolding interpret ssl_warning
  interpret-monitors calls m c db =
      ground
        (arith, settle-monitors calls m c (current_status db m.id) (ssl_warning cfg calls m c db))

  interpret_all-monitors :
      (calls : ℕ → Calls) (m : Monitor) (cs : List MonitorCheck) (db : Db)
      → (interpret_all cfg calls m cs db).monitors ≡ db.monitors
  unfolding interpret_all
  interpret_all-monitors calls m [] db = refl
  interpret_all-monitors calls m (c ∷ cs) db =
      interpret_all-monitors calls m cs (interpret cfg (calls c.id) m c db)
      ∙ interpret-monitors (calls c.id) m c db

  process_results-monitors :
      (calls : ℕ → Calls) (now m : ℕ) (db : Db) {db' : Db} {n : ℕ}
      → process_results cfg calls now m db ≡ some (db', n)
      → db'.monitors ≡ db.monitors
  process_results-monitors calls now m db {db'} e =
      elim (process_results_cases cfg calls now m db e) [
        | inl (idle, same) ↦ ap (λ (d : Db). d.monitors) same
        | inr (row, named, same) ↦
            ap (λ (d : Db). d.monitors) same
            ∙ interpret_all-monitors calls row (waiting_rows db m) db
      ]

  module _ (calls : CheckCalls) (m : Monitor) where
    insert-monitors :
        (k : ℕ) (r : CheckResult) (db : Db) {db' : Db}
        → insert_result calls k r db ≡ some db'
        → db'.monitors ≡ db.monitors
    unfolding insert_result
    insert-monitors k r db e = ground arith

    write-monitors :
        (db : Db) {db' : Db} → write_result cfg calls m db ≡ some db' → db'.monitors ≡ db.monitors
    unfolding record_push_check
    write-monitors db {db'} e = elim (Bool-cases calls.write_throws) [
      | inl w ↦ let thrown : none ≡ some db' = simp w at e in cc
      | inr w ↦ elim (Bool-cases (is_push m.type)) [
        | inl t ↦ go (find_missed_heartbeat cfg calls.decimal m calls.now db) (simp (w, t) at e)
        | inr t ↦
            insert-monitors m.id (perform_probe_with_retries (perform_probe cfg calls m) m).0 db
              (simp (w, t) at e)
      ]
    ]
      where
        go :
            (o : Option CheckResult)
            → insert_missed calls m.id o db ≡ some db'
            → db'.monitors ≡ db.monitors
        go none h = ground arith
        go (some r) h = insert-monitors m.id r db h

    execute-monitors : (db : Db) → (execute_check cfg calls m db).0.monitors ≡ db.monitors
    unfolding execute_check
    execute-monitors db = go (write_result cfg calls m db) refl
      where
        run :
            (db' : Db) (o : Option (Db × ℕ))
            → process_results cfg calls.interpreting calls.processed_now m.id db' ≡ o
            → (processed cfg calls m db' o).0.monitors ≡ db'.monitors
        run db' none e = refl
        run db' (some (db'', n)) e =
            process_results-monitors calls.interpreting calls.processed_now m.id db' e

        go :
            (o : Option Db)
            → write_result cfg calls m db ≡ o
            → (process_written cfg calls m db o).0.monitors ≡ db.monitors
        go none e = refl
        go (some db') e = elim (Bool-cases calls.process_throws) [
          | inl t ↦ rw t (write-monitors db e)
          | inr t ↦ rw t (run db' _ refl ∙ write-monitors db e)
        ]

-- The row of the monitor has a time for its next check, at `limit` at the latest, and it is due from
-- then on if it is active.
abbrev pub IsScheduled : ℕ → ℕ → ℕ → Bool → Db → Type 0
IsScheduled limit later id active db =
    (row : Monitor) × (t : ℕ) × (monitor_at db id ≡ some row)
    × (row.next_check_at ≡ some t)
    × (t ≤ limit)
    × (is_due (t + later) row ≡ active)

-- The furthest time at which a check schedules the next one.
abbrev pub furthest : Settings → CheckCalls → Monitor → ℕ
furthest cfg calls m = calls.scheduled_now + max (m.interval_seconds * 1000) cfg.max_backoff_ms

module _ (cfg : Settings) (calls : CheckCalls) (m : Monitor) (later : ℕ) where
  -- What a schedule write has to do to the row that it finds.
  set_monitor-IsScheduled :
      (f : Monitor → Monitor) (db : Db) (t : ℕ) {row : Monitor}
      → ((r : Monitor) → (f r).id ≡ r.id)
      → monitor_at db m.id ≡ some row
      → (f row).next_check_at ≡ some t
      → t ≤ furthest cfg calls m
      → is_due (t + later) (f row) ≡ row.active
      → IsScheduled (furthest cfg calls m) later m.id row.active (set_monitor m.id f db)
  set_monitor-IsScheduled f db t {row} keep e next most due = (
    f row,
    t,
    first_where-update_hit (λ r. r.id == m.id) f db.monitors (λ y. simp (keep y) refl) e,
    next,
    most,
    due,
  )

  success-IsScheduled :
      (db : Db) {row : Monitor}
      → monitor_at db m.id ≡ some row
      → IsScheduled
          (furthest cfg calls m)
          later
          m.id
          row.active
          (record_check_success calls.scheduled_now calls.event_id m db)
  unfolding record_check_success
  success-IsScheduled db {row} e =
      let done =
        set_monitor-IsScheduled (after_success calls.scheduled_now m) db
          (calls.scheduled_now + m.interval_seconds * 1000) (λ r. refl) e refl (omega arith)
          (ground arith) in
      elim (Bool-cases (is_some m.dead_lettered_at)) [ inl t ↦ rw t done | inr t ↦ rw t done ]

  failure-IsScheduled :
      (db : Db) {row : Monitor}
      → monitor_at db m.id ≡ some row
      → IsScheduled (furthest cfg calls m) later m.id row.active (
          record_check_failure cfg calls.tracked calls.scheduled_now calls.event_id calls.error m
            db)
  unfolding record_check_failure backoff_ms
  failure-IsScheduled db {row} e =
      let done =
        set_monitor-IsScheduled (after_failure cfg calls.tracked calls.scheduled_now calls.error m)
          db (calls.scheduled_now + backoff_ms cfg (retry_count m)) (λ r. refl) e refl (omega arith)
          (ground arith) in
      elim (Bool-cases (is_entering cfg calls.tracked m)) [ inl t ↦ rw t done | inr t ↦ rw t done ]

-- However a check of a monitor that is in the database ends, whether it returns, or throws where it
-- writes the result, where it processes the results or where it schedules the next check, the
-- monitor is scheduled again, if the write of the back-off itself does not throw: its row has a
-- time for the next check, which comes at the latest the interval or the longest backoff after the
-- end of this one, and at that time and at any later one the monitor is due exactly if it is
-- active.
pub run_check-IsScheduled :
    (cfg : Settings) (calls : CheckCalls) (m : Monitor) (later : ℕ) (db : Db) {row : Monitor}
    → monitor_at db m.id ≡ some row
    → IsScheduled (furthest cfg calls m) later m.id row.active (run_check cfg calls m db)
unfolding run_check
run_check-IsScheduled cfg calls m later db {row} e =
    go (execute_check cfg calls m db)
      (ap (first_where (λ r. r.id == m.id)) (execute-monitors cfg calls m db) ∙ e)
  where
    go :
        (x : Db × Bool)
        → monitor_at x.0 m.id ≡ some row
        → IsScheduled (furthest cfg calls m) later m.id row.active (schedule_next cfg calls m x)
    go (db', true) h = elim (Bool-cases calls.success_throws) [
      | inl t ↦ rw t (failure-IsScheduled cfg calls m later db' h)
      | inr t ↦ rw t (success-IsScheduled cfg calls m later db' h)
    ]
    go (db', false) h = failure-IsScheduled cfg calls m later db' h
