-- ===== src/Processor/Isolation.antt =====
-- Monitors other than the one whose results are processed (src/worker/monitor/processor.ts).
use uppity.Base.{
  ℕ, ◌≡◌, ◌≢◌, refl, ◌∙◌, Bool, false, Option, some, List, [], ◌∷◌, arith, rows_where,
  first_where-update_other, Bool-cases, is_some, ◌==◌, inl, inr, ap,
}
use uppity.Settings.{Settings}
use uppity.Tables.{Db, Monitor, MonitorCheck, MonitorStatus, NotificationEvent, NotificationType}
use uppity.Alerts.{event_of}
use uppity.Windows.{find_active_window}
use uppity.Verdict.{Verdict, judge}
use uppity.Processor.Actions.{Calls, ssl_warning}
use uppity.Processor.Interpret.{
  interpret, settle, interpret_all, current_status, is_late, process_results, waiting_rows,
  record_status, next_status,
}
use uppity.Processor.Announced.{
  ssl_event, ssl_warning-events, ssl_event-IsFrom, announced, announce-events, announced-IsFrom,
}
use uppity.Processor.Batch.{process_results_cases}
use uppity.Processor.Failures.{interpret-statuses}
use uppity.Processor.Frozen.{logged-rows_where}

-- The events and the status of a monitor are as before.
pub record IsUntouched (k : ℕ) (db db' : Db) : Type 0 where
  pub events :
      (types : NotificationType → Bool)
      → rows_where (event_of k types) db'.events ≡ rows_where (event_of k types) db.events
  pub status : current_status db' k ≡ current_status db k

IsUntouched-refl : (k : ℕ) (db : Db) → IsUntouched k db db
IsUntouched-refl k db = record { events = λ types. refl; status = refl }

IsUntouched-trans : {k : ℕ} {a b c : Db} → IsUntouched k a b → IsUntouched k b c → IsUntouched k a c
IsUntouched-trans f g = record {
  events = λ types. g.events types ∙ f.events types;
  status = g.status ∙ f.status;
}

event_of_other :
    (k j : ℕ) (types : NotificationType → Bool) (e : NotificationEvent)
    → e.monitor_id ≡ some j
    → k ≢ j
    → event_of k types e ≡ false
event_of_other k j types e h other = ground arith

module _ (cfg : Settings) (calls : Calls) (m : Monitor) (c : MonitorCheck) (k : ℕ)
    (other : k ≢ m.id) where
  ssl_warning-events_other :
      (db : Db) (types : NotificationType → Bool)
      → rows_where (event_of k types) (ssl_warning cfg calls m c db).events
        ≡ rows_where (event_of k types) db.events
  ssl_warning-events_other db types =
      ap (rows_where (event_of k types)) (ssl_warning-events cfg calls m c db)
      ∙ logged-rows_where (event_of k types) (ssl_event cfg calls m c db) db.events (λ e p.
        event_of_other k m.id types e (ssl_event-IsFrom cfg calls m c db p).0.for_monitor other)

  settle-events_other :
      (current : Option MonitorStatus) (db : Db) (types : NotificationType → Bool)
      → rows_where (event_of k types) (settle cfg calls m c current db).events
        ≡ rows_where (event_of k types) db.events
  unfolding settle record_status
  settle-events_other current db types =
      let v : Verdict = judge cfg m c current db.events db.checks in
      ap (rows_where (event_of k types))
        (announce-events cfg calls m c current v (record_status cfg calls m c current db))
      ∙ logged-rows_where (event_of k types) (announced cfg calls m c current v) db.events (λ e p.
        event_of_other k m.id types e (announced-IsFrom cfg calls m c current v p).for_monitor
          other)

  interpret-events_other :
      (db : Db) (types : NotificationType → Bool)
      → rows_where (event_of k types) (interpret cfg calls m c db).events
        ≡ rows_where (event_of k types) db.events
  unfolding interpret
  interpret-events_other db types =
      let warned : Db = ssl_warning cfg calls m c db in
      let current = current_status db m.id in
      elim (Bool-cases (is_late current c)) [
        | inl late ↦ rw late
        | inr timely ↦
            elim (Bool-cases
              (is_some (find_active_window db.windows db.window_monitors m.id c.checked_at))) [
                | inl covered ↦ rw (timely, covered) (ssl_warning-events_other db types)
                | inr open_now ↦
                    rw (timely, open_now)
                      (settle-events_other current warned types ∙ ssl_warning-events_other db types)
              ]
      ]

  interpret-status_other :
      (db : Db) → current_status (interpret cfg calls m c db) k ≡ current_status db k
  unfolding current_status
  interpret-status_other db = elim (interpret-statuses cfg calls m c db) [
    | inl same ↦ rw same
    | inr (_, new) ↦ rw new (
        first_where-update_other (λ s. s.monitor_id == k) (λ s. s.monitor_id == m.id)
          (next_status cfg calls m c (current_status db m.id)) db.statuses (λ s. refl)
          (λ s e. ground arith))
  ]

  interpret-IsUntouched : (db : Db) → IsUntouched k db (interpret cfg calls m c db)
  interpret-IsUntouched db = record {
    events = interpret-events_other db;
    status = interpret-status_other db;
  }

interpret_all-IsUntouched :
    (cfg : Settings) (calls : ℕ → Calls) (m : Monitor) (k : ℕ)
    → k ≢ m.id
    → (cs : List MonitorCheck) (db : Db) → IsUntouched k db (interpret_all cfg calls m cs db)
unfolding interpret_all
interpret_all-IsUntouched cfg calls m k other [] db = IsUntouched-refl k db
interpret_all-IsUntouched cfg calls m k other (c ∷ cs) db =
    IsUntouched-trans (interpret-IsUntouched cfg (calls c.id) m c k other db)
      (interpret_all-IsUntouched cfg calls m k other cs (interpret cfg (calls c.id) m c db))

-- A batch for one monitor leaves the status row of every other monitor and all events of every
-- other monitor as they were.
pub process_results-IsUntouched :
    (cfg : Settings) (calls : ℕ → Calls) (now m k : ℕ) (db : Db) {db' : Db} {n : ℕ}
    → k ≢ m
    → process_results cfg calls now m db ≡ some (db', n)
    → IsUntouched k db db'
unfolding current_status
process_results-IsUntouched cfg calls now m k db other p =
    elim (process_results_cases cfg calls now m db p) [
      | inl (idle, same) ↦ rw same (IsUntouched-refl k db)
      | inr (row, named, done) ↦
          let u =
            interpret_all-IsUntouched cfg calls row k (rw named other) (waiting_rows db m) db in
          rw done (record { events = u.events; status = u.status })
    ]
