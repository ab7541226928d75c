-- ===== src/Processor/Frozen.antt =====
-- Results inside a maintenance window (src/worker/monitor/processor.ts).
use uppity.Base.{
  ℕ, ◌≡◌, refl, ◌∙◌, Bool, true, false, Option, none, some, List, [], ◌∷◌, arith, All, rows_where,
  Bool-cases, is_some, inl, inr, ap,
}
use uppity.Settings.{Settings}
use uppity.Tables.{Db, Monitor, MonitorCheck, NotificationEvent}
use uppity.Alerts.{event_of, is_status_event}
use uppity.Windows.{find_active_window}
use uppity.Processor.Actions.{Calls, ssl_warning}
use uppity.Processor.Interpret.{
  interpret, interpret_all, current_status, is_late, process_results, waiting_rows,
}
use uppity.Processor.Announced.{logged, ssl_event, ssl_warning-events, ssl_event-IsFrom}
use uppity.Processor.Batch.{process_results_cases}

-- Monitor status, incidents, their timelines and the monitors' status alerts are as before.
pub record IsFrozen (db db' : Db) : Type 0 where
  pub statuses : db'.statuses ≡ db.statuses
  pub incidents : db'.incidents ≡ db.incidents
  pub links : db'.incident_monitors ≡ db.incident_monitors
  pub updates : db'.incident_updates ≡ db.incident_updates
  pub windows : db'.windows ≡ db.windows
  pub window_monitors : db'.window_monitors ≡ db.window_monitors
  pub alerts :
      (k : ℕ)
      → rows_where (event_of k is_status_event) db'.events
        ≡ rows_where (event_of k is_status_event) db.events

IsFrozen-refl : (db : Db) → IsFrozen db db
IsFrozen-refl db = record {
  statuses = refl;
  incidents = refl;
  links = refl;
  updates = refl;
  windows = refl;
  window_monitors = refl;
  alerts = λ k. refl;
}

IsFrozen-trans : {a b c : Db} → IsFrozen a b → IsFrozen b c → IsFrozen a c
IsFrozen-trans f g = record {
  statuses = g.statuses ∙ f.statuses;
  incidents = g.incidents ∙ f.incidents;
  links = g.links ∙ f.links;
  updates = g.updates ∙ f.updates;
  windows = g.windows ∙ f.windows;
  window_monitors = g.window_monitors ∙ f.window_monitors;
  alerts = λ k. g.alerts k ∙ f.alerts k;
}

-- A window in progress covers the result's time.
abbrev pub IsCovered : Db → ℕ → MonitorCheck → Type 0
IsCovered db m c = is_some (find_active_window db.windows db.window_monitors m c.checked_at) ≡ true

pub logged-rows_where :
    (p : NotificationEvent → Bool) (o : Option NotificationEvent) (es : List NotificationEvent)
    → ((e : NotificationEvent) → o ≡ some e → p e ≡ false)
    → rows_where p (logged o es) ≡ rows_where p es
unfolding rows_where
logged-rows_where p none es h = refl
logged-rows_where p (some e) es h = rw (h e refl)

module _ (cfg : Settings) (calls : Calls) (m : Monitor) (c : MonitorCheck) where
  ssl_warning-IsFrozen : (db : Db) → IsFrozen db (ssl_warning cfg calls m c db)
  unfolding ssl_warning
  ssl_warning-IsFrozen db = record {
    statuses = ground arith;
    incidents = ground arith;
    links = ground arith;
    updates = ground arith;
    windows = ground arith;
    window_monitors = ground arith;
    alerts = λ k.
        ap (rows_where (event_of k is_status_event)) (ssl_warning-events cfg calls m c db)
        ∙ logged-rows_where (event_of k is_status_event) (ssl_event cfg calls m c db) db.events
            (λ e p. ground (arith, ssl_event-IsFrom cfg calls m c db p));
  }

  interpret-IsFrozen : (db : Db) → IsCovered db m.id c → IsFrozen db (interpret cfg calls m c db)
  unfolding interpret
  interpret-IsFrozen db covered = elim (Bool-cases (is_late (current_status db m.id) c)) [
    | inl late ↦ rw late (IsFrozen-refl db)
    | inr timely ↦ rw (timely, covered) (ssl_warning-IsFrozen db)
  ]

interpret_all-IsFrozen :
    (cfg : Settings) (calls : ℕ → Calls) (m : Monitor) (cs : List MonitorCheck) (db₀ db : Db)
    → IsFrozen db₀ db
    → All (IsCovered db₀ m.id) cs
    → IsFrozen db₀ (interpret_all cfg calls m cs db)
unfolding interpret_all
interpret_all-IsFrozen cfg calls m [] db₀ db f h = f
interpret_all-IsFrozen cfg calls m (c ∷ cs) db₀ db f h =
    interpret_all-IsFrozen cfg calls m cs db₀ (interpret cfg (calls c.id) m c db)
      (IsFrozen-trans f
        (interpret-IsFrozen cfg (calls c.id) m c db (rw (f.windows, f.window_monitors) h.0)))
      h.1

-- A batch whose results all fall into maintenance windows in progress changes no monitor status,
-- no incident and no timeline, and enqueues no status alert for any monitor.
pub process_results-IsFrozen :
    (cfg : Settings) (calls : ℕ → Calls) (now m : ℕ) (db : Db) {db' : Db} {n : ℕ}
    → All (IsCovered db m) (waiting_rows db m)
    → process_results cfg calls now m db ≡ some (db', n)
    → IsFrozen db db'
process_results-IsFrozen cfg calls now m db h p =
    elim (process_results_cases cfg calls now m db p) [
      | inl (idle, same) ↦ rw same (IsFrozen-refl db)
      | inr (row, named, done) ↦
          let rows : List MonitorCheck = waiting_rows db m in
          let f = interpret_all-IsFrozen cfg calls row rows db db (IsFrozen-refl db) (rw named h) in
          rw done (record {
            statuses = f.statuses;
            incidents = f.incidents;
            links = f.links;
            updates = f.updates;
            windows = f.windows;
            window_monitors = f.window_monitors;
            alerts = f.alerts;
          })
    ]
