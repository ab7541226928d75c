-- ===== src/Processor/Alternation.antt =====
-- Recovery and outage alerts over batches of results (src/worker/monitor/processor.ts).
use uppity.Base.{
  ℕ, ◌≤◌, ◌≡◌, refl, Bool, true, Option, none, some, List, ◌∷◌, [], arith, All, All-mono, is_some,
  Bool-cases, inl, inr,
}
use uppity.Settings.{Settings}
use uppity.Tables.{Db, Monitor, NotificationType, MonitorCheck, MonitorStatus, NotificationEvent}
use uppity.Alerts.{event_of, is_recovery, outage_alerted}
use uppity.Alerts.Log.{
  IsChronological, IsAlternating, TellsOutage, last_told, outage_alerted-TellsOutage,
  active_flap-TellsOutage,
}
use uppity.Verdict.{Verdict, judge}
use uppity.Windows.{find_active_window}
use uppity.Processor.Actions.{Calls, ssl_warning}
use uppity.Processor.Interpret.{
  interpret, settle, interpret_all, current_status, is_late, process_results, waiting_rows,
}
use uppity.Processor.Batch.{process_results_cases}
use uppity.Processor.Announced.{
  logged, ssl_event, ssl_warning-events, ssl_event-IsFrom, announced, announce-events,
  announced-IsFrom, announced_recovery,
}

-- The event log of a database up to a time: in order, and alternating for every monitor.
pub record IsLog (t : ℕ) (es : List NotificationEvent) : Type 0 where
  pub bounded : All (λ e. e.created_at ≤ t) es
  pub chronological : IsChronological es
  pub alternating : (k : ℕ) → IsAlternating k es

logged-IsLog :
    (t stamp : ℕ) (es : List NotificationEvent) (o : Option NotificationEvent)
    → IsLog t es
    → t ≤ stamp
    → ((e : NotificationEvent) → o ≡ some e → e.created_at ≡ stamp)
    → ((e : NotificationEvent) (k : ℕ)
        → o ≡ some e
        → event_of k is_recovery e ≡ true
        → TellsOutage (last_told k es))
    → IsLog stamp (logged o es)
logged-IsLog t stamp es none l le at follows = record {
  bounded = All-mono _ es (λ e h. omega arith) l.bounded;
  chronological = l.chronological;
  alternating = l.alternating;
}
logged-IsLog t stamp es (some e) l le at follows =
    let now : e.created_at ≡ stamp = at e refl in
    let older : All (λ d. d.created_at ≤ stamp) es = All-mono _ es (λ d h. omega arith) l.bounded in
    record {
      bounded = (omega arith, older);
      chronological = (rw now older, l.chronological);
      alternating = λ k. (follows e k refl, l.alternating k);
    }

event_of_types :
    (k : ℕ) (types : NotificationType → Bool) (e : NotificationEvent)
    → event_of k types e ≡ true
    → types e.type ≡ true
event_of_types k types e h = ground arith

monitor_of :
    (k : ℕ) (types : NotificationType → Bool) (e : NotificationEvent) (m : ℕ)
    → event_of k types e ≡ true
    → e.monitor_id ≡ some m
    → k ≡ m
monitor_of k types e m h p = ground arith

later : {t u : ℕ} {es : List NotificationEvent} → t ≤ u → IsLog t es → IsLog u es
later {es} h l = record {
  bounded = All-mono _ es (λ e k. omega arith) l.bounded;
  chronological = l.chronological;
  alternating = l.alternating;
}

-- The clocks of an interpretation do not run back.
abbrev pub InOrder : ℕ → Calls → Type 0
InOrder t calls = (t ≤ calls.ssl_stamp) × (calls.ssl_stamp ≤ calls.alert_stamp)

module _ (cfg : Settings) (calls : Calls) (m : Monitor) (c : MonitorCheck) where
  ssl_warning-IsLog :
      (t : ℕ) (db : Db)
      → InOrder t calls
      → IsLog t db.events
      → IsLog calls.ssl_stamp (ssl_warning cfg calls m c db).events
  ssl_warning-IsLog t db order l = rw ssl_warning-events (
      logged-IsLog t calls.ssl_stamp db.events (ssl_event cfg calls m c db) l order.0
        (λ e p. (ssl_event-IsFrom cfg calls m c db p).0.stamped)
        (λ e k p r. ground (arith, ssl_event-IsFrom cfg calls m c db p)))

  alerts_up-TellsOutage :
      (current : Option MonitorStatus) (db : Db)
      → IsChronological db.events
      → (judge cfg m c current db.events db.checks).alerts_up ≡ true
      → TellsOutage (last_told m.id db.events)
  unfolding judge
  alerts_up-TellsOutage current db ch a = elim (Bool-cases (outage_alerted db.events m.id)) [
    | inl o ↦ outage_alerted-TellsOutage m.id db.events ch o
    | inr o ↦ active_flap-TellsOutage m.id db.events ch (ground arith)
  ]

  settle-IsLog :
      (current : Option MonitorStatus) (db : Db)
      → InOrder calls.ssl_stamp calls
      → IsLog calls.ssl_stamp db.events
      → IsLog calls.alert_stamp (settle cfg calls m c current db).events
  unfolding settle
  settle-IsLog current db order l =
      let v : Verdict = judge cfg m c current db.events db.checks in
      rw announce-events (
        logged-IsLog calls.ssl_stamp calls.alert_stamp db.events (announced cfg calls m c current v)
          l order.1 (λ e p. (announced-IsFrom cfg calls m c current v p).stamped)
          (λ e k p r.
            let up =
              announced_recovery cfg calls m c current v p (event_of_types k is_recovery e r) in
            let same : k ≡ m.id =
              monitor_of k is_recovery e m.id r
                (announced-IsFrom cfg calls m c current v p).for_monitor in
            rw same (alerts_up-TellsOutage current db l.chronological up.0)))

  interpret-IsLog :
      (t : ℕ) (db : Db)
      → InOrder t calls
      → IsLog t db.events
      → IsLog calls.alert_stamp (interpret cfg calls m c db).events
  unfolding interpret
  interpret-IsLog t db order l =
      let warned : Db = ssl_warning cfg calls m c db in
      let current = current_status db m.id in
      let w = ssl_warning-IsLog t db order l in
      elim (Bool-cases (is_late current c)) [
        | inl late ↦ rw late (later (omega arith) l)
        | inr timely ↦
            elim (Bool-cases
              (is_some (find_active_window db.windows db.window_monitors m.id c.checked_at))) [
                | inl covered ↦ rw (timely, covered) (later order.1 w)
                | inr open_now ↦
                    rw (timely, open_now) (settle-IsLog current warned (omega arith, order.1) w)
              ]
      ]

-- The clocks of a batch, row after row.
abbrev pub ClockRuns : (ℕ → Calls) → ℕ → List MonitorCheck → Type 0
ClockRuns calls t [] = Unit
ClockRuns calls t (c ∷ cs) = InOrder t (calls c.id) × ClockRuns calls (calls c.id).alert_stamp cs

abbrev last_stamp : (ℕ → Calls) → ℕ → List MonitorCheck → ℕ
last_stamp calls t [] = t
last_stamp calls t (c ∷ cs) = last_stamp calls (calls c.id).alert_stamp cs

interpret_all-IsLog :
    (cfg : Settings) (calls : ℕ → Calls) (m : Monitor) (cs : List MonitorCheck) (t : ℕ) (db : Db)
    → ClockRuns calls t cs
    → IsLog t db.events
    → IsLog (last_stamp calls t cs) (interpret_all cfg calls m cs db).events
unfolding interpret_all
interpret_all-IsLog cfg calls m [] t db run l = l
interpret_all-IsLog cfg calls m (c ∷ cs) t db run l =
    interpret_all-IsLog cfg calls m cs (calls c.id).alert_stamp (interpret cfg (calls c.id) m c db)
      run.1 (interpret-IsLog cfg (calls c.id) m c t db run.0 l)

-- From an event log that is in order and in which, for every monitor, each recovery alert is
-- preceded by an outage or flapping alert with no other recovery alert between them, any batch
-- of results of a monitor, under clocks that do not run back, leaves such a log again.
pub process_results-IsLog :
    (cfg : Settings) (calls : ℕ → Calls) (now m t : ℕ) (db : Db) {db' : Db} {n : ℕ}
    → ClockRuns calls t (waiting_rows db m)
    → IsLog t db.events
    → process_results cfg calls now m db ≡ some (db', n)
    → (t' : ℕ) × IsLog t' db'.events
process_results-IsLog cfg calls now m t db run l p =
    elim (process_results_cases cfg calls now m db p) [
      | inl (idle, same) ↦ (t, rw same l)
      | inr (row, _, done) ↦ (
        last_stamp calls t (waiting_rows db m),
        rw done (interpret_all-IsLog cfg calls row (waiting_rows db m) t db run l),
      )
    ]
