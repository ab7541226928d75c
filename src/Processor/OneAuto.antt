-- ===== src/Processor/OneAuto.antt =====
-- The number of open automatic incidents of a monitor (src/worker/monitor/processor.ts).
use uppity.Base.{
  ℕ, ◌≤◌, ◌≡◌, refl, not, ◌&&◌, ◌||◌, Option, none, some, arith, Bool-cases, is_some, ==_iff, inl,
  inr, ap, String,
}
use uppity.Settings.{Settings}
use uppity.Tables.{Db, Monitor, MonitorCheck, MonitorStatus, is_degraded, Incident}
use uppity.Windows.{find_active_window}
use uppity.Verdict.{Verdict}
use uppity.Processor.Actions.{
  Calls, ssl_warning, active_incident, open_incident, resolve_auto_incident,
}
use uppity.Processor.Interpret.{
  interpret, settle, announce, current_status, is_late, record_status, start_flapping,
  note_flapping, note_down, enqueue_flapping, keep_flapping, alert_down, alert_up, when_degraded,
}
use uppity.Processor.Incidents.{
  IsFresh, open_autos, active_incident-none, open_incident-open_autos,
  resolve_auto_incident-open_autos,
}

-- Of every monitor at most one automatic incident is open.
abbrev pub OneAuto : Db → Type 0
OneAuto db = (k : ℕ) → open_autos db k ≤ 1

module _ (cfg : Settings) (calls : Calls) (m : Monitor) where
  -- Opening an incident when the monitor has none open.
  open_incident-OneAuto :
      (title message : String) (db : Db)
      → IsFresh calls.incident_id db
      → active_incident db m.id ≡ none
      → OneAuto db
      → OneAuto (open_incident calls m title message db)
  open_incident-OneAuto title message db fresh e one k = ground (
    arith,
    open_incident-open_autos calls m title message db k fresh,
    one k,
    ==_iff m.id k,
    ap (open_autos db) ((==_iff m.id k).0 _),
    active_incident-none db m.id e,
  )

  note_flapping-OneAuto :
      (db : Db) (found : Option Incident)
      → active_incident db m.id ≡ found
      → IsFresh calls.incident_id db
      → OneAuto db
      → OneAuto (note_flapping cfg calls m db found)
  note_flapping-OneAuto db none e fresh one = open_incident-OneAuto _ _ db fresh e one
  note_flapping-OneAuto db (some i) e fresh one = λ k. ground (arith, one k)

  note_down-OneAuto :
      (v : Verdict) (db : Db) (found : Option Incident)
      → active_incident db m.id ≡ found
      → IsFresh calls.incident_id db
      → OneAuto db
      → OneAuto (note_down cfg calls m v db found)
  note_down-OneAuto v db none e fresh one = open_incident-OneAuto _ _ db fresh e one
  note_down-OneAuto v db (some i) e fresh one = λ k. ground (arith, one k)

  resolve-OneAuto :
      (message : String) (db : Db) → OneAuto db → OneAuto (resolve_auto_incident calls m message db)
  resolve-OneAuto message db one k =
      omega (arith, resolve_auto_incident-open_autos calls m message db k, one k)

  start_flapping-OneAuto :
      (db : Db)
      → IsFresh calls.incident_id db
      → OneAuto db
      → OneAuto (start_flapping cfg calls m db)
  unfolding start_flapping active_incident
  start_flapping-OneAuto db fresh one =
      note_flapping-OneAuto (enqueue_flapping cfg calls m db) _ refl
        (record { incidents = fresh.incidents; links = fresh.links }) one

  keep_flapping-OneAuto :
      (c : MonitorCheck) (v : Verdict) (db : Db)
      → OneAuto db
      → OneAuto (keep_flapping cfg calls m c v db)
  unfolding keep_flapping
  keep_flapping-OneAuto c v db one k = ground (arith, one k)

  module _ (c : MonitorCheck) (current : Option MonitorStatus) where
    alert_down-OneAuto :
        (v : Verdict) (db : Db)
        → IsFresh calls.incident_id db
        → OneAuto db
        → OneAuto (alert_down cfg calls m c current v db)
    unfolding alert_down active_incident
    alert_down-OneAuto v db fresh one =
        note_down-OneAuto v _ _ refl (record { incidents = fresh.incidents; links = fresh.links })
          one

    when_degraded-OneAuto :
        (v : Verdict) (db : Db) → OneAuto db → OneAuto (when_degraded cfg calls m c current v db)
    unfolding when_degraded
    when_degraded-OneAuto v db one = elim (Bool-cases v.alerts_degraded) [
      | inl told ↦ elim (Bool-cases (v.settled || (v.steady && v.in_outage))) [
        | inl over ↦ rw (told, over) (resolve-OneAuto _ _ one)
        | inr on ↦ rw (told, on) one
      ]
      | inr quiet ↦ elim (Bool-cases (v.settled || (v.steady && v.in_outage))) [
        | inl over ↦ rw (quiet, over) (resolve-OneAuto _ _ one)
        | inr on ↦ rw (quiet, on) one
      ]
    ]

    announce-OneAuto :
        (v : Verdict) (db : Db)
        → IsFresh calls.incident_id db
        → OneAuto db
        → OneAuto (announce cfg calls m c current v db)
    unfolding announce alert_up
    announce-OneAuto v db fresh one = elim (Bool-cases v.starts_flapping) [
      | inl a ↦ simp a (start_flapping-OneAuto db fresh one)
      | inr a ↦ elim (Bool-cases (is_some v.flap && not v.settled)) [
        | inl b ↦ simp (a, b) (keep_flapping-OneAuto c v db one)
        | inr b ↦ elim (Bool-cases v.alerts_down) [
          | inl d ↦ simp (a, b, d) (alert_down-OneAuto v db fresh one)
          | inr d ↦ elim (Bool-cases v.alerts_up) [
            | inl u ↦ simp (a, b, d, u) (resolve-OneAuto _ _ one)
            | inr u ↦ elim (Bool-cases (is_degraded c.status)) [
              | inl g ↦ simp (a, b, d, u, g) (when_degraded-OneAuto v db one)
              | inr g ↦ simp (a, b, d, u, g) one
            ]
          ]
        ]
      ]
    ]

    ssl_warning-incidents :
        (db : Db)
        → ((ssl_warning cfg calls m c db).incidents ≡ db.incidents)
          × ((ssl_warning cfg calls m c db).incident_monitors ≡ db.incident_monitors)
    unfolding ssl_warning
    ssl_warning-incidents db = ground arith

    pub ssl_warning-OneAuto : (db : Db) → OneAuto db → OneAuto (ssl_warning cfg calls m c db)
    ssl_warning-OneAuto db one k = let (is, ls) = ssl_warning-incidents db in rw (is, ls) (one k)

    settle-OneAuto :
        (db : Db)
        → IsFresh calls.incident_id db
        → OneAuto db
        → OneAuto (settle cfg calls m c current db)
    unfolding settle record_status
    settle-OneAuto db fresh one =
        announce-OneAuto _ _ (record { incidents = fresh.incidents; links = fresh.links }) one

-- If an interpretation gets a new incident identifier, it keeps that every monitor has at most one
-- open automatic incident.
pub interpret-OneAuto :
    (cfg : Settings) (calls : Calls) (m : Monitor) (c : MonitorCheck) (db : Db)
    → IsFresh calls.incident_id db
    → OneAuto db
    → OneAuto (interpret cfg calls m c db)
unfolding interpret
interpret-OneAuto cfg calls m c db fresh one =
    let current = current_status db m.id in
    let (is, ls) = ssl_warning-incidents cfg calls m c current db in
    let one' = ssl_warning-OneAuto cfg calls m c current db one in
    elim (Bool-cases (is_late current c)) [
      | inl late ↦ rw late one
      | inr timely ↦
          elim (Bool-cases
            (is_some (find_active_window db.windows db.window_monitors m.id c.checked_at))) [
              | inl covered ↦ rw (timely, covered) one'
              | inr open_now ↦
                  rw (timely, open_now)
                    (settle-OneAuto cfg calls m c current (ssl_warning cfg calls m c db)
                      (record { incidents = rw is fresh.incidents; links = rw ls fresh.links })
                      one')
            ]
    ]
