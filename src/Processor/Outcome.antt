-- ===== src/Processor/Outcome.antt =====
-- Alerts and the incidents of their monitor (src/worker/monitor/processor.ts).
use uppity.Base.{
  ℕ, ◌≤◌, ◌+◌, ◌≡◌, refl, true, false, not, ◌&&◌, Option, none, some, List, [], ◌∷◌, arith,
  count_where, first_where, update_where, count_where-update_le, first_where-none,
  first_where-holds, Option-cases, Bool-cases, is_some, ◌==◌, ==_refl, inl, inr, ap, ◌⊎◌, String,
}
use uppity.Settings.{Settings}
use uppity.Tables.{Db, Monitor, MonitorCheck, MonitorStatus, Incident, IncidentMonitor}
use uppity.Windows.{find_active_window}
use uppity.Verdict.{Verdict, judge}
use uppity.Processor.Actions.{
  Calls, ssl_warning, active_incident, open_incident, resolve_auto_incident, resolve, insert_event,
}
use uppity.Processor.Interpret.{
  interpret, settle, announce, current_status, is_late, record_status, start_flapping,
  note_flapping, note_down, enqueue_flapping, alert_down, alert_up,
}
use uppity.Processor.Incidents.{open_autos, is_open_auto, resolve_auto_incident-open_autos}
use uppity.Processor.OneAuto.{OneAuto, ssl_warning-OneAuto}

-- Resolving the first row that passes the test leaves fewer that do.
resolve-fewer :
    (links : List IncidentMonitor) (k now : ℕ) (is : List Incident) {i : Incident}
    → first_where (is_open_auto links k) is ≡ some i
    → count_where (is_open_auto links k) (update_where (λ j. j.id == i.id) (resolve now) is) + 1
      ≤ count_where (is_open_auto links k) is
unfolding first_where count_where update_where
resolve-fewer links k now [] e = cc
resolve-fewer links k now (j ∷ is) {i} e = elim (Bool-cases (is_open_auto links k j)) [
  | inl h ↦
      let same : j ≡ i = ground arith in
      ground (
        arith,
        ==_refl j.id,
        ap (λ (x : Incident). x.id) same,
        count_where-update_le (is_open_auto links k) (λ x. x.id == i.id) (resolve now) is
            (λ x p. ground arith),
      )
  | inr h ↦
      let later : first_where (is_open_auto links k) is ≡ some i = ground arith in
      ground (arith, resolve-fewer links k now is later)
]

module _ (calls : Calls) (m : Monitor) where
  resolve_auto_incident-none_open :
      (message : String) (db : Db)
      → OneAuto db
      → open_autos (resolve_auto_incident calls m message db) m.id ≡ 0
  unfolding resolve_auto_incident active_incident
  resolve_auto_incident-none_open message db one =
      elim (Option-cases (first_where (is_open_auto db.incident_monitors m.id) db.incidents)) [
        | inl e ↦ omega (
          arith,
          resolve_auto_incident-open_autos calls m message db m.id,
          first_where-none (is_open_auto db.incident_monitors m.id) db.incidents e,
        )
        | inr (i, e) ↦
            let fewer = resolve-fewer db.incident_monitors m.id calls.now db.incidents e in
            ground (
              arith,
              fewer,
              one m.id,
              first_where-holds (is_open_auto db.incident_monitors m.id) db.incidents e,
            )
      ]

  -- Whatever was found open, an incident is open after the alert of an outage.
  open_incident-active :
      (title message : String) (db : Db)
      → is_some (active_incident (open_incident calls m title message db) m.id) ≡ true
  unfolding active_incident open_incident first_where
  open_incident-active title message db = ground (arith, ==_refl calls.incident_id, ==_refl m.id)

module _ (cfg : Settings) (calls : Calls) (m : Monitor) where
  note_flapping-active :
      (db : Db) (found : Option Incident)
      → active_incident db m.id ≡ found
      → is_some (active_incident (note_flapping cfg calls m db found) m.id) ≡ true
  unfolding active_incident
  note_flapping-active db none e = open_incident-active calls m _ _ db
  note_flapping-active db (some i) e = ground (arith, e)

  note_down-active :
      (v : Verdict) (db : Db) (found : Option Incident)
      → active_incident db m.id ≡ found
      → is_some (active_incident (note_down cfg calls m v db found) m.id) ≡ true
  unfolding active_incident
  note_down-active v db none e = open_incident-active calls m _ _ db
  note_down-active v db (some i) e = ground (arith, e)

  start_flapping-active :
      (db : Db) → is_some (active_incident (start_flapping cfg calls m db) m.id) ≡ true
  unfolding start_flapping active_incident
  start_flapping-active db = note_flapping-active (enqueue_flapping cfg calls m db) _ refl

  module _ (c : MonitorCheck) (current : Option MonitorStatus) where
    alert_down-active :
        (v : Verdict) (db : Db)
        → is_some (active_incident (alert_down cfg calls m c current v db) m.id) ≡ true
    unfolding alert_down active_incident
    alert_down-active v db = note_down-active v (insert_event _ db) _ refl

    alert_up-none_open :
        (db : Db) → OneAuto db → open_autos (alert_up cfg calls m c current db) m.id ≡ 0
    unfolding alert_up
    alert_up-none_open db one = resolve_auto_incident-none_open calls m _ (insert_event _ db) one

module _ (v : Verdict) where
  -- The verdict starts a flapping hold, or alerts the outage with no hold on.
  abbrev pub AlertsOutage : Type 0
  AlertsOutage =
      (v.starts_flapping ≡ true)
      ⊎ ((v.starts_flapping ≡ false)
          × ((is_some v.flap && not v.settled) ≡ false)
          × (v.alerts_down ≡ true))

  -- The verdict alerts the recovery, with no hold on.
  abbrev pub AlertsRecovery : Type 0
  AlertsRecovery =
      (v.starts_flapping ≡ false)
      × ((is_some v.flap && not v.settled) ≡ false)
      × (v.alerts_down ≡ false)
      × (v.alerts_up ≡ true)

module _ (cfg : Settings) (calls : Calls) (m : Monitor) (c : MonitorCheck) (db : Db) where
  -- The verdict on a result, after the certificate part.
  abbrev pub verdict : Verdict
  verdict =
      let warned : Db = ssl_warning cfg calls m c db in
      judge cfg m c (current_status db m.id) warned.events warned.checks

module _ (m : Monitor) (c : MonitorCheck) (db : Db) where
  -- Neither late nor inside a maintenance window.
  abbrev pub IsCurrent : Type 0
  IsCurrent =
      (is_late (current_status db m.id) c ≡ false)
      × (is_some (find_active_window db.windows db.window_monitors m.id c.checked_at) ≡ false)

-- A result that is neither late nor inside a maintenance window, and whose verdict alerts an
-- outage or the start of flapping, leaves the monitor with an open incident.
pub interpret-opens_incident :
    (cfg : Settings) (calls : Calls) (m : Monitor) (c : MonitorCheck) (db : Db)
    → IsCurrent m c db
    → AlertsOutage (verdict cfg calls m c db)
    → is_some (active_incident (interpret cfg calls m c db) m.id) ≡ true
unfolding interpret settle announce
interpret-opens_incident cfg calls m c db (timely, open_now) o = elim o [
  | inl f ↦ simp (timely, open_now, f) (start_flapping-active cfg calls m _)
  | inr (f, h, d) ↦ simp (timely, open_now, f, h, d) (alert_down-active cfg calls m c _ _ _)
]

-- A result that is neither late nor inside a maintenance window, and whose verdict alerts a
-- recovery, leaves the monitor with no open automatic incident, if it had one at most.
pub interpret-closes_incident :
    (cfg : Settings) (calls : Calls) (m : Monitor) (c : MonitorCheck) (db : Db)
    → IsCurrent m c db
    → OneAuto db
    → AlertsRecovery (verdict cfg calls m c db)
    → open_autos (interpret cfg calls m c db) m.id ≡ 0
unfolding interpret settle announce record_status
interpret-closes_incident cfg calls m c db (timely, open_now) one (f, h, d, u) =
    simp (timely, open_now, f, h, d, u)
      (alert_up-none_open cfg calls m c _ _
        (ssl_warning-OneAuto cfg calls m c (current_status db m.id) db one))
