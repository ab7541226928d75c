-- ===== src/Processor/Announced.antt =====
-- The events that one interpretation enqueues (src/worker/monitor/processor.ts).
use uppity.Base.{
  ℕ, ◌≡◌, true, not, ◌&&◌, Option, none, some, List, ◌∷◌, arith, if◌then◌else◌, is_some, holds,
  String, ◌⊎◌,
}
use uppity.Settings.{Settings}
use uppity.Tables.{
  Db, Monitor, MonitorCheck, MonitorStatus, NotificationEvent, Status, Content, NotificationType,
  up, down, degraded, is_degraded, monitor_up, monitor_down, monitor_degraded, monitor_flapping,
  flapping, status_change, ssl_expiry_warning,
}
use uppity.Alerts.{is_recovery}
use uppity.Verdict.{Verdict, status_of, failures_after}
use uppity.Processor.Actions.{
  Calls, ssl_warning, new_event, open_incident, resolve_auto_incident, ssl_due, ssl_message,
}
use uppity.Processor.Interpret.{
  announce, start_flapping, keep_flapping, alert_down, alert_up, when_degraded, reminder_due,
}

-- A log with one more event, if there is one.
abbrev pub logged : Option NotificationEvent → List NotificationEvent → List NotificationEvent
logged none es = es
logged (some e) es = e ∷ es

-- What every event that an interpretation enqueues has in common.
pub record IsFrom (m : Monitor) (stamp : ℕ) (e : NotificationEvent) : Type 0 where
  pub for_monitor : e.monitor_id ≡ some m.id
  pub stamped : e.created_at ≡ stamp

module _ (cfg : Settings) (calls : Calls) (m : Monitor) (c : MonitorCheck) where
  abbrev ssl_event_for : Option ℕ → Db → Option NotificationEvent
  ssl_event_for none db = none
  ssl_event_for (some t) db =
      if ssl_due cfg calls m t db then some (ssl_message calls m c t) else none

  pub ssl_event : Db → Option NotificationEvent
  ssl_event db = ssl_event_for c.ssl_expires_at db

  pub ssl_warning-events :
      (db : Db) → (ssl_warning cfg calls m c db).events ≡ logged (ssl_event db) db.events
  unfolding ssl_warning ssl_event
  ssl_warning-events db = ground arith

  pub ssl_event-IsFrom :
      (db : Db) {e : NotificationEvent}
      → ssl_event db ≡ some e
      → IsFrom m calls.ssl_stamp e × (e.type ≡ ssl_expiry_warning)
  unfolding ssl_event
  ssl_event-IsFrom db h = ground arith

module _ (cfg : Settings) (calls : Calls) (m : Monitor) (c : MonitorCheck)
    (current : Option MonitorStatus) where
  abbrev message : NotificationType → Content → Option NotificationEvent
  message t content = some (new_event m calls.alert_event_id calls.alert_stamp t content)

  abbrev flapping_message : Option NotificationEvent
  flapping_message =
      message monitor_flapping (flapping cfg.flap_settle_seconds cfg.flap_window_seconds)

  abbrev change_message :
      NotificationType → Option Status → Status → Option String → Option NotificationEvent
  change_message t from to error =
      message t (status_change from to (failures_after current c.status) error c.id)

  -- The event that `announce` enqueues, if any.
  pub announced : Verdict → Option NotificationEvent
  announced v =
      if v.starts_flapping
      then flapping_message
      else if is_some v.flap && not v.settled
      then (if reminder_due cfg calls m c v.flap then flapping_message else none)
      else if v.alerts_down
      then change_message monitor_down (status_of current) down c.error_message
      else if v.alerts_up
      then change_message monitor_up
          (some (if holds is_degraded (status_of current) then degraded else down)) up none
      else if is_degraded c.status && v.alerts_degraded
      then change_message monitor_degraded (status_of current) degraded none
      else none

  pub announce-events :
      (v : Verdict) (db : Db)
      → (announce cfg calls m c current v db).events ≡ logged (announced v) db.events
  unfolding announce start_flapping keep_flapping alert_down alert_up when_degraded open_incident
      resolve_auto_incident announced
  announce-events v db = ground arith

  pub announced-IsFrom :
      (v : Verdict) {e : NotificationEvent} → announced v ≡ some e → IsFrom m calls.alert_stamp e
  unfolding announced
  announced-IsFrom v h = ground arith

  -- A recovery alert is enqueued only if the verdict alerts one, and no hold is on.
  pub announced_recovery :
      (v : Verdict) {e : NotificationEvent}
      → announced v ≡ some e
      → is_recovery e.type ≡ true
      → (v.alerts_up ≡ true) × ((v.flap ≡ none) ⊎ (v.settled ≡ true))
  unfolding announced
  announced_recovery v h r = ground arith
