-- ===== src/Processor/Actions.antt =====
-- What the result processor writes: events, certificate warnings and automatic incidents
-- (src/worker/monitor/processor.ts).
use uppity.Base.{
  ℕ, ◌+◌, ◌-◌, ◌*◌, ◌/◌, String, Bool, true, false, not, ◌&&◌, Option, none, some, List, ◌∷◌, ltb,
  leb, ◌==◌, if◌then◌else◌, or_else, truthy_or, first_where, update_where, any,
}
use uppity.Settings.{Settings}
use uppity.Tables.{
  Db, Monitor, MonitorCheck, Incident, IncidentMonitor, IncidentStatus, investigating, resolved,
  major, NotificationEvent, NotificationType, ssl_expiry_warning, pending, Content, ssl_expiry,
}
use uppity.Alerts.{event_of, is_active}

-- What the platform returns to one interpretation: the clocks and the new identifiers. An
-- interpretation enqueues a certificate warning and one status alert at most.
pub record Calls : Type 0 where
  pub now : ℕ
  pub ssl_stamp : ℕ
  pub alert_stamp : ℕ
  pub ssl_event_id : ℕ
  pub alert_event_id : ℕ
  pub incident_id : ℕ
  pub update_id : ℕ

-- The row that `enqueue` inserts.
abbrev pub new_event : Monitor → ℕ → ℕ → NotificationType → Content → NotificationEvent
new_event m id stamp type content = record {
  id = id;
  organization_id = m.organization_id;
  monitor_id = some m.id;
  incident_id = none;
  type = type;
  payload = record { content = content; retry = none; mail_server_down = none };
  status = pending;
  claimed_at = none;
  processed_at = none;
  error_message = none;
  created_at = stamp;
}

abbrev pub insert_event : NotificationEvent → Db → Db
insert_event e db = record db { events = e ∷ db.events }

abbrev is_ssl_warning : NotificationType → Bool
is_ssl_warning ssl_expiry_warning = true
is_ssl_warning _ = false

-- Whole days until `expires`. It is used only where it is positive, so the truncated difference
-- agrees with the signed one.
abbrev pub days_until : ℕ → ℕ → ℕ
days_until now expires = (expires - now) / 86400000

abbrev pub warned_recently : Settings → ℕ → ℕ → List NotificationEvent → Bool
warned_recently cfg now m events =
    any
      (λ e.
        event_of m is_ssl_warning e
        && leb now (e.created_at + cfg.ssl_warning_cooldown_hours * 3600000))
      events

abbrev pub ssl_due : Settings → Calls → Monitor → ℕ → Db → Bool
ssl_due cfg calls m expires db =
    let days = days_until calls.now expires in
    let threshold = truthy_or m.ssl_expiry_threshold_days cfg.ssl_expiry_threshold_days in
    m.ssl_check_enabled
    && leb days threshold
    && ltb 0 days
    && not (warned_recently cfg calls.now m.id db.events)

abbrev pub ssl_message : Calls → Monitor → MonitorCheck → ℕ → NotificationEvent
ssl_message calls m c expires =
    new_event m calls.ssl_event_id calls.ssl_stamp ssl_expiry_warning
      (ssl_expiry (days_until calls.now expires) expires c.ssl_issuer)

abbrev pub ssl_warning_for : Settings → Calls → Monitor → MonitorCheck → Option ℕ → Db → Db
ssl_warning_for cfg calls m c none db = db
ssl_warning_for cfg calls m c (some expires) db =
    if ssl_due cfg calls m expires db then insert_event (ssl_message calls m c expires) db else db

-- The certificate part of `interpret`.
unfoldable pub ssl_warning : Settings → Calls → Monitor → MonitorCheck → Db → Db
ssl_warning cfg calls m c db = ssl_warning_for cfg calls m c c.ssl_expires_at db

abbrev pub affects : List IncidentMonitor → ℕ → Incident → Bool
affects links m i = any (λ l. (l.incident_id == i.id) && (l.monitor_id == m)) links

-- `activeIncident`: an automatic one if there is one
unfoldable pub active_incident : Db → ℕ → Option Incident
active_incident db m =
    or_else
      (first_where (λ i. affects db.incident_monitors m i && is_active i && i.is_auto_created)
        db.incidents)
      (first_where (λ i. affects db.incident_monitors m i && is_active i) db.incidents)

-- `postUpdate`
abbrev pub post_update : Calls → ℕ → IncidentStatus → String → Db → Db
post_update calls incident_id status message db = record db {
  incident_updates =
      record {
        id = calls.update_id;
        incident_id = incident_id;
        status = status;
        message = message;
        created_by = none;
        created_at = calls.now;
      }
      ∷ db.incident_updates;
}

abbrev pub auto_incident : Calls → Monitor → String → Incident
auto_incident calls m title = record {
  id = calls.incident_id;
  organization_id = m.organization_id;
  title = title;
  status = investigating;
  impact = major;
  started_at = calls.now;
  resolved_at = none;
  created_by = none;
  is_auto_created = true;
  created_at = calls.now;
  updated_at = calls.now;
}

-- `openIncident`
unfoldable pub open_incident : Calls → Monitor → String → String → Db → Db
open_incident calls m title message db =
    post_update calls calls.incident_id investigating message (record db {
      incidents = auto_incident calls m title ∷ db.incidents;
      incident_monitors =
          record { incident_id = calls.incident_id; monitor_id = m.id } ∷ db.incident_monitors;
    })

abbrev pub resolve : ℕ → Incident → Incident
resolve now i = record i { status = resolved; resolved_at = some now; updated_at = now }

abbrev resolve_found : Calls → String → Db → Option Incident → Db
resolve_found calls message db none = db
resolve_found calls message db (some i) =
    if i.is_auto_created
    then post_update calls i.id resolved message (record db {
      incidents = update_where (λ j. j.id == i.id) (resolve calls.now) db.incidents;
    })
    else db

-- `resolveAutoIncident`
unfoldable pub resolve_auto_incident : Calls → Monitor → String → Db → Db
resolve_auto_incident calls m message db = resolve_found calls message db (active_incident db m.id)
