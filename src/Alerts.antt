-- ===== src/Alerts.antt =====
-- What the event table says of a monitor's alerts (src/lib/server/flap.ts), and which incidents are
-- open (src/lib/server/incident-state.ts, constants/status.ts).
pub mod Log
use uppity.Base.{
  ℕ, Bool, true, false, not, ◌&&◌, Option, none, some, List, ◌==◌, if◌then◌else◌, rows_where,
  newest,
}
use uppity.Tables.{
  NotificationType, monitor_down, monitor_up, monitor_degraded, monitor_flapping, NotificationEvent,
  IncidentStatus, resolved, postmortem, Incident,
}

-- `STATUS_EVENTS`
abbrev pub is_status_event : NotificationType → Bool
is_status_event monitor_down = true
is_status_event monitor_up = true
is_status_event monitor_degraded = true
is_status_event monitor_flapping = true
is_status_event _ = false

-- `OUTAGE_EVENTS`
abbrev pub is_outage_event : NotificationType → Bool
is_outage_event monitor_down = true
is_outage_event monitor_up = true
is_outage_event monitor_flapping = true
is_outage_event _ = false

abbrev pub is_flapping : NotificationType → Bool
is_flapping monitor_flapping = true
is_flapping _ = false

abbrev pub is_recovery : NotificationType → Bool
is_recovery monitor_up = true
is_recovery _ = false

-- `eq(notificationEvent.monitorId, m)`; a NULL column is equal to nothing
abbrev pub is_for : ℕ → Option ℕ → Bool
is_for m none = false
is_for m (some n) = n == m

-- An event of the monitor, of one of the types.
abbrev pub event_of : ℕ → (NotificationType → Bool) → NotificationEvent → Bool
event_of m types e = is_for m e.monitor_id && types e.type

abbrev pub event_created_at : NotificationEvent → ℕ
event_created_at e = e.created_at

-- `newestEvent`
unfoldable pub newest_event :
    List NotificationEvent → ℕ → (NotificationType → Bool) → Option NotificationEvent
newest_event events m types = newest event_created_at (rows_where (event_of m types) events)

abbrev pub held_behind : Option NotificationEvent → Option NotificationEvent
held_behind none = none
held_behind (some e) = if is_flapping e.type then some e else none

-- `activeFlap`: the flapping message that the alerts are held behind
unfoldable pub active_flap : List NotificationEvent → ℕ → Option NotificationEvent
unfolding newest_event
active_flap events m = held_behind (newest_event events m is_status_event)

abbrev pub tells_outage : Option NotificationEvent → Bool
tells_outage none = false
tells_outage (some e) = not (is_recovery e.type)

-- `outageAlerted`
unfoldable pub outage_alerted : List NotificationEvent → ℕ → Bool
unfolding newest_event
outage_alerted events m = tells_outage (newest_event events m is_outage_event)

-- `isEndedIncidentStatus`
abbrev pub is_ended : IncidentStatus → Bool
is_ended resolved = true
is_ended postmortem = true
is_ended _ = false

-- `incidentActive`
abbrev pub is_active : Incident → Bool
is_active i = not (is_ended i.status)
