-- ===== src/Verdict.antt =====
-- What a result means for a monitor's alerts: the flags that `interpret` computes before it acts
-- (src/worker/monitor/processor.ts).
use uppity.Base.{
  ℕ, ◌+◌, Bool, true, false, not, ◌&&◌, ◌||◌, Option, none, some, List, ltb, leb, ◌==◌,
  if◌then◌else◌, is_some, is_none, holds, count_where, any,
}
use uppity.Settings.{Settings, ms}
use uppity.Tables.{
  Monitor, MonitorCheck, MonitorStatus, NotificationEvent, NotificationType, monitor_down,
  monitor_up, Status, unknown, same_status, is_up, is_down, is_degraded,
}
use uppity.Alerts.{event_of, active_flap, outage_alerted}

abbrev is_up_or_down : NotificationType → Bool
is_up_or_down monitor_down = true
is_up_or_down monitor_up = true
is_up_or_down _ = false

-- `reachesFlapLimit`. `at - window <= createdAt` is `at <= createdAt + window`.
unfoldable pub reaches_flap_limit : Settings → List NotificationEvent → ℕ → ℕ → Bool
reaches_flap_limit cfg events m at =
    if ltb cfg.flap_threshold 2
    then false
    else leb cfg.flap_threshold (
        count_where
          (λ e. event_of m is_up_or_down e && leb at (e.created_at + ms cfg.flap_window_seconds))
          events
        + 1)

-- `wentDownRecently`: both ends of `between` are included.
unfoldable pub went_down_recently : Settings → List MonitorCheck → ℕ → ℕ → Bool
went_down_recently cfg checks m at =
    any
      (λ c.
        (c.monitor_id == m)
        && is_down c.status
        && leb at (c.checked_at + ms cfg.flap_settle_seconds)
        && leb c.checked_at at)
      checks

-- `previousStatus`, of a row that may be missing.
abbrev pub status_of : Option MonitorStatus → Option Status
status_of none = none
status_of (some s) = some s.status

abbrev pub failures_of : Option MonitorStatus → ℕ
failures_of none = 0
failures_of (some s) = s.consecutive_failures

abbrev pub last_change_of : Option MonitorStatus → Option ℕ
last_change_of none = none
last_change_of (some s) = s.last_status_change

-- `consecutiveFailures`
abbrev pub failures_after : Option MonitorStatus → Status → ℕ
failures_after current s = if is_down s then failures_of current + 1 else 0

-- `statusChanged`
abbrev pub status_changed : Option MonitorStatus → Status → Bool
status_changed current s = not (holds (same_status s) (status_of current))

-- `steady`: the state has lasted for the settle time. With no last change recorded it has not.
abbrev pub is_steady : Settings → Option MonitorStatus → MonitorCheck → Bool
is_steady cfg current c =
    if status_changed current c.status
    then leb (ms cfg.flap_settle_seconds) 0
    else holds (λ t. leb (t + ms cfg.flap_settle_seconds) c.checked_at) (last_change_of current)

pub record Verdict : Type 0 where
  pub in_outage : Bool
  pub steady : Bool
  pub flap : Option NotificationEvent
  pub settled : Bool
  pub starts_flapping : Bool
  pub alerts_down : Bool
  pub alerts_up : Bool
  pub alerts_degraded : Bool

module _ (cfg : Settings) (m : Monitor) (c : MonitorCheck) (current : Option MonitorStatus) where
  unfoldable pub in_outage : List NotificationEvent → Bool
  in_outage events =
      (not (is_up c.status) || not (holds is_up (status_of current))) && outage_alerted events m.id

  unfoldable pub reaches_threshold : Bool
  reaches_threshold = leb m.alert_after_failures (failures_after current c.status)

  unfoldable pub crosses_threshold : Bool → Bool
  unfolding reaches_threshold
  crosses_threshold outage =
      is_down c.status
      && reaches_threshold
      && (ltb (failures_of current) m.alert_after_failures || not outage)

  unfoldable pub is_settled : List MonitorCheck → Option NotificationEvent → Bool
  unfolding reaches_threshold
  is_settled checks flap =
      is_some flap
      && (if is_down c.status
          then is_steady cfg current c && reaches_threshold
          else not (holds is_down (status_of current))
            && not (went_down_recently cfg checks m.id c.checked_at))

  unfoldable pub judge : List NotificationEvent → List MonitorCheck → Verdict
  unfolding in_outage crosses_threshold is_settled
  judge events checks =
      let outage : Bool = in_outage events in
      let crosses : Bool = crosses_threshold outage in
      let flap = active_flap events m.id in
      let settled : Bool = is_settled checks flap in
      let steady : Bool = is_steady cfg current c in
      let known : Bool = not (holds (same_status unknown) (status_of current)) in
      record {
        in_outage = outage;
        steady = steady;
        flap = flap;
        settled = settled;
        starts_flapping =
            is_none flap
            && crosses
            && not steady
            && reaches_flap_limit cfg events m.id c.checked_at;
        alerts_down = is_down c.status && (settled || crosses);
        alerts_up = is_up c.status && (settled || outage);
        alerts_degraded =
            is_degraded c.status && (settled || (status_changed current c.status && known));
      }
