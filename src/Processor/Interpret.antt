-- ===== src/Processor/Interpret.antt =====
-- `interpret` and `processResults` (src/worker/monitor/processor.ts).
use Prim.Native.String.{◌++◌}
use uppity.Base.{
  ℕ, zero, ◌+◌, Bool, false, not, ◌&&◌, ◌||◌, Option, none, some, List, [], ◌∷◌, ltb, leb, ◌==◌,
  if◌then◌else◌, is_some, is_none, holds, rows_where, first_where, update_where, any, length, map,
  unique, order_by,
}
use uppity.Settings.{Settings, ms}
use uppity.Tables.{
  Db, Monitor, MonitorCheck, MonitorStatus, Incident, NotificationEvent, monitor_down, monitor_up,
  monitor_degraded, monitor_flapping, status_change, flapping, up, down, degraded, is_degraded,
}
use uppity.Windows.{find_active_window}
use uppity.Verdict.{Verdict, status_of, last_change_of, failures_after, status_changed, judge}
use uppity.Processor.Actions.{
  Calls, new_event, insert_event, ssl_warning, active_incident, post_update, open_incident,
  resolve_auto_incident,
}

module _ (cfg : Settings) (calls : Calls) (m : Monitor) where
  abbrev pub enqueue_flapping : Db → Db
  enqueue_flapping = insert_event (
      new_event m calls.alert_event_id calls.alert_stamp monitor_flapping
        (flapping cfg.flap_settle_seconds cfg.flap_window_seconds))

  abbrev pub note_flapping : Db → Option Incident → Db
  note_flapping db none =
      open_incident calls m (m.name ++ " is flapping") "Monitor keeps going down and recovering." db
  note_flapping db (some i) =
      if i.is_auto_created
      then post_update calls i.id i.status "Monitor keeps going down and recovering." db
      else db

  -- `if (startsFlapping)`
  unfoldable pub start_flapping : Db → Db
  start_flapping db = note_flapping (enqueue_flapping db) (active_incident db m.id)

  abbrev pub reminder_due : MonitorCheck → Option NotificationEvent → Bool
  reminder_due c none = false
  reminder_due c (some e) = leb (e.created_at + ms cfg.flap_window_seconds) c.checked_at

  -- `else if (flap && !settled)`
  unfoldable pub keep_flapping : MonitorCheck → Verdict → Db → Db
  keep_flapping c v db = if reminder_due c v.flap then enqueue_flapping db else db

  abbrev pub note_down : Verdict → Db → Option Incident → Db
  note_down v db none = open_incident calls m (m.name ++ " is down") "Monitor is not responding." db
  note_down v db (some i) =
      if is_some v.flap && i.is_auto_created
      then post_update calls i.id i.status "Monitor stopped recovering and is down." db
      else db

  module _ (c : MonitorCheck) (current : Option MonitorStatus) where
    -- `else if (alertsDown)`
    unfoldable pub alert_down : Verdict → Db → Db
    alert_down v db =
        note_down v
          (insert_event
            (new_event m calls.alert_event_id calls.alert_stamp monitor_down (
              status_change (status_of current) down (failures_after current c.status)
                c.error_message c.id))
            db)
          (active_incident db m.id)

    -- `else if (alertsUp)`
    unfoldable pub alert_up : Db → Db
    alert_up db = resolve_auto_incident calls m "Monitor has recovered automatically." (
        insert_event
          (new_event m calls.alert_event_id calls.alert_stamp monitor_up (
            status_change (some (if holds is_degraded (status_of current) then degraded else down))
              up (failures_after current c.status) none c.id))
          db)

    abbrev enqueue_degraded : Db → Db
    enqueue_degraded = insert_event (
        new_event m calls.alert_event_id calls.alert_stamp monitor_degraded
          (status_change (status_of current) degraded (failures_after current c.status) none c.id))

    -- `else if (result.status === "degraded")`
    unfoldable pub when_degraded : Verdict → Db → Db
    when_degraded v db =
        let told : Db = if v.alerts_degraded then enqueue_degraded db else db in
        if v.settled || (v.steady && v.in_outage)
        then resolve_auto_incident calls m "Monitor is responding again, with degraded performance."
            told
        else told

    -- The chain of branches at the end of `interpret`.
    unfoldable pub announce : Verdict → Db → Db
    announce v db =
        if v.starts_flapping
        then start_flapping db
        else if is_some v.flap && not v.settled
        then keep_flapping c v db
        else if v.alerts_down
        then alert_down v db
        else if v.alerts_up
        then alert_up db
        else if is_degraded c.status
        then when_degraded v db
        else db

    abbrev pub next_status : MonitorStatus → MonitorStatus
    next_status s = record s {
      status = c.status;
      last_check_at = some c.checked_at;
      last_status_change =
          if status_changed current c.status then some c.checked_at else last_change_of current;
      consecutive_failures = failures_after current c.status;
      updated_at = calls.now;
    }

    -- The update of monitor_status.
    unfoldable pub record_status : Db → Db
    record_status db = record db {
      statuses = update_where (λ s. s.monitor_id == m.id) next_status db.statuses;
    }

-- A row older than the last one interpreted.
abbrev pub is_late : Option MonitorStatus → MonitorCheck → Bool
is_late none c = false
is_late (some s) c = holds (λ t. ltb c.checked_at t) s.last_check_at

unfoldable pub current_status : Db → ℕ → Option MonitorStatus
current_status db m = first_where (λ s. s.monitor_id == m) db.statuses

abbrev pub is_waiting : ℕ → MonitorCheck → Bool
is_waiting m c = (c.monitor_id == m) && is_none c.processed_at

-- `asc(checkedAt), asc(id)`
abbrev pub checked_before : MonitorCheck → MonitorCheck → Bool
checked_before c d =
    ltb c.checked_at d.checked_at || ((c.checked_at == d.checked_at) && leb c.id d.id)

abbrev pub mark_processed : ℕ → List MonitorCheck → List MonitorCheck → List MonitorCheck
mark_processed now rows =
    update_where (λ c. any (λ r. r.id == c.id) rows) (λ c. record c { processed_at = some now })

unfoldable pub waiting_rows : Db → ℕ → List MonitorCheck
waiting_rows db m = order_by checked_before (rows_where (is_waiting m) db.checks)

-- `pendingMonitorIds`
unfoldable pub pending_monitor_ids : Db → List ℕ
pending_monitor_ids db =
    unique (map (λ c. c.monitor_id) (rows_where (λ c. is_none c.processed_at) db.checks))

abbrev pub finish : ℕ → List MonitorCheck → Db → Db
finish now rows db = record db { checks = mark_processed now rows db.checks }

module _ (cfg : Settings) where
  -- What follows the maintenance gate.
  unfoldable pub settle : Calls → Monitor → MonitorCheck → Option MonitorStatus → Db → Db
  unfolding record_status
  settle calls m c current db =
      announce cfg calls m c current (judge cfg m c current db.events db.checks)
        (record_status cfg calls m c current db)

  unfoldable pub interpret : Calls → Monitor → MonitorCheck → Db → Db
  unfolding current_status
  interpret calls m c db =
      let current = current_status db m.id in
      let warned : Db = ssl_warning cfg calls m c db in
      if is_late current c
      then db
      else if is_some (find_active_window db.windows db.window_monitors m.id c.checked_at)
      then warned
      else settle calls m c current warned

  -- The loop over the unprocessed rows; each row has the platform's values for it.
  unfoldable pub interpret_all : (ℕ → Calls) → Monitor → List MonitorCheck → Db → Db
  interpret_all calls m [] db = db
  interpret_all calls m (c ∷ cs) db = interpret_all calls m cs (interpret (calls c.id) m c db)

  abbrev pub process_rows :
      (ℕ → Calls) → ℕ → Db → List MonitorCheck → Option Monitor → Option (Db × ℕ)
  process_rows calls now db [] m = some (db, zero)
  process_rows calls now db rows none = none
  process_rows calls now db rows (some m) =
      some (finish now rows (interpret_all calls m rows db), length rows)

  -- `processResults`, in its transaction: `none` is a throw, when the monitor's row is gone.
  unfoldable pub process_results : (ℕ → Calls) → ℕ → ℕ → Db → Option (Db × ℕ)
  unfolding waiting_rows
  process_results calls now m db =
      process_rows calls now db (waiting_rows db m) (first_where (λ r. r.id == m) db.monitors)
