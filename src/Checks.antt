-- ===== src/Checks.antt =====
-- One check of a monitor (src/worker/monitor/check.ts): its probes, the heartbeat rule, the result
-- row, the processing of results and the schedule after it.
pub mod Attempts
pub mod Heartbeat
pub mod Rescheduled
use Prim.Native.String.{◌++◌}
use uppity.Base.{
  ℕ, zero, suc, ◌+◌, ◌-◌, ◌*◌, ◌/◌, min, String, Bool, true, false, ◌&&◌, Option, none, some, List,
  ◌∷◌, ltb, leb, ◌==◌, if◌then◌else◌, is_some, truthy_or, rows_where, newest, first_where,
}
use uppity.Settings.{Settings, max_retries, ms}
use uppity.Tables.{Db, Monitor, MonitorCheck, MonitorType, http, tcp, push, Status, is_up, is_down}
use uppity.Probes.{CheckResult, not_configured, TcpTarget, TcpOutcome, perform_tcp_check}
use uppity.Probes.Http.{HttpTarget, Platform}
use uppity.Probes.Answer.{perform_http_check}
use uppity.Processor.Actions.{Calls}
use uppity.Processor.Interpret.{process_results}
use uppity.Schedule.{record_check_success, record_check_failure}

-- What the platform returns to one check: the network at each probe, the clocks, the new
-- identifiers, which calls of the database throw, and the text of the error. A throw of the heartbeat
-- lookup counts as one of the result's write.
pub record CheckCalls : Type 0 where
  pub http_target : HttpTarget
  pub tcp_target : TcpTarget
  pub http_platform : ℕ → Platform
  pub tcp_outcome : ℕ → TcpOutcome
  pub decimal : ℕ → String
  pub checked_at : ℕ
  pub now : ℕ
  pub check_id : ℕ
  pub interpreting : ℕ → Calls
  pub processed_now : ℕ
  pub scheduled_now : ℕ
  pub event_id : ℕ
  pub tracked : Bool
  pub write_throws : Bool
  pub process_throws : Bool
  pub success_throws : Bool
  pub error : String

abbrev is_push : MonitorType → Bool
is_push push = true
is_push _ = false

module _ (cfg : Settings) (calls : CheckCalls) (m : Monitor) where
  abbrev pub own_http_target : HttpTarget
  own_http_target = record calls.http_target {
    timeout_seconds = m.timeout_seconds;
    ssl_check_enabled = m.ssl_check_enabled;
  }

  abbrev pub probe_of : MonitorType → ℕ → CheckResult
  probe_of http n = perform_http_check (calls.http_platform n) own_http_target cfg
  probe_of tcp n =
      perform_tcp_check calls.decimal cfg calls.tcp_target m.timeout_seconds (calls.tcp_outcome n)
  probe_of _ n = not_configured "Unknown monitor type"

  -- `performProbe`, the n-th of this check
  unfoldable pub perform_probe : ℕ → CheckResult
  unfolding perform_http_check perform_tcp_check
  perform_probe n = probe_of m.type n

-- The loop of `performProbeWithRetries`; the number of probes so far goes along.
unfoldable pub probe_again : (ℕ → CheckResult) → ℕ → ℕ → CheckResult → CheckResult × ℕ
probe_again probe zero n result = (result, n)
probe_again probe (suc left) n result =
    let rest = probe_again probe left (suc n) (probe n) in
    if is_down result.status then rest else (result, n)

-- `performProbeWithRetries`, with the number of its probes
unfoldable pub perform_probe_with_retries : (ℕ → CheckResult) → Monitor → CheckResult × ℕ
unfolding probe_again
perform_probe_with_retries probe m = probe_again probe (min m.retries max_retries) 1 (probe 0)

-- `allowedMs`
abbrev pub allowed_ms : Settings → Monitor → ℕ
allowed_ms cfg m =
    (truthy_or (some m.interval_seconds) cfg.default_interval_seconds
      + truthy_or m.push_grace_period_seconds cfg.default_push_grace_period_seconds)
    * 1000

abbrev pub is_heartbeat : Monitor → MonitorCheck → Bool
is_heartbeat m c = (c.monitor_id == m.id) && is_up c.status

-- The rule on the last heartbeat. The age in the message is positive, so no difference is cut off.
abbrev pub missed_since :
    Settings → (ℕ → String) → Monitor → ℕ → Option MonitorCheck → Option CheckResult
missed_since cfg decimal m now none =
    if ltb now (m.created_at + allowed_ms cfg m)
    then none
    else some (not_configured "No heartbeat received")
missed_since cfg decimal m now (some c) =
    if leb now (c.checked_at + allowed_ms cfg m)
    then none
    else some (
        not_configured
          ("No heartbeat for " ++ decimal ((now - c.checked_at) / 60000) ++ " minutes"))

-- `findMissedHeartbeat`
unfoldable pub find_missed_heartbeat :
    Settings → (ℕ → String) → Monitor → ℕ → Db → Option CheckResult
find_missed_heartbeat cfg decimal m now db =
    missed_since cfg decimal m now
      (newest (λ (c : MonitorCheck). c.checked_at) (rows_where (is_heartbeat m) db.checks))

abbrev pub check_row : CheckCalls → ℕ → CheckResult → MonitorCheck
check_row calls m r = record {
  id = calls.check_id;
  monitor_id = m;
  status = r.status;
  response_time_ms = r.response_time_ms;
  error_message = r.error_message;
  ssl_expires_at = r.ssl_expires_at;
  ssl_issuer = r.ssl_issuer;
  checked_at = calls.checked_at;
  processed_at = none;
}

-- `insertResult`: it throws, `none`, when the monitor that the row names is gone
unfoldable pub insert_result : CheckCalls → ℕ → CheckResult → Db → Option Db
insert_result calls m r db =
    if is_some (first_where (λ (x : Monitor). x.id == m) db.monitors)
    then some (record db { checks = check_row calls m r ∷ db.checks })
    else none

abbrev insert_missed : CheckCalls → ℕ → Option CheckResult → Db → Option Db
insert_missed calls m none db = some db
insert_missed calls m (some r) db = insert_result calls m r db

module _ (cfg : Settings) (calls : CheckCalls) (m : Monitor) where
  -- `recordPushCheck`
  unfoldable pub record_push_check : Db → Option Db
  unfolding insert_result
  record_push_check db =
      insert_missed calls m.id (find_missed_heartbeat cfg calls.decimal m calls.now db) db

  -- The first part of `executeCheck`; `none` is a throw.
  abbrev pub write_result : Db → Option Db
  write_result db =
      if calls.write_throws
      then none
      else if is_push m.type
      then record_push_check db
      else insert_result calls m.id (perform_probe_with_retries (perform_probe cfg calls m) m).0 db

  -- What an executed check leaves, and whether it returned.
  abbrev pub processed : Db → Option (Db × ℕ) → Db × Bool
  processed db none = (db, false)
  processed db (some (db', n)) = (db', true)

  -- A throw of the processing rolls its transaction back; the written result stays.
  abbrev pub process_written : Db → Option Db → Db × Bool
  process_written db none = (db, false)
  process_written db (some db') =
      if calls.process_throws
      then (db', false)
      else processed db' (process_results cfg calls.interpreting calls.processed_now m.id db')

  -- `executeCheck`
  unfoldable pub execute_check : Db → Db × Bool
  execute_check db = process_written db (write_result db)

  -- The `catch` of `runCheck`
  abbrev pub back_off : Db → Db
  back_off db =
      record_check_failure cfg calls.tracked calls.scheduled_now calls.event_id calls.error m db

  -- The rest of the `try`: a throw of `recordCheckSuccess` rolls its transaction back.
  abbrev pub schedule_next : Db × Bool → Db
  schedule_next (db, true) =
      if calls.success_throws
      then back_off db
      else record_check_success calls.scheduled_now calls.event_id m db
  schedule_next (db, false) = back_off db

  -- `runCheck`
  unfoldable pub run_check : Db → Db
  unfolding execute_check
  run_check db = schedule_next (execute_check db)
