-- ===== src/Tests/Sample.antt =====
-- One monitor with two results waiting, a failure and a recovery.
use uppity.Base.{ℕ, ◌*◌, ◌+◌, true, none, some, [], ◌∷◌}
use uppity.Tables.{
  Db, Monitor, MonitorCheck, MonitorStatus, MaintenanceWindow, Status, up, down, unknown, http,
  in_progress,
}
use uppity.Processor.Actions.{Calls}

abbrev pub web : Monitor
web = record {
  id = 1;
  organization_id = 7;
  name = "web";
  type = http;
  active = true;
  push_grace_period_seconds = none;
  interval_seconds = 60;
  timeout_seconds = 30;
  retries = 0;
  ssl_check_enabled = true;
  ssl_expiry_threshold_days = none;
  alert_after_failures = 1;
  created_at = 0;
  updated_at = 0;
  next_check_at = some 900000;
  check_retry_count = some 0;
  check_last_error = none;
  check_backoff_until = none;
  dead_lettered_at = none;
  capacity_paused_at = none;
}

abbrev pub result : ℕ → Status → ℕ → MonitorCheck
result id status at = record {
  id = id;
  monitor_id = 1;
  status = status;
  response_time_ms = 20;
  error_message = none;
  ssl_expires_at = none;
  ssl_issuer = none;
  checked_at = at;
  processed_at = none;
}

abbrev pub failing : MonitorCheck
failing = result 1 down 1000000

abbrev pub recovering : MonitorCheck
recovering = result 2 up 2000000

abbrev pub web_status : MonitorStatus
web_status = record {
  monitor_id = 1;
  status = unknown;
  last_check_at = none;
  last_status_change = none;
  consecutive_failures = 0;
  updated_at = 0;
}

abbrev pub window : MaintenanceWindow
window = record {
  id = 3;
  organization_id = 7;
  name = "upgrade";
  description = none;
  status = in_progress;
  starts_at = 500000;
  ends_at = 3000000;
  created_by = none;
  updated_at = 0;
}

abbrev pub sample : Db
sample = record {
  monitors = web ∷ [];
  statuses = web_status ∷ [];
  checks = recovering ∷ failing ∷ [];
  events = [];
  incidents = [];
  incident_monitors = [];
  incident_updates = [];
  windows = [];
  window_monitors = [];
  subscriptions = [];
}

abbrev pub in_window : Db
in_window = record sample {
  windows = window ∷ [];
  window_monitors = record { window_id = 3; monitor_id = 1 } ∷ [];
}

-- The platform's values for the interpretation of a result.
abbrev pub calls : ℕ → Calls
calls id = record {
  now = id * 10;
  ssl_stamp = id * 10;
  alert_stamp = id * 10 + 1;
  ssl_event_id = id * 100;
  alert_event_id = id * 100 + 1;
  incident_id = id * 100 + 2;
  update_id = id * 100 + 3;
}
