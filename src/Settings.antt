-- ===== src/Settings.antt =====
-- Operator settings (defaults.ts, worker.ts and monitor.ts in src/lib/constants): each is
-- read from the environment, so the models take them as one record.
use uppity.Base.{ℕ, ◌*◌}

pub record Settings : Type 0 where
  pub flap_threshold : ℕ
  pub flap_window_seconds : ℕ
  pub flap_settle_seconds : ℕ
  pub ssl_expiry_threshold_days : ℕ
  pub ssl_warning_cooldown_hours : ℕ
  pub default_timeout_seconds : ℕ
  pub default_interval_seconds : ℕ
  pub default_push_grace_period_seconds : ℕ
  pub degraded_response_time_ms : ℕ
  pub retry_delay_ms : ℕ
  pub max_attempts : ℕ
  pub initial_backoff_ms : ℕ
  pub max_backoff_ms : ℕ
  pub multiplier : ℕ

-- The values when no environment variable is set.
abbrev pub defaults : Settings
defaults = record {
  flap_threshold = 5;
  flap_window_seconds = 3600;
  flap_settle_seconds = 300;
  ssl_expiry_threshold_days = 14;
  ssl_warning_cooldown_hours = 24;
  default_timeout_seconds = 30;
  default_interval_seconds = 60;
  default_push_grace_period_seconds = 60;
  degraded_response_time_ms = 5000;
  retry_delay_ms = 1000;
  max_attempts = 3;
  initial_backoff_ms = 5000;
  max_backoff_ms = 300000;
  multiplier = 2;
}

abbrev pub max_timeout_seconds : ℕ
max_timeout_seconds = 60

abbrev pub max_retries : ℕ
max_retries = 10

-- Seconds to milliseconds.
abbrev pub ms : ℕ → ℕ
ms s = s * 1000
