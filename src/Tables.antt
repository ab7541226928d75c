-- ===== src/Tables.antt =====
-- The rows of the tables that the worker and the services share (src/lib/server/db/schema.ts).
-- A text column with a fixed set of values is a data type; identifiers are numbers, since the
-- program only compares them; a time is its number of milliseconds. Columns that no modelled
-- operation reads or writes are left out.
pub mod Kinds
use uppity.Base.{ℕ, String, Bool, Option, List}
pub use Kinds.*

pub record Monitor : Type 0 where
  pub id : ℕ
  pub organization_id : ℕ
  pub name : String
  pub type : MonitorType
  pub active : Bool
  pub push_grace_period_seconds : Option ℕ
  pub interval_seconds : ℕ
  pub timeout_seconds : ℕ
  pub retries : ℕ
  pub ssl_check_enabled : Bool
  pub ssl_expiry_threshold_days : Option ℕ
  pub alert_after_failures : ℕ
  pub created_at : ℕ
  pub updated_at : ℕ
  pub next_check_at : Option ℕ
  pub check_retry_count : Option ℕ
  pub check_last_error : Option String
  pub check_backoff_until : Option ℕ
  pub dead_lettered_at : Option ℕ
  pub capacity_paused_at : Option ℕ

pub record MonitorCheck : Type 0 where
  pub id : ℕ
  pub monitor_id : ℕ
  pub status : Status
  pub response_time_ms : ℕ
  pub error_message : Option String
  pub ssl_expires_at : Option ℕ
  pub ssl_issuer : Option String
  pub checked_at : ℕ
  pub processed_at : Option ℕ

pub record MonitorStatus : Type 0 where
  pub monitor_id : ℕ
  pub status : Status
  pub last_check_at : Option ℕ
  pub last_status_change : Option ℕ
  pub consecutive_failures : ℕ
  pub updated_at : ℕ

pub record Incident : Type 0 where
  pub id : ℕ
  pub organization_id : ℕ
  pub title : String
  pub status : IncidentStatus
  pub impact : IncidentImpact
  pub started_at : ℕ
  pub resolved_at : Option ℕ
  pub created_by : Option ℕ
  pub is_auto_created : Bool
  pub created_at : ℕ
  pub updated_at : ℕ

pub record IncidentMonitor : Type 0 where
  pub incident_id : ℕ
  pub monitor_id : ℕ

pub record IncidentUpdate : Type 0 where
  pub id : ℕ
  pub incident_id : ℕ
  pub status : IncidentStatus
  pub message : String
  pub created_by : Option ℕ
  pub created_at : ℕ

pub record NotificationEvent : Type 0 where
  pub id : ℕ
  pub organization_id : ℕ
  pub monitor_id : Option ℕ
  pub incident_id : Option ℕ
  pub type : NotificationType
  pub payload : Payload
  pub status : EventStatus
  pub claimed_at : Option ℕ
  pub processed_at : Option ℕ
  pub error_message : Option String
  pub created_at : ℕ

pub record MaintenanceWindow : Type 0 where
  pub id : ℕ
  pub organization_id : ℕ
  pub name : String
  pub description : Option String
  pub status : WindowStatus
  pub starts_at : ℕ
  pub ends_at : ℕ
  pub created_by : Option ℕ
  pub updated_at : ℕ

pub record WindowMonitor : Type 0 where
  pub window_id : ℕ
  pub monitor_id : ℕ

pub record Subscription : Type 0 where
  pub id : ℕ
  pub organization_id : ℕ
  pub plan_id : PlanId
  pub status : SubscriptionStatus
  pub blocks : ℕ
  pub scheduled_blocks : Option ℕ
  pub over_capacity_since : Option ℕ
  pub capacity_notice : Option NoticeKind
  pub capacity_noticed_at : Option ℕ
  pub billing_interval : Option BillingInterval
  pub current_period_start : Option ℕ
  pub current_period_end : Option ℕ
  pub polar_customer_id : Option ℕ
  pub polar_subscription_id : Option ℕ
  pub updated_at : ℕ

-- The database, as far as the modelled operations reach.
pub record Db : Type 0 where
  pub monitors : List Monitor
  pub statuses : List MonitorStatus
  pub checks : List MonitorCheck
  pub events : List NotificationEvent
  pub incidents : List Incident
  pub incident_monitors : List IncidentMonitor
  pub incident_updates : List IncidentUpdate
  pub windows : List MaintenanceWindow
  pub window_monitors : List WindowMonitor
  pub subscriptions : List Subscription
