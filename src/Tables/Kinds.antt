-- ===== src/Tables/Kinds.antt =====
-- The values of the text columns (src/lib/constants/status.ts, src/lib/types/plans.ts, the column comments
-- of src/lib/server/db/schema.ts), and the payload of an event (src/lib/server/notifications/events.ts).
use uppity.Base.{ℕ, String, Bool, true, false, Option, List}

pub data Status : Type 0 where
  up down degraded unknown : Status

pub data MonitorType : Type 0 where
  http tcp push : MonitorType
  other_type : String → MonitorType

pub data IncidentStatus : Type 0 where
  investigating identified monitoring resolved postmortem : IncidentStatus

pub data IncidentImpact : Type 0 where
  no_impact minor major critical : IncidentImpact

pub data NotificationType : Type 0 where
  monitor_down monitor_up monitor_degraded ssl_expiry_warning : NotificationType
  monitor_checks_stopped monitor_checks_resumed monitor_flapping : NotificationType
  incident_created incident_updated incident_resolved channel_confirmation : NotificationType

pub data EventStatus : Type 0 where
  pending processing processed suppressed failed partial sent : EventStatus
  retry_queued retry_sending confirmation_queued confirmation_sending : EventStatus

pub data WindowStatus : Type 0 where
  scheduled in_progress completed cancelled : WindowStatus

-- `unlisted_id` is an id that `PLANS` no longer has.
pub data PlanId : Type 0 where
  free_id uppity_id dedicated_id enterprise_id unlisted_id : PlanId

pub data SubscriptionStatus : Type 0 where
  active canceled past_due trialing : SubscriptionStatus

pub data BillingInterval : Type 0 where
  day week month year : BillingInterval

pub data NoticeKind : Type 0 where
  over_notice week_notice day_notice paused_notice : NoticeKind

-- `===` on two states of a monitor.
abbrev pub same_status : Status → Status → Bool
same_status up up = true
same_status down down = true
same_status degraded degraded = true
same_status unknown unknown = true
same_status _ _ = false

abbrev pub is_up : Status → Bool
is_up up = true
is_up _ = false

abbrev pub is_down : Status → Bool
is_down down = true
is_down _ = false

abbrev pub is_degraded : Status → Bool
is_degraded degraded = true
is_degraded _ = false

-- `DeliveryProgress` and the retry's own fields.
pub record QueuedRetry : Type 0 where
  pub owed : List ℕ
  pub reached : Bool
  pub rejected : List String
  pub mail_server_down : Bool
  pub attempt : ℕ
  pub next_at : ℕ

-- What each type of event carries.
pub data Content : Type 0 where
  status_change : Option Status → Status → ℕ → Option String → ℕ → Content
  ssl_expiry : ℕ → ℕ → Option String → Content
  flapping : ℕ → ℕ → Content
  incident_change : Option ℕ → Option String → Content
  confirmation : ℕ → Content
  empty : Content

-- The payload column: the content, and what the notifier keeps beside it.
pub record Payload : Type 0 where
  pub content : Content
  pub retry : Option QueuedRetry
  pub mail_server_down : Option Bool
