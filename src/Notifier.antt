-- ===== src/Notifier.antt =====
-- The notifier's claims and deliveries (src/worker/notifier/processor.ts): the lanes and the claims.
pub mod Delivery
pub mod Claims
pub mod Retries
pub mod Lost
use uppity.Base.{
  ℕ, zero, suc, ◌+◌, ◌*◌, String, Bool, true, false, not, ◌&&◌, ◌||◌, Option, none, some, List, [],
  ◌∷◌, ◌++◌, ltb, leb, ◌==◌, if◌then◌else◌, is_some, holds, rows_where, count_where, first_where,
  update_where, take, length, order_by, any,
}
use uppity.Tables.{
  Db, NotificationEvent, EventStatus, pending, processing, processed, suppressed, failed, partial,
  sent, retry_queued, retry_sending, confirmation_queued, confirmation_sending, QueuedRetry,
  Payload, Content, empty, NotificationType, channel_confirmation,
}

abbrev status_number : EventStatus → ℕ
status_number pending = 0
status_number processing = 1
status_number processed = 2
status_number suppressed = 3
status_number failed = 4
status_number partial = 5
status_number sent = 6
status_number retry_queued = 7
status_number retry_sending = 8
status_number confirmation_queued = 9
status_number confirmation_sending = 10

-- `===` on two statuses of an event.
abbrev pub same_event_status : EventStatus → EventStatus → Bool
same_event_status s t = status_number s == status_number t

-- `Lane`: `waits` says that its rows wait for a time (`due`).
pub record Lane : Type 0 where
  pub queued : EventStatus
  pub claimed : EventStatus
  pub waits : Bool

-- `ALERTS`
abbrev pub alerts : Lane
alerts = record { queued = pending; claimed = processing; waits = false }

-- `CONFIRMATIONS`
abbrev pub confirmations : Lane
confirmations = record {
  queued = confirmation_queued;
  claimed = confirmation_sending;
  waits = false;
}

-- `RETRIES`
abbrev pub retries : Lane
retries = record { queued = retry_queued; claimed = retry_sending; waits = true }

abbrev pub stuck_row_threshold_ms : ℕ
stuck_row_threshold_ms = 300000

abbrev pub organization_retries : ℕ
organization_retries = 5

-- `ALERT_RETRY_DELAYS_MS`
abbrev pub alert_retry_delays_ms : List ℕ
alert_retry_delays_ms = 60000 ∷ 120000 ∷ 300000 ∷ 600000 ∷ 1200000 ∷ 1800000 ∷ []

-- The retries of an organization in flight.
abbrev pub sending_of : List NotificationEvent → ℕ → ℕ
sending_of events org =
    count_where (λ e. (e.organization_id == org) && same_event_status e.status retry_sending) events

-- `due`
abbrev pub is_retry_due : ℕ → List NotificationEvent → NotificationEvent → Bool
is_retry_due now events e =
    holds (λ r. leb r.next_at now) e.payload.retry
    && ltb (sending_of events e.organization_id) organization_retries

-- Queued, and due where the lane waits; or claimed and stuck.
abbrev pub is_claimable : Lane → ℕ → List NotificationEvent → NotificationEvent → Bool
is_claimable lane now events e =
    (same_event_status e.status lane.queued
      && (if lane.waits then is_retry_due now events e else true))
    || (same_event_status e.status lane.claimed
        && holds (λ t. ltb (t + stuck_row_threshold_ms) now) e.claimed_at)

abbrev pub older_event : NotificationEvent → NotificationEvent → Bool
older_event d e = leb d.created_at e.created_at

abbrev pub claim_row : EventStatus → ℕ → NotificationEvent → NotificationEvent
claim_row status now e = record e { status = status; claimed_at = some now }

abbrev pub set_event : ℕ → (NotificationEvent → NotificationEvent) → Db → Db
set_event id f db = record db { events = update_where (λ e. e.id == id) f db.events }

-- The rows that a sweep may claim, the oldest first; `locked` rows are another sweep's.
unfoldable pub claimable_rows :
    Lane → (ℕ → Bool) → ℕ → List NotificationEvent → List NotificationEvent
claimable_rows lane locked now events =
    order_by older_event
      (rows_where (λ e. is_claimable lane now events e && not (locked e.id)) events)

abbrev pub claim_first : Lane → ℕ → Db → List NotificationEvent → Db × Option NotificationEvent
claim_first lane now db [] = (db, none)
claim_first lane now db (e ∷ rest) =
    (set_event e.id (claim_row lane.claimed now) db, some (claim_row lane.claimed now e))

-- `claimPendingEvent`
unfoldable pub claim_pending_event : Lane → (ℕ → Bool) → ℕ → Db → Db × Option NotificationEvent
claim_pending_event lane locked now db =
    claim_first lane now db (claimable_rows lane locked now db.events)

-- The status that `processOne` claims a row with.
abbrev pub claimed_status : EventStatus → EventStatus
claimed_status confirmation_queued = confirmation_sending
claimed_status _ = processing

abbrev pub is_new : ℕ → NotificationEvent → Bool
is_new id e =
    (e.id == id)
    && (same_event_status e.status pending || same_event_status e.status confirmation_queued)

abbrev pub claim_new : ℕ → NotificationEvent → NotificationEvent
claim_new now e = claim_row (claimed_status e.status) now e

-- The claim of `processOne`: the row that it owns, if it got one.
unfoldable pub claim_one : ℕ → ℕ → Db → Db × Option NotificationEvent
claim_one now id db = (
  record db { events = update_where (is_new id) (claim_new now) db.events },
  elim (first_where (is_new id) db.events) [ none ↦ none | some e ↦ some (claim_new now e) ],
)
