-- ===== src/Notifier/Delivery.antt =====
-- What the notifier writes after an attempt at a delivery (src/worker/notifier/processor.ts), and
-- how the attempt's outcome is settled (src/lib/server/notifications/service.ts). The attempt, which
-- sends mail and calls endpoints, is an argument: its result.
use Prim.Native.String.{◌++◌ as append}
use uppity.Base.{
  ℕ, zero, suc, ◌+◌, String, Bool, true, false, ◌&&◌, ◌||◌, Option, none, some, List, [], ◌∷◌, ◌++◌,
  ◌==◌, if◌then◌else◌, holds, update_where, length,
}
use uppity.Tables.{
  Db, NotificationEvent, EventStatus, suppressed, failed, partial, sent, retry_queued, Payload,
  empty, NotificationType, channel_confirmation,
}
use uppity.Notifier.{alert_retry_delays_ms}

-- `DeliveryProgress`
pub record DeliveryProgress : Type 0 where
  pub owed : List ℕ
  pub reached : Bool
  pub rejected : List String
  pub mail_server_down : Bool

-- `DispatchResult`
pub data DispatchResult : Type 0 where
  sent_result : DispatchResult
  failed_result : String → Option DeliveryProgress → DispatchResult
  partial_result : String → Option DeliveryProgress → DispatchResult
  suppressed_result : String → DispatchResult

-- `Round`
pub record Round : Type 0 where
  pub reached : Bool
  pub rejected : List String
  pub transient : List String
  pub owed : List ℕ
  pub mail_server_down : Bool

-- `errors.join("; ")`
abbrev join : List String → String
join [] = ""
join (s ∷ []) = s
join (s ∷ t ∷ ss) = append s (append "; " (join (t ∷ ss)))

abbrev rejected_before : Option DeliveryProgress → List String
rejected_before none = []
rejected_before (some p) = p.rejected

abbrev reached_before : Option DeliveryProgress → Bool
reached_before none = false
reached_before (some p) = p.reached

abbrev owing : Round → Bool → List String → Option DeliveryProgress
owing round reached rejected =
    if length round.transient == 0
    then none
    else some (record {
      owed = round.owed;
      reached = reached;
      rejected = rejected;
      mail_server_down = round.mail_server_down;
    })

-- `settle`
unfoldable pub settle_round : Option DeliveryProgress → Round → DispatchResult
settle_round prior round =
    let reached : Bool = reached_before prior || round.reached in
    let rejected : List String = rejected_before prior ++ round.rejected in
    let errors : List String = rejected ++ round.transient in
    if length errors == 0
    then if reached then sent_result else suppressed_result "no channel is owed this alert any more"
    else if reached
    then partial_result (join errors) (owing round reached rejected)
    else failed_result (join errors) (owing round reached rejected)

abbrev pub result_status : DispatchResult → EventStatus
result_status sent_result = sent
result_status (failed_result m p) = failed
result_status (partial_result m p) = partial
result_status (suppressed_result m) = suppressed

abbrev pub result_error : DispatchResult → Option String
result_error sent_result = none
result_error (failed_result m p) = some m
result_error (partial_result m p) = some m
result_error (suppressed_result m) = some m

-- `owes`
abbrev pub result_owes : DispatchResult → Option DeliveryProgress
result_owes (failed_result m p) = p
result_owes (partial_result m p) = p
result_owes _ = none

-- `queuedRetry(row.payload)?.attempt ?? 0`
abbrev pub attempt_of : NotificationEvent → ℕ
attempt_of e = elim e.payload.retry [ none ↦ 0 | some r ↦ r.attempt ]

abbrev pub at_index : List ℕ → ℕ → Option ℕ
at_index [] n = none
at_index (x ∷ xs) zero = some x
at_index (x ∷ xs) (suc n) = at_index xs n

-- The write of a delivery that is tried again after `delay`.
abbrev pub retried :
    ℕ
    → Option String
    → DeliveryProgress
    → ℕ
    → ℕ
    → NotificationEvent
    → NotificationEvent
    → NotificationEvent
retried now error owes attempt delay row e = record e {
  status = retry_queued;
  error_message = error;
  payload = record row.payload {
    retry = some (record {
      owed = owes.owed;
      reached = owes.reached;
      rejected = owes.rejected;
      mail_server_down = owes.mail_server_down;
      attempt = attempt + 1;
      next_at = now + delay;
    });
  };
}

abbrev pub is_confirmation : NotificationType → Bool
is_confirmation channel_confirmation = true
is_confirmation _ = false

abbrev pub final_payload : NotificationEvent → Option DeliveryProgress → Payload
final_payload row owes =
    if is_confirmation row.type
    then record { content = empty; retry = none; mail_server_down = none }
    else record row.payload {
      retry = none;
      mail_server_down = elim owes [
        | none ↦ row.payload.mail_server_down
        | some p ↦ some p.mail_server_down
      ];
    }

-- The write of a delivery that is over.
abbrev pub finished : ℕ → DispatchResult → NotificationEvent → NotificationEvent → NotificationEvent
finished now result row e = record e {
  status = result_status result;
  processed_at = some now;
  error_message = result_error result;
  payload = final_payload row (result_owes result);
}

abbrev pub retry_after : Option DeliveryProgress → Option ℕ → Option (DeliveryProgress × ℕ)
retry_after (some owes) (some delay) = some (owes, delay)
retry_after _ _ = none

-- `owes && ALERT_RETRY_DELAYS_MS.at(attempt)`
abbrev pub retry_delay : DispatchResult → ℕ → Option (DeliveryProgress × ℕ)
retry_delay result attempt =
    retry_after (result_owes result) (at_index alert_retry_delays_ms attempt)

abbrev pub write_of :
    ℕ
    → DispatchResult
    → ℕ
    → Option (DeliveryProgress × ℕ)
    → NotificationEvent
    → NotificationEvent
    → NotificationEvent
write_of now result attempt none = finished now result
write_of now result attempt (some (owes, delay)) =
    retried now (result_error result) owes attempt delay

-- The write after an attempt at delivering `row`, as it was claimed.
unfoldable pub delivered :
    ℕ → DispatchResult → NotificationEvent → NotificationEvent → NotificationEvent
delivered now result row =
    write_of now result (attempt_of row) (retry_delay result (attempt_of row)) row

-- The guard of the write: the row is still this claim's.
abbrev pub is_own : NotificationEvent → NotificationEvent → Bool
is_own row e = (e.id == row.id) && holds (λ t. holds (λ u. t == u) e.claimed_at) row.claimed_at

-- `dispatchClaimed`, of the row as it was claimed and the result of its attempt
unfoldable pub dispatch_claimed : ℕ → NotificationEvent → DispatchResult → Db → Db
dispatch_claimed now row result db = record db {
  events = update_where (is_own row) (delivered now result row) db.events;
}
