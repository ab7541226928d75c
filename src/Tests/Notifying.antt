-- ===== src/Tests/Notifying.antt =====
-- The notifier at one event.
use uppity.Base.{
  update_where, ℕ, ◌≡◌, refl, true, false, some, [], ◌∷◌, arith, rows_where, order_by, count_where,
}
use uppity.Tables.{Db, NotificationEvent, monitor_down, empty, processing}
use uppity.Notifier.{alerts, claim_row, claim_pending_event, claimable_rows}
use uppity.Notifier.Claims.{IsOther, claim_pending_event-exclusive}
use uppity.Notifier.Delivery.{DispatchResult, failed_result, delivered, dispatch_claimed}
use uppity.Notifier.Retries.{IsDelivered, delivered-IsDelivered, HasRetried, fresh, again}
use uppity.Notifier.Lost.{dispatch_claimed-lost}
use uppity.Tests.Sample.{web, sample}
use uppity.Processor.Actions.{new_event}

abbrev alert : ℕ → NotificationEvent
alert id = new_event web id id monitor_down empty

abbrev queue : Db
queue = record sample { events = alert 8 ∷ alert 6 ∷ [] }

-- The oldest first, and then the next.
claim_pending_event-exclusive_example : IsOther 6 (claim_row processing 200 (alert 8))
unfolding claim_pending_event claimable_rows order_by rows_where count_where update_where
claim_pending_event-exclusive_example =
    claim_pending_event-exclusive alerts (λ _. false) (λ _. false) 100 200 queue
      (claim_row processing 100 (alert 6)) (claim_row processing 200 (alert 8)) refl (omega arith)
      refl refl

abbrev no_answer : DispatchResult
no_answer =
    failed_result "timeout"
      (some (record { owed = 3 ∷ []; reached = false; rejected = []; mail_server_down = true }))

one_attempt : IsDelivered no_answer 0 (delivered 300 no_answer (alert 6) (alert 6))
one_attempt = delivered-IsDelivered 300 no_answer (alert 6) (alert 6)

abbrev first_try : HasRetried (alert 6) 1 (
    delivered 300 no_answer
      (claim_row processing 100 (alert 6))
      (claim_row processing 100 (alert 6)))
unfolding delivered
first_try = again 300 100 processing no_answer fresh refl

dispatch_claimed-lost_example :
    dispatch_claimed 400000
      (claim_row processing 100 (alert 6))
      no_answer
      (claim_pending_event alerts (λ _. false) 400000 queue).0
    ≡ (claim_pending_event alerts (λ _. false) 400000 queue).0
unfolding claim_pending_event claimable_rows order_by rows_where
dispatch_claimed-lost_example =
    dispatch_claimed-lost alerts (λ _. false) 100 400000 400000 queue
      (claim_row processing 100 (alert 6)) (claim_row processing 400000 (alert 6)) no_answer refl
      (omega arith) refl refl
