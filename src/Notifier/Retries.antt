-- ===== src/Notifier/Retries.antt =====
-- The retries of a delivery, `dispatchClaimed` (src/worker/notifier/processor.ts).
use uppity.Base.{
  ℕ, zero, suc, ◌+◌, ◌<◌, ◌≡◌, refl, Option, none, some, List, [], ◌∷◌, arith, Bool-cases, inl, inr,
  ◌⊎◌, length,
}
use uppity.Tables.{NotificationEvent, EventStatus, retry_queued}
use uppity.Notifier.{alert_retry_delays_ms, claim_row}
use uppity.Notifier.Delivery.{
  DispatchResult, DeliveryProgress, delivered, attempt_of, at_index, retry_after, write_of,
  result_owes, result_status, final_payload, is_confirmation,
}

at_index-in : (xs : List ℕ) (n : ℕ) {x : ℕ} → at_index xs n ≡ some x → n < length xs
at_index-in [] n e = cc
at_index-in (x ∷ xs) zero e = omega arith
at_index-in (x ∷ xs) (suc n) e = omega (arith, at_index-in xs n e)

final_payload-retry :
    (row : NotificationEvent) (owes : Option DeliveryProgress)
    → (final_payload row owes).retry ≡ none
final_payload-retry row owes = elim (Bool-cases (is_confirmation row.type)) [
  | inl t ↦ rw t refl
  | inr t ↦ rw t refl
]

-- What an attempt leaves: the delivery's own status, or one further attempt waiting.
abbrev pub IsDelivered : DispatchResult → ℕ → NotificationEvent → Type 0
IsDelivered result n e =
    ((e.status ≡ result_status result) × (e.payload.retry ≡ none))
    ⊎ ((e.status ≡ retry_queued) × (attempt_of e ≡ n + 1) × (n < 6))

-- An attempt ends the delivery with the result's own status and no retry kept, or queues exactly
-- one further attempt; it ends it if six retries have been used.
pub delivered-IsDelivered :
    (now : ℕ) (result : DispatchResult) (row e : NotificationEvent)
    → IsDelivered result (attempt_of row) (delivered now result row e)
unfolding delivered
delivered-IsDelivered now result row e =
    go (result_owes result) (at_index alert_retry_delays_ms (attempt_of row)) refl
  where
    go :
        (o : Option DeliveryProgress) (d : Option ℕ)
        → at_index alert_retry_delays_ms (attempt_of row) ≡ d
        → IsDelivered result
            (attempt_of row)
            (write_of now result (attempt_of row) (retry_after o d) row e)
    go none d h = inl (refl, final_payload-retry row (result_owes result))
    go (some owes) none h = inl (refl, final_payload-retry row (result_owes result))
    go (some owes) (some delay) h =
        inr (refl, refl, at_index-in alert_retry_delays_ms (attempt_of row) h)

-- A delivery with this many retries: each attempt on the row as the one before left it, claimed
-- anew, and each but the last queued again.
pub data HasRetried (e : NotificationEvent) : ℕ → NotificationEvent → Type 0 where
  fresh : HasRetried e 0 e
  again :
      {n : ℕ} {d : NotificationEvent} (now claimed_at : ℕ) (status : EventStatus)
      (result : DispatchResult)
      → HasRetried e n d
      → (delivered now result
          (claim_row status claimed_at d)
          (claim_row status claimed_at d)).status
        ≡ retry_queued
      → HasRetried e
          (suc n)
          (delivered now result (claim_row status claimed_at d) (claim_row status claimed_at d))
