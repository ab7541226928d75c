-- ===== src/Notifier/Lost.antt =====
-- The guard of the write in `dispatchClaimed` (src/worker/notifier/processor.ts).
use mathlib.Core.Path.{subst}
use uppity.Base.{
  ℕ, ◌≡◌, ◌≢◌, refl, ap, sym, ◌∙◌, Bool, false, Option, none, some, List, [], ◌∷◌, arith,
  Bool-cases, inl, inr, ◌==◌, ==_iff, count_where, update_where, update_where-none,
}
use uppity.Tables.{Db, NotificationEvent, EventStatus}
use uppity.Notifier.{Lane, claim_row, claimable_rows, claim_first, claim_pending_event}
use uppity.Notifier.Delivery.{DispatchResult, delivered, is_own, dispatch_claimed}

-- After a claim of the row, no row is the earlier claim's.
no_own :
    (row : NotificationEvent) (status : EventStatus) (at later : ℕ)
    (events : List NotificationEvent)
    → row.claimed_at ≡ some at
    → at ≢ later
    → count_where (is_own row) (update_where (λ e. e.id == row.id) (claim_row status later) events)
      ≡ 0
unfolding count_where update_where
no_own row status at later [] mine moved = refl
no_own row status at later (e ∷ events) mine moved =
    let rest = no_own row status at later events mine moved in
    let apart : (at == later) ≡ false = ground (arith, moved, ==_iff at later) in
    elim (Bool-cases (e.id == row.id)) [
      | inl hit ↦ simp (hit, mine, apart) rest
      | inr miss ↦ simp miss rest
    ]

-- When a sweep has claimed a row anew, at another time than a worker before it, the write of
-- that worker, whatever its attempt came to, changes nothing.
pub dispatch_claimed-lost :
    (lane : Lane) (locked : ℕ → Bool) (at later now : ℕ) (db : Db) (row row' : NotificationEvent)
    (result : DispatchResult)
    → row.claimed_at ≡ some at
    → at ≢ later
    → (claim_pending_event lane locked later db).1 ≡ some row'
    → row'.id ≡ row.id
    → let db' = (claim_pending_event lane locked later db).0 in
      dispatch_claimed now row result db' ≡ db'
unfolding claim_pending_event dispatch_claimed
dispatch_claimed-lost lane locked at later now db row row' result mine moved got same =
    go (claimable_rows lane locked later db.events) got
  where
    id_of : Option NotificationEvent → ℕ
    id_of none = 0
    id_of (some e) = e.id

    go :
        (es : List NotificationEvent)
        → (claim_first lane later db es).1 ≡ some row'
        → dispatch_claimed now row result (claim_first lane later db es).0
          ≡ (claim_first lane later db es).0
    go [] e = cc
    go (x ∷ xs) e =
        let key : x.id ≡ row.id = ap id_of e ∙ same in
        ap (λ es. record db { events = es })
          (update_where-none (is_own row) (delivered now result row) _ (
            subst
              (λ i.
                count_where (is_own row)
                  (update_where (λ y. y.id == i) (claim_row lane.claimed later) db.events)
                ≡ 0)
              (sym key) (no_own row lane.claimed at later db.events mine moved)))
