-- ===== src/Subscribers/Pending.antt =====
-- The link of an address that waits for its confirmation
-- (src/lib/server/services/status-page-subscriber.service.ts).
use mathlib.Core.Path.{subst}
use uppity.Base.{
  is_some, ltb, ◌||◌, suc, sym, count_where, count_where_mono, ◌≤◌, arith, first_where-holds,
  first_where-update_met, update_where-none, ℕ, ◌+◌, ◌<◌, ◌≡◌, refl, ap, Bool, true, false, none,
  some, List, [], ◌∷◌, Bool-cases, inl, inr, lt→ltb, first_where, delete_where,
}
use uppity.Subscribers.{Subscriber, SubscriberDb, confirmed, pending, confirmation_ttl_ms}
use uppity.Subscribers.Links.{
  confirms, is_confirmed, lookup, confirm, unsubscribe, has_token, state_of,
}

first_where-deleted :
    (p : Subscriber → Bool) (xs : List Subscriber) → first_where p (delete_where p xs) ≡ none
unfolding first_where delete_where
first_where-deleted p [] = refl
first_where-deleted p (x ∷ xs) = elim (Bool-cases (p x)) [
  | inl e ↦ rw e (first_where-deleted p xs)
  | inr e ↦ rw e (rw e (first_where-deleted p xs))
]

pub unsubscribe-lookup :
    (later page token : ℕ) (db : SubscriberDb)
    → lookup later page token (unsubscribe page token db) ≡ none
unfolding lookup unsubscribe
unsubscribe-lookup later page token db =
    ap (state_of later) (first_where-deleted (has_token page token) db.subscribers)

-- The row of an unconfirmed link that was sent at this time, which no other row shares.
pub record IsPending (page token sent_at : ℕ) (rows : List Subscriber) : Type 0 where
  pub row : Subscriber
  pub found : first_where (has_token page token) rows ≡ some row
  pub only : count_where (has_token page token) rows ≤ 1
  pub unverified : row.verified_at ≡ none
  pub stamped : row.confirmation_sent_at ≡ some sent_at

module _ (p q : Subscriber → Bool) where
  none_other :
      (xs : List Subscriber) {s : Subscriber}
      → ((x : Subscriber) → p x ≡ true → q x ≡ true)
      → first_where q xs ≡ some s
      → count_where q xs ≤ 1
      → p s ≡ false
      → count_where p xs ≡ 0
  unfolding first_where count_where
  none_other [] sub f c e = refl
  none_other (x ∷ xs) {s} sub f c e = elim (Bool-cases (q x)) [
    | inl h ↦
        let at_head : some x ≡ some s = rw h at f in
        let x_is : x ≡ s = cc in
        let px = subst (λ y. p y ≡ false) (sym x_is) e in
        let one : suc (count_where q xs) ≤ 1 = rw h at c in
        rw px (omega (arith, count_where_mono p q xs sub, one))
    | inr h ↦ elim (Bool-cases (p x)) [
      | inl k ↦ let both = sub x k in cc
      | inr k ↦ rw k (none_other xs sub (rw h at f) (rw h at c) e)
    ]
  ]

uncounted :
    (p : Subscriber → Bool) (xs : List Subscriber) → count_where p xs ≡ 0 → first_where p xs ≡ none
unfolding first_where count_where
uncounted p [] e = refl
uncounted p (x ∷ xs) e = elim (Bool-cases (p x)) [
  | inl h ↦ ground (arith, h)
  | inr h ↦ rw h (uncounted p xs (rw h at e))
]

module _ (page token sent_at : ℕ) (db : SubscriberDb) where
  -- The link within its time.
  pub pending-confirm :
      (now later : ℕ)
      → IsPending page token sent_at db.subscribers
      → now < sent_at + confirmation_ttl_ms
      → (lookup now page token db ≡ some pending)
        × ((confirm now page token db).1 ≡ true)
        × (lookup later page token (confirm now page token db).0 ≡ some confirmed)
  unfolding lookup confirm
  pending-confirm now later w h =
      let s = w.row in
      let in_time = lt→ltb now (sent_at + confirmation_ttl_ms) h in
      let own = first_where-holds (has_token page token) db.subscribers w.found in
      let meets : confirms now page token s ≡ true =
        rw (own, w.unverified, w.stamped, in_time) refl in
      let written =
        first_where-update_met (has_token page token) (confirms now page token)
          (λ r. record r { verified_at = some now }) db.subscribers (λ r. refl) w.found meets in
      (
        rw (w.found, w.unverified, w.stamped, in_time) refl,
        either (is_some (first_where (confirms now page token) db.subscribers))
            (ap (λ o. is_confirmed (state_of now o)) written),
        ap (state_of later) written,
      )
    where
      either : (a : Bool) {b : Bool} → b ≡ true → (a || b) ≡ true
      either true e = refl
      either false e = e

  -- The link from the end of its time on.
  pub expired-confirm :
      (late : ℕ)
      → IsPending page token sent_at db.subscribers
      → sent_at + confirmation_ttl_ms ≤ late
      → (lookup late page token db ≡ none) × (confirm late page token db ≡ (db, false))
  unfolding lookup confirm
  expired-confirm late w h =
      let s = w.row in
      let over : ltb late (sent_at + confirmation_ttl_ms) ≡ false = ground arith in
      let own = first_where-holds (has_token page token) db.subscribers w.found in
      let misses : confirms late page token s ≡ false =
        rw (own, w.unverified, w.stamped, over) refl in
      let none_confirms =
        none_other (confirms late page token) (has_token page token) db.subscribers
          (λ x e. ground arith) w.found w.only misses in
      let unknown : lookup late page token db ≡ none =
        rw (w.found, w.unverified, w.stamped, over) refl in
      let unfound = uncounted (confirms late page token) db.subscribers none_confirms in
      (
        unknown,
        rw
            (
              unfound,
              update_where-none (confirms late page token)
                  (λ r. record r { verified_at = some late }) db.subscribers none_confirms,
              w.found,
              w.unverified,
              w.stamped,
              over,
            )
            refl,
      )
