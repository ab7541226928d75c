-- ===== src/Subscribers/Resent.antt =====
-- The row of an address that is asked again
-- (src/lib/server/services/status-page-subscriber.service.ts).
use mathlib.Core.Path.{subst}
use uppity.Base.{
  sym, if◌then◌else◌, count_where, ◌∙◌, Option, first_where-holds, ℕ, ◌≡◌, refl, String, Bool, true,
  false, none, some, List, [], ◌∷◌, Bool-cases, inl, inr, first_where,
}
use uppity.Subscribers.{Subscriber, is_row, may_resend, resent, resend_row}

module _ (q : Subscriber → Bool) (now page : ℕ) (email : String) where
  -- What the update of the row in conflict does to the rows of a link.
  abbrev pub Resends : List Subscriber → Subscriber → Type 0
  Resends xs s =
      (first_where q (resend_row now page email xs).0 ≡ some (resent now s))
      × ((resend_row now page email xs).1 ≡ some (resent now s))
      × (count_where q (resend_row now page email xs).0 ≡ count_where q xs)

  resend_row-first :
      (x : Subscriber) (xs : List Subscriber)
      → is_row page email x ≡ true
      → may_resend now x ≡ true
      → q x ≡ true
      → q (resent now x) ≡ true
      → Resends (x ∷ xs) x
  unfolding first_where resend_row count_where
  resend_row-first x xs k m h h' =
      rw (whole (is_row page email x) (may_resend now x) k m) (rw (h', h) (refl, refl, refl))
    where
      out : List Subscriber × Option Subscriber
      out = (resent now x ∷ xs, some (resent now x))

      kept : List Subscriber × Option Subscriber
      kept = (x ∷ xs, none)

      later : List Subscriber × Option Subscriber
      later = (x ∷ (resend_row now page email xs).0, (resend_row now page email xs).1)

      whole :
          (a b : Bool) → a ≡ true → b ≡ true → (if a then if b then out else kept else later) ≡ out
      whole true true k m = refl
      whole true false k m = cc
      whole false b k m = cc

  pub resend_row-Resends :
      (xs : List Subscriber) {s : Subscriber}
      → ((x : Subscriber) → q (resent now x) ≡ q x)
      → first_where (is_row page email) xs ≡ some s
      → first_where q xs ≡ some s
      → may_resend now s ≡ true
      → Resends xs s
  unfolding first_where resend_row count_where
  resend_row-Resends [] same e f m = cc
  resend_row-Resends (x ∷ xs) {s} same e f m = elim (Bool-cases (is_row page email x)) [
    | inl k ↦
        let at_head : some x ≡ some s = rw k at e in
        let x_is : x ≡ s = cc in
        let held = subst (λ y. q y ≡ true) (sym x_is) (first_where-holds q (x ∷ xs) f) in
        subst (Resends (x ∷ xs)) x_is (
          resend_row-first x xs k (subst (λ y. may_resend now y ≡ true) (sym x_is) m) held
            (same x ∙ held))
    | inr k ↦ elim (Bool-cases (q x)) [
      | inl h ↦
          let at_head : some x ≡ some s = rw h at f in
          let x_is : x ≡ s = cc in
          let mine =
            subst (λ y. is_row page email y ≡ true) (sym x_is)
              (first_where-holds (is_row page email) (x ∷ xs) e) in
          cc
      | inr h ↦
          let (found, returned, counted) = resend_row-Resends xs same (rw k at e) (rw h at f) m in
          rw (k, h) (found, returned, counted)
    ]
  ]
