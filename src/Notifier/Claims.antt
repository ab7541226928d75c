-- ===== src/Notifier/Claims.antt =====
-- Two claims of one lane, `claimPendingEvent` (src/worker/notifier/processor.ts).
use mathlib.Core.Path.{subst}
use uppity.Base.{
  ap, ℕ, ◌+◌, ◌≤◌, ◌≡◌, refl, Bool, false, not, ◌&&◌, Option, none, some, List, [], ◌∷◌, arith, All,
  All-order_by, Bool-cases, inl, inr, ◌==◌, rows_where, update_where,
}
use uppity.Tables.{Db, NotificationEvent}
use uppity.Notifier.{
  Lane, same_event_status, is_claimable, claim_row, claimable_rows, claim_first,
  claim_pending_event, older_event, set_event,
}

abbrev pub IsOther : ℕ → NotificationEvent → Type 0
IsOther id e = (e.id == id) ≡ false

-- Right after a claim of a row, no sweep of the lane finds it until the claim counts as stuck.
others :
    (lane : Lane) (locked : ℕ → Bool) (now later id : ℕ) (all events : List NotificationEvent)
    → same_event_status lane.claimed lane.queued ≡ false
    → later ≤ now + 300000
    → All (IsOther id) (
        rows_where
          (λ e. is_claimable lane later all e && not (locked e.id))
          (update_where (λ e. e.id == id) (claim_row lane.claimed now) events))
unfolding rows_where update_where
others lane locked now later id all [] apart soon = tt
others lane locked now later id all (e ∷ events) apart soon =
    let rest = others lane locked now later id all events apart soon in
    elim (Bool-cases (e.id == id)) [
      | inl hit ↦
          let held : (is_claimable lane later all (claim_row lane.claimed now e)
                && not (locked e.id))
              ≡ false =
            ground (arith, apart) in
          simp (hit, held) rest
      | inr miss ↦ elim (Bool-cases (is_claimable lane later all e && not (locked e.id))) [
        | inl c ↦ simp (miss, c) (refl, rest)
        | inr c ↦ simp (miss, c) rest
      ]
    ]

abbrev id_of : Option NotificationEvent → ℕ
id_of none = 0
id_of (some e) = e.id

-- Of two claims within five minutes of a lane whose two statuses differ, with nothing between them,
-- whatever rows either finds locked and whatever the table holds, the second never returns the event
-- that the first one returned.
pub claim_pending_event-exclusive :
    (lane : Lane) (locked locked' : ℕ → Bool) (now later : ℕ) (db : Db)
    (row row' : NotificationEvent)
    → same_event_status lane.claimed lane.queued ≡ false
    → later ≤ now + 300000
    → (claim_pending_event lane locked now db).1 ≡ some row
    → (claim_pending_event lane locked' later (claim_pending_event lane locked now db).0).1
      ≡ some row'
    → IsOther row.id row'
unfolding claim_pending_event claimable_rows
claim_pending_event-exclusive lane locked locked' now later db row row' apart soon got got' =
    first (claimable_rows lane locked now db.events) got got'
  where
    second :
        (es : List NotificationEvent) (d : Db)
        → All (IsOther row.id) es
        → (claim_first lane later d es).1 ≡ some row'
        → IsOther row.id row'
    second [] d h e = cc
    second (x ∷ xs) d h e =
        let same : x.id ≡ row'.id = ap (λ o. id_of o) e in
        subst (λ i. (i == row.id) ≡ false) same h.0

    first :
        (es : List NotificationEvent)
        → (claim_first lane now db es).1 ≡ some row
        → (claim_pending_event lane locked' later (claim_first lane now db es).0).1 ≡ some row'
        → IsOther row.id row'
    first [] e e' = cc
    first (x ∷ xs) e e' =
        let same : x.id ≡ row.id = ap (λ o. id_of o) e in
        let d : Db = set_event x.id (claim_row lane.claimed now) db in
        second (claimable_rows lane locked' later d.events) d
          (All-order_by (IsOther row.id) older_event _ (
            subst
              (λ i. All (IsOther i) (
                rows_where (λ y. is_claimable lane later d.events y && not (locked' y.id))
                  d.events))
              same (others lane locked' now later x.id d.events db.events apart soon)))
          e'
