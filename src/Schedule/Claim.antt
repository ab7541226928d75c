-- ===== src/Schedule/Claim.antt =====
-- `claimDueMonitors` and `releaseOverlongSchedules` (src/worker/monitor/schedule.ts).
use mathlib.Core.Path.{subst}
use uppity.Base.{
  ap, ◌∙◌, ℕ, ◌+◌, ◌*◌, max, Option, none, is_none, holds, leb, ◌||◌, if◌then◌else◌, first_where,
  first_where-update_any, ◌≤◌, ◌<◌, ◌≡◌, refl, Bool, true, false, not, ◌&&◌, some, List, [], ◌∷◌,
  arith, All, Bool-cases, any, rows_where, update_where, inl, inr, ltb, ◌==◌, ==_iff, All-take,
  All-order_by, All-selected, All-mono,
}
use uppity.Settings.{Settings}
use uppity.Tables.{Db, Monitor}
use uppity.Schedule.{
  due_before, is_due, is_among, lease, lease_seconds, due_rows, claim_due_monitors, greatest,
  horizon, is_overlong, make_due, release_overlong_schedules,
}

-- At the time `later` the lease that a claim at `now` gives has not run out.
abbrev pub IsHeld : Settings → ℕ → ℕ → Monitor → Type 0
IsHeld cfg now later m = later < now + lease_seconds cfg m * 1000

-- A monitor picked by the earlier poll is not due in the later one.
claimed-not-due :
    (cfg : Settings) (now later : ℕ) (locked : ℕ → Bool) (picked ms : List Monitor)
    → All (IsHeld cfg now later) ms
    → All
        (λ m. is_among picked m ≡ false)
        (rows_where
          (λ m. is_due later m && not (locked m.id))
          (update_where (is_among picked) (lease cfg now) ms))
unfolding rows_where update_where
claimed-not-due cfg now later locked picked [] h = tt
claimed-not-due cfg now later locked picked (m ∷ ms) h =
    let rest = claimed-not-due cfg now later locked picked ms h.1 in
    elim (Bool-cases (is_among picked m)) [
      | inl p ↦
          let held : (is_due later (lease cfg now m) && not (locked m.id)) ≡ false =
            ground (arith, h.0) in
          simp (p, held) rest
      | inr p ↦ elim (Bool-cases (is_due later m && not (locked m.id))) [
        | inl d ↦ simp (p, d) (refl, rest)
        | inr d ↦ simp (p, d) rest
      ]
    ]

among_other :
    (picked others : List Monitor) (m : Monitor)
    → All (λ r. is_among picked r ≡ false) others
    → is_among others m ≡ true
    → is_among picked m ≡ false
among_other picked [] m h a = cc
among_other picked (r ∷ others) m h a = elim (Bool-cases (r.id == m.id)) [
  | inl e ↦ subst (λ i. any (λ x. x.id == i) picked ≡ false) ((==_iff r.id m.id).0 e) h.0
  | inr e ↦ among_other picked others m h.1 (ground arith)
]

among_selected :
    (picked ms : List Monitor) (m : Monitor)
    → is_among picked m ≡ false
    → is_among (rows_where (is_among picked) ms) m ≡ false
unfolding rows_where
among_selected picked [] m h = refl
among_selected picked (r ∷ ms) m h = elim (Bool-cases (is_among picked r)) [
  | inl p ↦ elim (Bool-cases (r.id == m.id)) [
    | inl e ↦
        let both : is_among picked m ≡ true =
          subst (λ i. any (λ x. x.id == i) picked ≡ true) ((==_iff r.id m.id).0 e) p in
        cc
    | inr e ↦ simp (p, e) (among_selected picked ms m h)
  ]
  | inr p ↦ simp p (among_selected picked ms m h)
]

-- Of two polls with nothing between them: if by the time of the later one no lease that the earlier
-- one could give has run out, the later one claims no monitor that the earlier one claimed, whatever
-- rows either finds locked and whatever their limits are.
pub claim_exclusive :
    (cfg : Settings) (locked locked' : ℕ → Bool) (limit limit' now later : ℕ) (db : Db)
    → All (IsHeld cfg now later) db.monitors
    → let (claimed_db, claimed) = claim_due_monitors cfg locked limit now db in
      All
        (λ m. is_among claimed m ≡ false)
        (claim_due_monitors cfg locked' limit' later claimed_db).1
unfolding claim_due_monitors due_rows
claim_exclusive cfg locked locked' limit limit' now later db h =
    let due = due_rows locked limit now db.monitors in
    let leased = update_where (is_among due) (lease cfg now) db.monitors in
    let due' = due_rows locked' limit' later leased in
    let free : All (λ m. is_among due m ≡ false) due' =
      All-take _ limit' _
        (All-order_by _ due_before _ (claimed-not-due cfg now later locked' due db.monitors h)) in
    All-mono _ _ (λ m a. among_selected due leased m (among_other due due' m free a))
      (All-selected (is_among due') (update_where (is_among due') (lease cfg later) leased))

-- Every time of the row is one that a claim, or the end of a check, writes at `now` or before: the
-- interval or the longest backoff ahead, or a lease ahead.
pub record IsOwnSchedule (cfg : Settings) (now : ℕ) (m : Monitor) : Type 0 where
  pub next :
      (t : ℕ)
      → m.next_check_at ≡ some t
      → t ≤ now + max (m.interval_seconds * 1000) cfg.max_backoff_ms
  pub backoff :
      (t : ℕ)
      → m.check_backoff_until ≡ some t
      → t ≤ now + max cfg.max_backoff_ms (lease_seconds cfg m * 1000)

-- The longer of the interval and the longest backoff, which is counted in whole seconds, and a lease.
abbrev pub longest_wait : Settings → Monitor → ℕ
longest_wait cfg m =
    max (m.interval_seconds * 1000) (cfg.max_backoff_ms + 999) + lease_seconds cfg m * 1000

abbrev pub released_row : Settings → ℕ → Monitor → Monitor
released_row cfg now m = if is_overlong cfg now m then make_due now m else m

module _ (cfg : Settings) (now : ℕ) (m : Monitor) where
  own-not-overlong : IsOwnSchedule cfg now m → is_overlong cfg now m ≡ false
  own-not-overlong h = go m.next_check_at m.check_backoff_until h.next h.backoff
    where
      go :
          (n b : Option ℕ)
          → ((t : ℕ) → n ≡ some t → t ≤ now + max (m.interval_seconds * 1000) cfg.max_backoff_ms)
          → ((t : ℕ) → b ≡ some t → t ≤ now + max cfg.max_backoff_ms (lease_seconds cfg m * 1000))
          → (m.active && holds (ltb (horizon cfg now m)) (greatest n b)) ≡ false
      go none none p q = ground arith
      go none (some u) p q = let v = q u refl in ground (arith, v)
      go (some t) none p q = let v = p t refl in ground (arith, v)
      go (some t) (some u) p q = let v = p t refl in let w = q u refl in ground (arith, v, w)

  released-due :
      (later t : ℕ)
      → m.active ≡ true
      → m.next_check_at ≡ some t
      → now + longest_wait cfg m ≤ later
      → is_due later (released_row cfg now m) ≡ true
  released-due later t a n h = elim (Bool-cases (is_overlong cfg now m)) [
    | inl o ↦ rw o (ground (arith, a))
    | inr o ↦ rw o (go m.check_backoff_until o)
  ]
    where
      go :
          (b : Option ℕ)
          → (m.active && holds (ltb (horizon cfg now m)) (greatest m.next_check_at b)) ≡ false
          → (m.active
              && holds (λ t. leb t later) m.next_check_at
              && (is_none b || holds (λ t. leb t later) b))
            ≡ true
      go none e = ground arith
      go (some u) e = ground arith

-- A release leaves an active monitor that has a time for its next check due once the longer of its
-- interval and the longest backoff, in whole seconds, and then a lease have passed, however far out
-- it was scheduled before. It leaves the row of a monitor as it is if its times are ones that a
-- claim or the end of a check writes.
pub release-is_due :
    (cfg : Settings) (now later id kept t : ℕ) (db : Db) {m n : Monitor}
    → first_where (λ r. r.id == id) db.monitors ≡ some m
    → m.active ≡ true
    → m.next_check_at ≡ some t
    → now + longest_wait cfg m ≤ later
    → first_where (λ r. r.id == kept) db.monitors ≡ some n
    → IsOwnSchedule cfg now n
    → let released = (release_overlong_schedules cfg now db).monitors in
      ((row : Monitor) × (first_where (λ r. r.id == id) released ≡ some row)
        × (is_due later row ≡ true))
      × (first_where (λ r. r.id == kept) released ≡ some n)
unfolding release_overlong_schedules
release-is_due cfg now later id kept t db {m} {n} e a next h f own =
    let found =
      first_where-update_any (λ r. r.id == id) (is_overlong cfg now) (make_due now) db.monitors
        (λ r. refl) e in
    let same =
      first_where-update_any (λ r. r.id == kept) (is_overlong cfg now) (make_due now) db.monitors
        (λ r. refl) f in
    (
      (released_row cfg now m, found, released-due cfg now m later t a next h),
      same ∙ ap some (rw (own-not-overlong cfg now n own) refl),
    )
