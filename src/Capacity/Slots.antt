-- ===== src/Capacity/Slots.antt =====
-- How many monitors `resumeAfterRaise` resumes (src/lib/server/services/capacity.service.ts).
use uppity.Base.{
  ℕ, ◌+◌, ◌-◌, max, ◌≤◌, ◌≡◌, refl, Bool, true, false, ◌&&◌, Option, none, some, List, [], ◌∷◌,
  arith, Bool-cases, inl, inr, ◌==◌, ==_iff, if◌then◌else◌, is_some, count_where, rows_where,
  update_where, length, order_by, count_where-cong, length-take-le,
}
use uppity.Tables.{Db, Monitor, Subscription}
use uppity.Schedule.{is_among}
use uppity.Capacity.{
  active_monitor_count, is_active_of, ceiling_of, fits, clear_clock, clear_found,
  clear_if_within_ceiling, find_subscription, room, resume, paused_rows, resume_rows,
  resume_after_raise, is_paused_of, older_first,
}

module _ {ℓ} {A : Type ℓ} where
  -- An update adds no more rows to a count than it changes.
  count_where-update_add :
      (q p : A → Bool) (f : A → A) (xs : List A)
      → count_where q (update_where p f xs) ≤ count_where q xs + count_where p xs
  unfolding count_where update_where
  count_where-update_add q p f [] = omega arith
  count_where-update_add q p f (x ∷ xs) = ground (arith, count_where-update_add q p f xs)

  count_where-or :
      (p q : A → Bool) (xs : List A)
      → count_where (λ x. if p x then true else q x) xs ≤ count_where p xs + count_where q xs
  unfolding count_where
  count_where-or p q [] = omega arith
  count_where-or p q (x ∷ xs) = ground (arith, count_where-or p q xs)

  count_where-no : (xs : List A) → count_where (λ x. false) xs ≡ 0
  unfolding count_where
  count_where-no [] = refl
  count_where-no (x ∷ xs) = count_where-no xs

-- No two monitors share a key.
abbrev pub IsKeyed : List Monitor → Type 0
IsKeyed ms = (id : ℕ) → count_where (λ m. m.id == id) ms ≤ 1

-- Some rows pick no more monitors than there are rows.
count_where-is_among :
    (rows ms : List Monitor) → IsKeyed ms → count_where (is_among rows) ms ≤ length rows
count_where-is_among [] ms h = omega (arith, count_where-no ms)
count_where-is_among (r ∷ rows) ms h =
    let same =
      count_where-cong (λ m. r.id == m.id) (λ m. m.id == r.id) ms
        (λ m. ground (arith, ==_iff r.id m.id, ==_iff m.id r.id)) in
    omega (
      arith,
      h r.id,
      same,
      count_where-is_among rows ms h,
      count_where-or (λ m. r.id == m.id) (is_among rows) ms,
    )

clear_if-monitors :
    (sh : Bool) (org : ℕ) (db : Db) → (clear_if_within_ceiling sh org db).monitors ≡ db.monitors
unfolding clear_if_within_ceiling clear_clock
clear_if-monitors sh org db = go (find_subscription db org)
  where
    go : (o : Option Subscription) → (clear_found sh org db o).monitors ≡ db.monitors
    go none = refl
    go (some sub) =
        elim (Bool-cases (
          is_some sub.over_capacity_since
          && fits (ceiling_of sh sub) (active_monitor_count db org))) [
            | inl t ↦ rw t refl
            | inr t ↦ rw t refl
          ]

-- Where no two monitors share a key, a raise from one ceiling to another resumes at most their
-- difference, and the organization then has no more active monitors than the new ceiling, or
-- than before.
pub resume-IsWithin :
    (sh : Bool) (now org b a : ℕ) (db : Db)
    → IsKeyed db.monitors
    → let (db', resumed) = resume_after_raise sh now org (some b) (some a) db in
      (resumed ≤ a - b) × (active_monitor_count db' org ≤ max a (active_monitor_count db org))
unfolding resume_after_raise active_monitor_count
resume-IsWithin sh now org b a db h =
    let n : ℕ = room (some b) (some a) (active_monitor_count db org) in
    let rows : List Monitor = paused_rows org n db in
    let picked = count_where-is_among rows db.monitors h in
    let limited =
      length-take-le n (order_by older_first (rows_where (is_paused_of org) db.monitors)) in
    let added =
      count_where-update_add (is_active_of org) (is_among rows) (resume now) db.monitors in
    let same = clear_if-monitors sh org (resume_rows now rows db) in
    elim (Bool-cases (n == 0)) [
      | inl t ↦ rw t (omega arith, omega arith)
      | inr t ↦ rw (t, same) (omega (arith, picked, limited), omega (arith, picked, limited, added))
    ]
