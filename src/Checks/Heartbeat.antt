-- ===== src/Checks/Heartbeat.antt =====
-- The heartbeat rule of a push monitor (src/worker/monitor/check.ts).
use uppity.Base.{
  ℕ, ◌+◌, ◌≡◌, refl, ◌∙◌, Bool, true, not, ◌&&◌, ◌||◌, Option, none, some, List, [], ◌∷◌, String,
  arith, leb, ltb, holds, is_some, any, newest, rows_where, Option-cases, Bool-cases, inl, inr,
}
use uppity.Settings.{Settings}
use uppity.Tables.{Db, Monitor, MonitorCheck}
use uppity.Checks.{find_missed_heartbeat, missed_since, is_heartbeat, allowed_ms}

module _ {ℓ} {A : Type ℓ} where
  -- A bound reaches some row exactly if it reaches the newest.
  newest-reaches :
      (key : A → ℕ) (now a : ℕ) (xs : List A)
      → holds (λ x. leb now (key x + a)) (newest key xs) ≡ any (λ x. leb now (key x + a)) xs
  unfolding newest
  newest-reaches key now a [] = refl
  newest-reaches key now a (x ∷ xs) = elim (Option-cases (newest key xs)) [
    | inl e ↦ ground (arith, e, newest-reaches key now a xs)
    | inr (y, e) ↦ ground (arith, e, newest-reaches key now a xs)
  ]

  any-rows_where :
      (p q : A → Bool) (xs : List A) → any p (rows_where q xs) ≡ any (λ x. q x && p x) xs
  unfolding rows_where
  any-rows_where p q [] = refl
  any-rows_where p q (x ∷ xs) = ground (arith, any-rows_where p q xs)

  newest-filled : (key : A → ℕ) (x : A) (xs : List A) → is_some (newest key (x ∷ xs)) ≡ true
  unfolding newest
  newest-filled key x xs = ground arith

  is_some-newest :
      (key : A → ℕ) (q : A → Bool) (xs : List A) → is_some (newest key (rows_where q xs)) ≡ any q xs
  unfolding rows_where newest
  is_some-newest key q [] = refl
  is_some-newest key q (x ∷ xs) = elim (Bool-cases (q x)) [
    | inl e ↦ rw e (newest-filled key x (rows_where q xs))
    | inr e ↦ rw e (is_some-newest key q xs)
  ]

-- A heartbeat of the monitor that the rule still counts, or a monitor too young to have one.
unfoldable pub is_covered : Settings → Monitor → ℕ → Db → Bool
is_covered cfg m now db =
    any (λ c. is_heartbeat m c && leb now (c.checked_at + allowed_ms cfg m)) db.checks
    || (not (any (is_heartbeat m) db.checks) && ltb now (m.created_at + allowed_ms cfg m))

-- The heartbeat rule reports a missed heartbeat exactly if no up result of the monitor is at most the
-- interval and the grace period old and, should it have no up result at all, the monitor is at least
-- as old as both.
pub find_missed_heartbeat_iff :
    (cfg : Settings) (decimal : ℕ → String) (m : Monitor) (now : ℕ) (db : Db)
    → is_some (find_missed_heartbeat cfg decimal m now db) ≡ not (is_covered cfg m now db)
unfolding find_missed_heartbeat is_covered
find_missed_heartbeat_iff cfg decimal m now db =
    go (newest checked (rows_where (is_heartbeat m) db.checks))
      (newest-reaches checked now a (rows_where (is_heartbeat m) db.checks)
        ∙ any-rows_where _ (is_heartbeat m) db.checks)
      (is_some-newest checked (is_heartbeat m) db.checks)
  where
    a : ℕ
    a = allowed_ms cfg m

    checked : MonitorCheck → ℕ
    checked c = c.checked_at

    go :
        (o : Option MonitorCheck)
        → holds (λ c. leb now (c.checked_at + a)) o
          ≡ any (λ c. is_heartbeat m c && leb now (c.checked_at + a)) db.checks
        → is_some o ≡ any (is_heartbeat m) db.checks
        → is_some (missed_since cfg decimal m now o) ≡ not (is_covered cfg m now db)
    go none e f = ground (arith, e, f)
    go (some c) e f = ground (arith, e, f)
