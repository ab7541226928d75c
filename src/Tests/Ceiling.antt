-- ===== src/Tests/Ceiling.antt =====
-- The grace period of an organization with one monitor more than its plan has.
use uppity.Base.{
  if◌then◌else◌, Bool, all, ◌==◌, first_where, arith, ℕ, zero, suc, ◌*◌, ◌≡◌, refl, true, false,
  some, List, [], ◌∷◌, count_where, rows_where, order_by,
}
use uppity.Tables.{Db, Monitor, Subscription, day_notice}
use uppity.Capacity.{day_ms, active_monitor_count, ceiling_of, newest_active}
use uppity.Capacity.Pass.{run_capacity_grace, grace_rows}
use uppity.Capacity.Grace.{IsOverdue, run_capacity_grace-monitors}
use uppity.Capacity.Spared.{IsOwned, run_capacity_grace-spared}
use uppity.Subscriptions.{free_subscription}
use uppity.Tests.Sample.{web, sample}

abbrev monitors_up_to : ℕ → List Monitor
monitors_up_to zero = []
monitors_up_to (suc n) = record web { id = n; created_at = n } ∷ monitors_up_to n

abbrev warned_at : ℕ → Subscription
warned_at at = record (free_subscription 0 5 7) {
  over_capacity_since = some 0;
  capacity_notice = some day_notice;
  capacity_noticed_at = some at;
}

abbrev crowded : ℕ → Db
crowded at = record sample { monitors = monitors_up_to 21; subscriptions = warned_at at ∷ [] }

-- The last warning was delivered just now.
not_a_day : ¬ IsOverdue (15 * day_ms) (warned_at (15 * day_ms))
not_a_day h = ground (arith, h.notified, h.a_day_ago)

none_paused :
    (run_capacity_grace (15 * day_ms) (λ org n. true) false (crowded (15 * day_ms))).0.monitors
    ≡ (crowded (15 * day_ms)).monitors
none_paused =
    run_capacity_grace-monitors (15 * day_ms) (λ org n. true) false (crowded (15 * day_ms))
      (λ overdue. not_a_day overdue, tt)

-- A day after the last warning was delivered, the one too many is paused.
paused_one :
    (run_capacity_grace
      (15 * day_ms)
      (λ org n. true)
      false
      (crowded (14 * day_ms))).1.monitors_paused
    ≡ 1
unfolding run_capacity_grace grace_rows active_monitor_count ceiling_of newest_active count_where
    rows_where order_by
paused_one = refl

-- The same day, beside an organization whose last warning was delivered just now.
abbrev neighbour : Monitor
neighbour = record web { id = 99; organization_id = 8 }

abbrev two_organizations : Db
two_organizations = record sample {
  monitors = neighbour ∷ monitors_up_to 21;
  subscriptions =
      record (warned_at (15 * day_ms)) { id = 6; organization_id = 8 }
      ∷ warned_at (14 * day_ms)
      ∷ [];
}

-- A row with the id 99 is of organization 8.
abbrev owned_test : Monitor → Bool
owned_test r = if r.id == 99 then r.organization_id == 8 else true

all-IsOwned : (ms : List Monitor) → all owned_test ms ≡ true → IsOwned 99 8 ms
all-IsOwned [] e = tt
all-IsOwned (x ∷ xs) e = (λ k. ground arith, all-IsOwned xs (ground arith))

run_capacity_grace-spared_example :
    first_where
      (λ r. r.id == 99)
      (run_capacity_grace (15 * day_ms) (λ org n. true) false two_organizations).0.monitors
    ≡ some neighbour
unfolding first_where
run_capacity_grace-spared_example =
    run_capacity_grace-spared (15 * day_ms) (λ org n. true) false two_organizations 99 neighbour
      refl (all-IsOwned two_organizations.monitors refl)
      (λ e h. ground (arith, h.notified, h.a_day_ago), (λ e. cc, tt))
