-- ===== src/Tests/Scheduling.antt =====
-- The scheduler at the sample.
use uppity.Base.{
  ◌*◌, ◌==◌, ◌∷◌, ◌≤◌, ◌≡◌, refl, min, true, false, some, arith, All, first_where, count_where,
}
use uppity.Settings.{defaults}
use uppity.Tables.{Db, Monitor}
use uppity.Schedule.{
  claim_due_monitors, is_among, is_due, record_check_failure, backoff_ms,
  release_overlong_schedules,
}
use uppity.Schedule.Claim.{claim_exclusive, release-is_due, IsOwnSchedule}
use uppity.Schedule.Backoff.{backoff_ms-suc}
use uppity.Schedule.DeadLetter.{
  IsBalanced, here, next, failed, CheckEnds-IsBalanced, HasFailed, fail_times, fail_times-HasFailed,
  monitor_row,
}
use uppity.Tests.Sample.{web, sample}

claim_exclusive_example :
    let (claimed_db, claimed) = claim_due_monitors defaults (λ _. false) 10 1000000 sample in
    All
      (λ m. is_among claimed m ≡ false)
      (claim_due_monitors defaults (λ _. false) 10 1050000 claimed_db).1
claim_exclusive_example =
    claim_exclusive defaults (λ _. false) (λ _. false) 10 10 1000000 1050000 sample (omega arith)

-- A monitor that a clock years ahead scheduled, beside one with a time of its own.
abbrev two_times : Db
two_times = record sample {
  monitors = record web { id = 2; next_check_at = some 100000000000 } ∷ sample.monitors;
}

own : IsOwnSchedule defaults 1000000 web
own = record { next = λ t e. ground (arith, e); backoff = λ t e. cc }

release-is_due_example :
    let released = (release_overlong_schedules defaults 1000000 two_times).monitors in
    ((row : Monitor) × (first_where (λ r. r.id == 2) released ≡ some row)
      × (is_due 3000000 row ≡ true))
    × (first_where (λ r. r.id == 1) released ≡ some web)
unfolding first_where
release-is_due_example =
    release-is_due defaults 1000000 3000000 2 1 100000000000 two_times refl refl refl (omega arith)
      refl own

waits :
    (backoff_ms defaults 1 ≡ 5000)
    × (backoff_ms defaults 3 ≡ 20000)
    × (backoff_ms defaults 9 ≡ 300000)
unfolding backoff_ms
waits = (refl, refl, refl)

second_wait :
    (backoff_ms defaults 3 ≡ min (backoff_ms defaults 2 * 2) 300000)
    × (backoff_ms defaults 2 ≤ 300000)
second_wait = backoff_ms-suc defaults 1 (omega arith)

abbrev sample_row : monitor_row sample 1 ≡ some web
unfolding first_where
sample_row = refl

fail_times-HasFailed_example :
    (r : Monitor) × (monitor_row (fail_times defaults 1 (λ k. k) (λ k. k) 3 sample) 1 ≡ some r)
    × HasFailed defaults 3 r
fail_times-HasFailed_example =
    fail_times-HasFailed defaults 1 (λ k. k) (λ k. k) 3 sample web sample_row (refl, refl)

abbrev failed_once : Db
failed_once = record_check_failure defaults true 5 9 "no memory" web sample

CheckEnds-IsBalanced_example : IsBalanced 1 failed_once
unfolding count_where first_where
CheckEnds-IsBalanced_example =
    CheckEnds-IsBalanced {cfg = defaults} {db = sample}
      (next here (failed true 5 9 "no memory" web sample_row refl)) refl
