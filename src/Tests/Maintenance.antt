-- ===== src/Tests/Maintenance.antt =====
-- Maintenance windows at the sample.
use uppity.Base.{
  ◌≡◌, refl, none, [], ◌∷◌, arith, count_where, unique_by, ◌==◌, trim, is_some, any, returned,
  first_where, update_where,
}
use uppity.Tables.{completed}
use uppity.Windows.{
  CreateWindow, create, run_status_transitions, insert_window, new_window, find_active_window,
  monitors_belong_to_org,
}
use uppity.Windows.Proper.{Changes, here, next, created, ran, AreProper, Changes-AreProper}
use uppity.Windows.Lifecycle.{HasEnded, is_completed, Changes-HasEnded}
use uppity.Windows.Runs.{run-idempotent, run-find_active_window, spans}
use uppity.Tests.Sample.{in_window}

abbrev plan : CreateWindow
plan = record {
  organization_id = 7;
  name = " database ";
  description = none;
  starts_at = 2000000;
  ends_at = 4000000;
  monitor_ids = 1 ∷ 1 ∷ [];
  created_by = none;
}

planned :
    create 1000000 4 plan in_window
    ≡ returned (insert_window 1000000 4 plan in_window, new_window 1000000 4 plan)
unfolding create monitors_belong_to_org trim count_where unique_by
planned = refl

abbrev fresh_key : count_where (λ v. v.id == 4) in_window.windows ≡ 0
unfolding count_where
fresh_key = refl

-- The window in progress ends, the planned one starts.
abbrev changes :
    Changes in_window
      (run_status_transitions 3500000 3500001 (insert_window 1000000 4 plan in_window)).0
changes =
    next (next here (created 1000000 4 plan (new_window 1000000 4 plan) fresh_key planned))
      (ran 3500000 3500001)

in_window-AreProper : AreProper in_window.windows
unfolding count_where
in_window-AreProper = record { keyed = λ id. ground arith; proper = ((omega arith, refl), tt) }

Changes-AreProper_example :
    AreProper
      (run_status_transitions 3500000 3500001 (insert_window 1000000 4 plan in_window)).0.windows
Changes-AreProper_example = Changes-AreProper changes in_window-AreProper

ended_window : HasEnded 3 completed (run_status_transitions 3000000 3000001 in_window).0
unfolding run_status_transitions first_where update_where
ended_window = (_, refl, refl)

Changes-HasEnded_example :
    HasEnded 3 completed
      (run_status_transitions 5000000 5000001
        (run_status_transitions 3000000 3000001 in_window).0).0
Changes-HasEnded_example =
    Changes-HasEnded 3 completed is_completed (next here (ran 5000000 5000001)) ended_window

quiet_rerun :
    run_status_transitions 3000000 9 (run_status_transitions 3500000 3500001 in_window).0
    ≡ ((run_status_transitions 3500000 3500001 in_window).0, 0, 0)
quiet_rerun = run-idempotent 3500000 3000000 3500001 9 in_window (omega arith)

run-find_active_window_example :
    is_some (
      find_active_window
        (run_status_transitions 1000000 1000001 in_window).0.windows
        (run_status_transitions 1000000 1000001 in_window).0.window_monitors
        1
        1000000)
    ≡ any (spans 1000000 in_window.window_monitors 1) in_window.windows
run-find_active_window_example = run-find_active_window 1000000 1000001 1 in_window
