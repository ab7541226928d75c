-- ===== src/Tests/Processing.antt =====
-- The result processor at the sample.
use uppity.Base.{
  ℕ, ◌≡◌, refl, true, some, [], ◌∷◌, arith, All, first_where, rows_where, map, is_some, length,
  ◌==◌, order_by, inr, count_where, update_where, newest,
}
use uppity.Settings.{defaults}
use uppity.Tables.{Db, NotificationEvent, monitor_down, monitor_up}
use uppity.Alerts.{active_flap, outage_alerted}
use uppity.Windows.{find_active_window}
use uppity.Verdict.{judge, reaches_flap_limit}
use uppity.Processor.Actions.{ssl_warning, active_incident, open_incident, resolve_auto_incident}
use uppity.Processor.Interpret.{
  interpret, interpret_all, process_results, waiting_rows, current_status, announce, settle,
  start_flapping, keep_flapping, alert_down, alert_up,
}
use uppity.Processor.Batch.{process_results_once}
use uppity.Processor.Alternation.{IsLog, process_results-IsLog}
use uppity.Processor.Failures.{
  CountsFailures, NotBefore, last_check_of, process_results-CountsFailures,
}
use uppity.Processor.Frozen.{IsFrozen, process_results-IsFrozen}
use uppity.Processor.Isolation.{IsUntouched, process_results-IsUntouched}
use uppity.Processor.Incidents.{open_autos}
use uppity.Processor.OneAuto.{OneAuto, interpret-OneAuto}
use uppity.Processor.Outcome.{interpret-opens_incident, interpret-closes_incident}
use uppity.Tests.Sample.{web, failing, recovering, sample, in_window, calls}

-- The batch alerts the outage, then the recovery, and resolves the incident.
run_types :
    map
      (λ (e : NotificationEvent). e.type)
      (interpret_all defaults calls web (failing ∷ recovering ∷ []) sample).events
    ≡ monitor_up ∷ monitor_down ∷ []
unfolding interpret_all interpret ssl_warning find_active_window settle judge active_flap
    active_incident announce start_flapping keep_flapping alert_down alert_up resolve_auto_incident
    open_incident first_where rows_where newest update_where count_where reaches_flap_limit
    outage_alerted
run_types = refl

abbrev found : first_where (λ r. r.id == 1) sample.monitors ≡ some web
unfolding first_where
found = refl

abbrev found_in_window : first_where (λ r. r.id == 1) in_window.monitors ≡ some web
unfolding first_where
found_in_window = refl

process_results_once_example :
    (db' : Db) × (process_results defaults calls 5000000 1 sample
      ≡ some (db', length (waiting_rows sample 1)))
    × (process_results defaults calls 6000000 1 db' ≡ some (db', 0))
process_results_once_example =
    process_results_once defaults calls calls 5000000 6000000 1 sample found

abbrev after : Db
after = (process_results_once defaults calls calls 5000000 6000000 1 sample found).0

abbrev ran :
    process_results defaults calls 5000000 1 sample ≡ some (after, length (waiting_rows sample 1))
ran = (process_results_once defaults calls calls 5000000 6000000 1 sample found).1

process_results-IsLog_example : (t : ℕ) × IsLog t after.events
unfolding waiting_rows rows_where order_by
process_results-IsLog_example =
    process_results-IsLog defaults calls 5000000 1 0 sample (omega arith)
      (record { bounded = tt; chronological = tt; alternating = λ k. tt }) ran

process_results-CountsFailures_example :
    All CountsFailures after.statuses
    × NotBefore (last_check_of (current_status sample 1)) (last_check_of (current_status after 1))
process_results-CountsFailures_example =
    process_results-CountsFailures defaults calls 5000000 1 sample (refl, tt) ran

process_results-IsUntouched_example : IsUntouched 2 sample after
process_results-IsUntouched_example =
    process_results-IsUntouched defaults calls 5000000 1 2 sample (omega arith) ran

process_results-IsFrozen_example :
    IsFrozen in_window
      (process_results_once defaults calls calls 5000000 6000000 1 in_window found_in_window).0
unfolding waiting_rows rows_where order_by find_active_window first_where
process_results-IsFrozen_example =
    process_results-IsFrozen defaults calls 5000000 1 in_window (refl, (refl, tt))
      (process_results_once defaults calls calls 5000000 6000000 1 in_window found_in_window).1

abbrev none_open : OneAuto sample
unfolding count_where
none_open k = omega arith

interpret-OneAuto_example : OneAuto (interpret defaults (calls 1) web failing sample)
interpret-OneAuto_example =
    interpret-OneAuto defaults (calls 1) web failing sample (record { incidents = tt; links = tt })
      none_open

interpret-opens_incident_example :
    is_some (active_incident (interpret defaults (calls 1) web failing sample) 1) ≡ true
unfolding current_status find_active_window first_where ssl_warning judge active_flap rows_where
    newest reaches_flap_limit count_where
interpret-opens_incident_example =
    interpret-opens_incident defaults (calls 1) web failing sample (refl, refl)
      (inr (refl, refl, refl))

interpret-closes_incident_example :
    open_autos
      (interpret defaults
        (calls 2)
        web
        recovering
        (interpret defaults (calls 1) web failing sample))
      1
    ≡ 0
unfolding current_status interpret settle announce active_incident find_active_window first_where
    ssl_warning judge active_flap rows_where newest update_where alert_down open_incident
    count_where reaches_flap_limit outage_alerted
interpret-closes_incident_example =
    interpret-closes_incident defaults (calls 2) web recovering
      (interpret defaults (calls 1) web failing sample) (refl, refl)
      (interpret-OneAuto defaults (calls 1) web failing sample
        (record { incidents = tt; links = tt }) none_open)
      (refl, refl, refl, refl)
