-- ===== src/Tests/Probing.antt =====
-- Checks of targets, at the sample.
use uppity.Base.{
  zero, ℕ, ◌+◌, ◌≡◌, refl, String, Bool, true, false, not, Option, none, some, List, [], ◌∷◌, All,
  min, length, ◌≤◌, is_some, same_text,
}
use uppity.Settings.{defaults}
use uppity.Tables.{Monitor, is_down, up, push}
use uppity.Probes.{CheckResult, not_configured, response}
use uppity.Probes.Http.{
  Url, HttpTarget, Request, read, Answer, answered, Platform, follow, first_request, max_redirects,
}
use uppity.Probes.Answer.{perform_http_check}
use uppity.Probes.Redirects.{IsSafe, follow-first_request-IsSafe}
use uppity.Probes.Judged.{perform_http_check-IsJudged, is_passing, followed}
use uppity.Checks.{CheckCalls, perform_probe_with_retries, run_check, find_missed_heartbeat}
use uppity.Checks.Attempts.{IsAttempted, perform_probe_with_retries-IsAttempted}
use uppity.Checks.Heartbeat.{find_missed_heartbeat_iff, is_covered}
use uppity.Checks.Rescheduled.{IsScheduled, furthest, monitor_at, run_check-IsScheduled}
use uppity.Tests.Sample.{web, sample, calls}

abbrev site : String → Url
site host = record { protocol = "https:"; origin = host; hostname = host; port = 443 }

abbrev parse : String → Option Url → Option Url
parse raw base = some (site raw)

-- The first site redirects a POST to another one, which answers.
abbrev answers : ℕ → Request → Answer
answers zero r =
    answered (record { status_code = 302; location = some "b.example"; body = read "" })
answers _ r = answered (record { status_code = 200; location = none; body = read "all is well" })

abbrev platform : Platform
platform = record {
  parse_url = parse;
  lower_case = λ s. s;
  decimal = λ n. "some";
  user_agent = "Uppity/1.0";
  answer = answers;
  certificate = some (9000000, some "CA");
  elapsed_ms = 120;
  aborted = false;
}

abbrev target : HttpTarget
target = record {
  url = some "a.example";
  method = some "POST";
  headers = ("authorization", "secret") ∷ [];
  body = some "x";
  timeout_seconds = 30;
  expected_status_codes = none;
  expected_body_contains = some "well";
  follow_redirects = true;
  ssl_check_enabled = true;
}

one_redirect : (perform_http_check platform target defaults).redirect_count ≡ some 1
unfolding perform_http_check
one_redirect = refl

it_is_up : (perform_http_check platform target defaults).status ≡ up
unfolding perform_http_check
it_is_up = refl

follow-first_request-IsSafe_example :
    All
      (IsSafe "a.example")
      (follow platform target max_redirects 0
        (first_request platform target (site "a.example"))).requests
follow-first_request-IsSafe_example = follow-first_request-IsSafe platform target (site "a.example")

perform_http_check-IsJudged_example :
    (is_down (perform_http_check platform target defaults).status
      ≡ not (is_passing platform target (followed platform target (site "a.example")).outcome))
    × (is_some (perform_http_check platform target defaults).error_message
        ≡ is_down (perform_http_check platform target defaults).status)
    × (hops : ℕ) × ((perform_http_check platform target defaults).redirect_count ≡ some hops)
    × (length (followed platform target (site "a.example")).requests ≡ hops + 1)
    × (hops ≤ 20)
perform_http_check-IsJudged_example =
    perform_http_check-IsJudged platform target defaults "a.example" (site "a.example") refl refl
      refl

-- The first probe fails, the second does not.
abbrev flaky : ℕ → CheckResult
flaky zero = not_configured "refused"
flaky _ = record (not_configured "") { status = up; error_message = none }

perform_probe_with_retries-IsAttempted_example :
    IsAttempted flaky (min 3 10 + 1) (perform_probe_with_retries flaky (record web { retries = 3 }))
perform_probe_with_retries-IsAttempted_example =
    perform_probe_with_retries-IsAttempted flaky (record web { retries = 3 })

two_probes : (perform_probe_with_retries flaky (record web { retries = 3 })).1 ≡ 2
unfolding perform_probe_with_retries
two_probes = refl

abbrev pinged : Monitor
pinged = record web { type = push }

find_missed_heartbeat_iff_example :
    is_some (find_missed_heartbeat defaults (λ n. "9") pinged 9000000 sample)
    ≡ not (is_covered defaults pinged 9000000 sample)
find_missed_heartbeat_iff_example =
    find_missed_heartbeat_iff defaults (λ n. "9") pinged 9000000 sample

missed : is_some (find_missed_heartbeat defaults (λ n. "9") pinged 9000000 sample) ≡ true
unfolding find_missed_heartbeat uppity.Base.newest uppity.Base.rows_where
missed = refl

abbrev check_calls : CheckCalls
check_calls = record {
  http_target = target;
  tcp_target = record { hostname = none; port = none };
  http_platform = λ n. platform;
  tcp_outcome = λ n. record { error = none; aborted = false; phase = response; elapsed_ms = 5 };
  decimal = λ n. "some";
  checked_at = 3000000;
  now = 3000000;
  check_id = 7;
  interpreting = calls;
  processed_now = 3000100;
  scheduled_now = 3000200;
  event_id = 900;
  tracked = true;
  write_throws = false;
  process_throws = true;
  success_throws = false;
  error = "gone";
}

web_there : monitor_at sample 1 ≡ some web
unfolding uppity.Base.first_where
web_there = refl

run_check-IsScheduled_example :
    IsScheduled
      (furthest defaults check_calls web)
      5
      1
      true
      (run_check defaults check_calls web sample)
run_check-IsScheduled_example = run_check-IsScheduled defaults check_calls web 5 sample web_there
