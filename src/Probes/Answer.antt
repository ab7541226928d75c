-- ===== src/Probes/Answer.antt =====
-- The result of the HTTP check (src/worker/monitor/http.ts).
use Prim.Native.String.{◌++◌}
use uppity.Base.{
  ℕ, String, Bool, true, false, Option, none, some, [], ◌∷◌, ◌==◌, if◌then◌else◌, or_default, any,
  includes, is_empty, ◌⊎◌, inl, inr,
}
use uppity.Settings.{Settings}
use uppity.Tables.{Status, down}
use uppity.Probes.{
  Thrown, Phase, body, CheckResult, not_configured, timeout_of, answered_status, failure_message,
  checker_fault,
}
use uppity.Probes.Http.{
  Url, HttpTarget, Platform, Response, Body, read, unreadable, Answer, answered, failed, Followed,
  follow, first_request, max_redirects, parse_web_url,
}

module _ (p : Platform) (t : HttpTarget) where
  -- `statusOk`
  abbrev pub is_expected : Response → Bool
  is_expected res = any (λ c. c == res.status_code) (or_default t.expected_status_codes (200 ∷ []))

  -- The text that the body has to contain; an empty one is falsy.
  abbrev pub expected_text : Option String
  expected_text = elim t.expected_body_contains [
    | none ↦ none
    | some text ↦ if is_empty text then none else some text
  ]

  -- `bodyOk`, or why the body cannot be read
  abbrev pub body_ok : Option String → Body → Bool ⊎ Thrown
  body_ok none b = inl true
  body_ok (some text) (read b) = inl (includes text b)
  body_ok (some text) (unreadable error) = inr error

  module _ (cfg : Settings) where
    abbrev pub failure : ℕ → Phase → Thrown → CheckResult
    failure hop phase error = record {
      status = down;
      status_code = none;
      response_time_ms = p.elapsed_ms;
      error_message =
          some (failure_message p.decimal error p.aborted phase (timeout_of cfg t.timeout_seconds));
      redirect_count = some hop;
      ssl_expires_at = none;
      ssl_issuer = none;
      fault = checker_fault error p.aborted;
    }

    abbrev pub expires_at : Option ℕ
    expires_at =
        if t.ssl_check_enabled then elim p.certificate [ none ↦ none | some c ↦ some c.0 ] else none

    abbrev pub issuer : Option String
    issuer = if t.ssl_check_enabled then elim p.certificate [ none ↦ none | some c ↦ c.1 ] else none

    abbrev pub reported : ℕ → Response → Status → Option String → CheckResult
    reported hop res status message = record {
      status = status;
      status_code = some res.status_code;
      response_time_ms = p.elapsed_ms;
      error_message = message;
      redirect_count = some hop;
      ssl_expires_at = expires_at;
      ssl_issuer = issuer;
      fault = none;
    }

    abbrev pub judge_body : ℕ → Response → Bool ⊎ Thrown → CheckResult
    judge_body hop res (inr error) = failure hop body error
    judge_body hop res (inl true) = reported hop res (answered_status cfg p.elapsed_ms) none
    judge_body hop res (inl false) = reported hop res down (some "Expected body content not found")

    abbrev pub judge_answer : ℕ → Answer → CheckResult
    judge_answer hop (failed phase error) = failure hop phase error
    judge_answer hop (answered res) =
        if is_expected res
        then judge_body hop res (body_ok expected_text res.body)
        else reported hop res down (some ("Unexpected status code: " ++ p.decimal res.status_code))

    abbrev pub check_url : Option Url → CheckResult
    check_url none = not_configured "URL is not valid"
    check_url (some url) =
        let f : Followed = follow p t max_redirects 0 (first_request p t url) in
        judge_answer f.hop f.outcome

    abbrev pub check_given : Option String → CheckResult
    check_given none = not_configured "No URL configured"
    check_given (some raw) =
        if is_empty raw
        then not_configured "No URL configured"
        else check_url (parse_web_url p raw none)

    -- `performHttpCheck`
    unfoldable pub perform_http_check : CheckResult
    unfolding follow first_request checker_fault answered_status
    perform_http_check = check_given t.url
