-- ===== src/Probes.antt =====
-- What a probe of a target returns, and the text of its failures (src/worker/monitor/check.ts and
-- src/lib/server/tcp.ts).
pub mod Http
pub mod Answer
pub mod Redirects
pub mod Judged
use Prim.Native.String.{◌++◌}
use uppity.Base.{
  ℕ, ◌*◌, min, String, Bool, true, false, not, ◌||◌, Option, none, some, List, ltb, if◌then◌else◌,
  ◌==◌, truthy_or, same_text, starts_with, is_empty, holds,
}
use uppity.Settings.{Settings, max_timeout_seconds}
use uppity.Tables.{Status, up, down, degraded}

-- An error as far as the checks look at it: a `ProbeError` with its message, an error with a code,
-- which may be a TypeError or a RangeError and has a message, or any other.
pub data Thrown : Type 0 where
  probe_error : String → Thrown
  coded_error : String → Bool → String → Thrown
  plain_error : Thrown

-- `Phase`
pub data Phase : Type 0 where
  dns connect tls response body : Phase

-- `PHASE_WORDS`
abbrev pub phase_words : Phase → String
phase_words dns = "looking up the host name"
phase_words connect = "connecting"
phase_words tls = "in the TLS handshake"
phase_words response = "waiting for the response"
phase_words body = "reading the response body"

-- `CheckResult`, less the times of the phases.
pub record CheckResult : Type 0 where
  pub status : Status
  pub status_code : Option ℕ
  pub response_time_ms : ℕ
  pub error_message : Option String
  pub redirect_count : Option ℕ
  pub ssl_expires_at : Option ℕ
  pub ssl_issuer : Option String
  pub fault : Option Thrown

-- A down result with its message, and nothing else.
abbrev pub not_configured : String → CheckResult
not_configured message = record {
  status = down;
  status_code = none;
  response_time_ms = 0;
  error_message = some message;
  redirect_count = none;
  ssl_expires_at = none;
  ssl_issuer = none;
  fault = none;
}

-- The time limit of a probe.
abbrev pub timeout_of : Settings → ℕ → ℕ
timeout_of cfg seconds =
    min (truthy_or (some seconds) cfg.default_timeout_seconds) max_timeout_seconds

-- The status of a target that answers as it should.
unfoldable pub answered_status : Settings → ℕ → Status
answered_status cfg ms = if ltb cfg.degraded_response_time_ms ms then degraded else up

abbrev pub has_code : String → Thrown → Bool
has_code code (coded_error c argument message) = same_text c code
has_code code _ = false

-- `failureMessage`; `decimal` writes a number
abbrev pub failure_message : (ℕ → String) → Thrown → Bool → Phase → ℕ → String
failure_message decimal error true phase seconds =
    "Timed out after " ++ decimal seconds ++ "s " ++ phase_words phase
failure_message decimal (probe_error message) false phase seconds = message
failure_message decimal (coded_error code argument message) false phase seconds =
    "Check failed (" ++ code ++ ")"
failure_message decimal plain_error false phase seconds = "Check failed"

-- `checkerFault`
unfoldable pub checker_fault : Thrown → Bool → Option Thrown
checker_fault error true = none
checker_fault (probe_error message) false = none
checker_fault (coded_error code argument message) false =
    if argument then some (coded_error code argument message) else none
checker_fault plain_error false = some plain_error

-- The code in brackets at the end of a message.
abbrev pub code_suffix : Thrown → String
code_suffix (coded_error code argument message) = " (" ++ code ++ ")"
code_suffix _ = ""

-- `socketError`
abbrev pub socket_error : (ℕ → String) → String → ℕ → Thrown → Thrown
socket_error decimal host port error =
    if has_code "ECONNREFUSED" error
    then probe_error ("Connection refused by " ++ host ++ ":" ++ decimal port)
    else if has_code "ECONNRESET" error
    then probe_error ("Connection reset by " ++ host)
    else if has_code "ETIMEDOUT" error
    then probe_error ("Connection to " ++ host ++ ":" ++ decimal port ++ " timed out")
    else if has_code "EHOSTUNREACH" error || has_code "ENETUNREACH" error
    then probe_error (host ++ " is unreachable")
    else probe_error
        ("Connection to " ++ host ++ ":" ++ decimal port ++ " failed" ++ code_suffix error)

-- `probeTcp`: the error of `dial`, if it throws, whether the time was over, and the phase
pub record TcpOutcome : Type 0 where
  pub error : Option Thrown
  pub aborted : Bool
  pub phase : Phase
  pub elapsed_ms : ℕ

-- The columns that a TCP check reads besides the monitor's.
pub record TcpTarget : Type 0 where
  pub hostname : Option String
  pub port : Option ℕ

abbrev tcp_result : (ℕ → String) → Settings → ℕ → TcpOutcome → Option Thrown → CheckResult
tcp_result decimal cfg seconds o none = record (not_configured "") {
  status = answered_status cfg o.elapsed_ms;
  response_time_ms = o.elapsed_ms;
  error_message = none;
}
tcp_result decimal cfg seconds o (some error) =
    record (not_configured (failure_message decimal error o.aborted o.phase seconds)) {
      response_time_ms = o.elapsed_ms;
      fault = checker_fault error o.aborted;
    }

abbrev is_given : Option String → Bool
is_given s = holds (λ t. not (is_empty t)) s

-- `performTcpCheck`; a missing or empty host name, and a missing port or 0, are falsy
unfoldable pub perform_tcp_check :
    (ℕ → String) → Settings → TcpTarget → ℕ → TcpOutcome → CheckResult
unfolding checker_fault
perform_tcp_check decimal cfg t timeout_seconds o =
    if not (is_given t.hostname) || not (holds (λ p. ltb 0 p) t.port)
    then not_configured "No hostname or port configured"
    else tcp_result decimal cfg (timeout_of cfg timeout_seconds) o o.error
