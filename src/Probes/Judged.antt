-- ===== src/Probes/Judged.antt =====
-- How an HTTP check judges its target (src/worker/monitor/http.ts).
use uppity.Base.{
  ℕ, ◌+◌, ◌≤◌, ◌≡◌, refl, String, Bool, true, false, not, ◌&&◌, Option, none, some, arith, is_some,
  includes, length, Bool-cases, inl, inr, ◌⊎◌, is_empty,
}
use uppity.Settings.{Settings}
use uppity.Tables.{is_down}
use uppity.Probes.{Thrown, CheckResult, answered_status}
use uppity.Probes.Http.{
  Url, HttpTarget, Response, Body, read, unreadable, Answer, answered, failed, Platform, Followed,
  follow, first_request, max_redirects, parse_web_url,
}
use uppity.Probes.Answer.{
  is_expected, expected_text, body_ok, judge_body, judge_answer, perform_http_check,
}
use uppity.Probes.Redirects.{follow-IsCounted}

-- A body has the text, if one is asked for.
abbrev pub has_text : Option String → Body → Bool
has_text none b = true
has_text (some text) (read b) = includes text b
has_text (some text) (unreadable error) = false

-- The last answer is a response with an expected code and the expected text.
abbrev pub is_passing : Platform → HttpTarget → Answer → Bool
is_passing p t (failed phase error) = false
is_passing p t (answered res) = is_expected p t res && has_text (expected_text p t) res.body

-- The loop over the redirects of this URL.
abbrev pub followed : Platform → HttpTarget → Url → Followed
followed p t url = follow p t max_redirects 0 (first_request p t url)

module _ (p : Platform) (t : HttpTarget) (cfg : Settings) where
  -- Down unless the answer passes, and an error message exactly with a down result.
  abbrev pub IsJudged : Answer → CheckResult → Type 0
  IsJudged a c =
      (is_down c.status ≡ not (is_passing p t a)) × (is_some c.error_message ≡ is_down c.status)

  answered_up :
      (is_down (answered_status cfg p.elapsed_ms) ≡ false)
      × (false ≡ is_down (answered_status cfg p.elapsed_ms))
  unfolding answered_status
  answered_up = (ground arith, ground arith)

  said :
      (hop : ℕ) (res : Response) (b : Bool)
      → (is_down (judge_body p t cfg hop res (inl b)).status ≡ not b)
        × (is_some (judge_body p t cfg hop res (inl b)).error_message
            ≡ is_down (judge_body p t cfg hop res (inl b)).status)
  said hop res true = answered_up
  said hop res false = (refl, refl)

  judge_answer-IsJudged : (hop : ℕ) (a : Answer) → IsJudged a (judge_answer p t cfg hop a)
  unfolding answered_status
  judge_answer-IsJudged hop (failed phase error) = (refl, refl)
  judge_answer-IsJudged hop (answered res) = elim (Bool-cases (is_expected p t res)) [
    | inl e ↦ rw e (go (expected_text p t) res.body)
    | inr e ↦ rw e (refl, refl)
  ]
    where
      go :
          (text : Option String) (b : Body)
          → (is_down (judge_body p t cfg hop res (body_ok p t text b)).status
              ≡ not (has_text text b))
            × (is_some (judge_body p t cfg hop res (body_ok p t text b)).error_message
                ≡ is_down (judge_body p t cfg hop res (body_ok p t text b)).status)
      go none b = answered_up
      go (some text) (read b) = said hop res (includes text b)
      go (some text) (unreadable error) = (refl, refl)

  judge_answer-hop : (hop : ℕ) (a : Answer) → (judge_answer p t cfg hop a).redirect_count ≡ some hop
  unfolding answered_status
  judge_answer-hop hop (failed phase error) = refl
  judge_answer-hop hop (answered res) = elim (Bool-cases (is_expected p t res)) [
    | inl e ↦ rw e (go (body_ok p t (expected_text p t) res.body))
    | inr e ↦ rw e refl
  ]
    where
      go : (o : Bool ⊎ Thrown) → (judge_body p t cfg hop res o).redirect_count ≡ some hop
      go (inl true) = refl
      go (inl false) = refl
      go (inr error) = refl

-- A check of a URL that parses is not down exactly if the loop over the redirects ended with a
-- response whose code is expected and whose body has the text asked for, if any; a down result has
-- an error message and no other has one; and the check has sent one request more than the redirects
-- that it reports, of which there are twenty at most.
pub perform_http_check-IsJudged :
    (p : Platform) (t : HttpTarget) (cfg : Settings) (raw : String) (url : Url)
    → t.url ≡ some raw
    → is_empty raw ≡ false
    → parse_web_url p raw none ≡ some url
    → (is_down (perform_http_check p t cfg).status
        ≡ not (is_passing p t (followed p t url).outcome))
      × (is_some (perform_http_check p t cfg).error_message
          ≡ is_down (perform_http_check p t cfg).status)
      × (hops : ℕ) × ((perform_http_check p t cfg).redirect_count ≡ some hops)
      × (length (followed p t url).requests ≡ hops + 1)
      × (hops ≤ 20)
unfolding perform_http_check
perform_http_check-IsJudged p t cfg raw url given filled parsed =
    let f : Followed = followed p t url in
    let (judged, told) = judge_answer-IsJudged p t cfg f.hop f.outcome in
    let (sum, most) = follow-IsCounted p t max_redirects 0 (first_request p t url) in
    simp (given, filled, parsed)
      (judged, told, f.hop, judge_answer-hop p t cfg f.hop f.outcome, omega arith, omega arith)
