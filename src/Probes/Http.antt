-- ===== src/Probes/Http.antt =====
-- The HTTP check (src/worker/monitor/http.ts): its requests, one for each hop, and its result.
use Prim.Native.String.{◌++◌}
use uppity.Base.{
  ℕ, zero, suc, String, Bool, not, ◌&&◌, ◌||◌, Option, none, some, List, [], ◌∷◌, leb, ◌==◌,
  if◌then◌else◌, holds, any, delete_where, same_text, starts_with, is_empty,
}
use uppity.Probes.{Thrown, probe_error, coded_error, Phase, response, socket_error}

-- A parsed URL.
pub record Url : Type 0 where
  pub protocol : String
  pub origin : String
  pub hostname : String
  pub port : ℕ

-- `HttpTarget`
pub record HttpTarget : Type 0 where
  pub url : Option String
  pub method : Option String
  pub headers : List (String × String)
  pub body : Option String
  pub timeout_seconds : ℕ
  pub expected_status_codes : Option (List ℕ)
  pub expected_body_contains : Option String
  pub follow_redirects : Bool
  pub ssl_check_enabled : Bool

pub record Request : Type 0 where
  pub url : Url
  pub method : String
  pub headers : List (String × String)
  pub body : Option String

-- The body of a response is its first `BODY_READ_MAX_BYTES` bytes as text, or why they cannot be read.
pub data Body : Type 0 where
  read : String → Body
  unreadable : Thrown → Body

pub record Response : Type 0 where
  pub status_code : ℕ
  pub location : Option String
  pub body : Body

pub data Answer : Type 0 where
  answered : Response → Answer
  failed : Phase → Thrown → Answer

-- The platform: the URL parser, `toLowerCase`, numbers as text, the answer to the request of each
-- hop, the certificate of the first hop, the clock, and whether the time was over at a failure.
pub record Platform : Type 0 where
  pub parse_url : String → Option Url → Option Url
  pub lower_case : String → String
  pub decimal : ℕ → String
  pub user_agent : String
  pub answer : ℕ → Request → Answer
  pub certificate : Option (ℕ × Option String)
  pub elapsed_ms : ℕ
  pub aborted : Bool

abbrev pub max_redirects : ℕ
max_redirects = 20

abbrev pub origin_bound_headers : List String
origin_bound_headers = "authorization" ∷ "cookie" ∷ "proxy-authorization" ∷ []

-- `REDIRECT_STATUSES.has`
abbrev pub is_redirect : ℕ → Bool
is_redirect code = any (λ c. c == code) (301 ∷ 302 ∷ 303 ∷ 307 ∷ 308 ∷ [])

abbrev web_url : Option Url → Option Url
web_url none = none
web_url (some u) =
    if same_text u.protocol "http:" || same_text u.protocol "https:" then some u else none

-- `parseWebUrl` (src/lib/utils/web-url.ts)
abbrev pub parse_web_url : Platform → String → Option Url → Option Url
parse_web_url p raw base = web_url (p.parse_url raw base)

-- `requestError`
abbrev pub request_error : Platform → Url → Thrown → Thrown
request_error p u (coded_error code argument message) =
    if same_text code "UND_ERR_SOCKET"
    then probe_error (u.hostname ++ " closed the connection without a response")
    else if same_text code "UND_ERR_HEADERS_OVERFLOW"
    then probe_error "Response headers are too large"
    else if same_text code "UND_ERR_INVALID_ARG"
    then probe_error ("Request is invalid: " ++ message)
    else if same_text code "ECONNRESET"
    then socket_error p.decimal u.hostname u.port (coded_error code argument message)
    else if starts_with "HPE_" code
    then probe_error "Response is not valid HTTP"
    else coded_error code argument message
request_error p u error = error

-- `delete headers[name]`
unfoldable pub delete_header : String → List (String × String) → List (String × String)
delete_header name headers = delete_where (λ h. same_text h.0 name) headers

-- `headers[name] = value`
abbrev pub set_header : String → String → List (String × String) → List (String × String)
set_header name value headers = (name, value) ∷ delete_where (λ h. same_text h.0 name) headers

unfoldable pub delete_headers : List String → List (String × String) → List (String × String)
unfolding delete_header
delete_headers [] headers = headers
delete_headers (name ∷ names) headers = delete_headers names (delete_header name headers)

abbrev pub has_no_body : String → Bool
has_no_body method = same_text method "GET" || same_text method "HEAD"

-- Whether a redirect with this code turns the request into a GET without a body.
abbrev pub becomes_get : ℕ → String → Bool
becomes_get code method =
    if code == 303 then not (same_text method "HEAD") else leb code 302 && same_text method "POST"

abbrev pub as_get : Request → Request
as_get r = record r {
  method = "GET";
  body = none;
  headers = delete_header "content-type" r.headers;
}

abbrev pub retarget : Url → Request → Request
retarget next r =
    if same_text next.origin r.url.origin
    then record r { url = next }
    else record r { url = next; headers = delete_headers origin_bound_headers r.headers }

-- The request after a redirect to `next`.
unfoldable pub redirected : ℕ → Url → Request → Request
redirected code next r =
    if becomes_get code r.method then retarget next (as_get r) else retarget next r

-- What the loop ends with: the requests it sent, the last hop, and the response or the error.
pub record Followed : Type 0 where
  pub requests : List Request
  pub hop : ℕ
  pub outcome : Answer

abbrev pub sent : Request → Followed → Followed
sent r f = record f { requests = r ∷ f.requests }

abbrev pub ends : ℕ → Request → Answer → Followed
ends hop r outcome = record { requests = r ∷ []; hop = hop; outcome = outcome }

-- `location`, if the response is a redirect that the check follows; an empty one is falsy
abbrev pub redirect_location : HttpTarget → Response → Option String
redirect_location t r =
    if t.follow_redirects && is_redirect r.status_code && holds (λ l. not (is_empty l)) r.location
    then r.location
    else none

module _ (p : Platform) (t : HttpTarget) where
  -- What the loop does with an answer, and with the redirect that a response may be.
  abbrev pub move :
      (Response → String → Followed) → ℕ → Request → Response → Option String → Followed
  move redirect hop r res none = ends hop r (answered res)
  move redirect hop r res (some location) = redirect res location

  abbrev pub receive : (Response → String → Followed) → ℕ → Request → Answer → Followed
  receive redirect hop r (failed phase error) =
      ends hop r (failed phase (request_error p r.url error))
  receive redirect hop r (answered res) = move redirect hop r res (redirect_location t res)

  abbrev pub hop_to : (Request → Followed) → ℕ → Request → Response → Option Url → Followed
  hop_to again hop r res none =
      ends hop r (failed response (probe_error "Redirect to an unsupported location"))
  hop_to again hop r res (some next) = sent r (again (redirected res.status_code next r))

  -- The loop of `performHttpCheck`; at a hop, `left` of the `MAX_REDIRECTS` redirects are left.
  unfoldable pub follow : ℕ → ℕ → Request → Followed
  unfolding redirected
  follow zero hop r =
      receive (λ res location. ends hop r (failed response (probe_error "More than 20 redirects")))
        hop r (p.answer hop r)
  follow (suc left) hop r =
      receive
        (λ res location.
          hop_to (λ q. follow left (suc hop) q) hop r res (parse_web_url p location (some r.url)))
        hop r (p.answer hop r)

  -- `{ "user-agent": …, ...lowerCaseKeys(m.headers), connection: "close" }`
  unfoldable pub merge_headers :
      List (String × String) → List (String × String) → List (String × String)
  merge_headers [] headers = headers
  merge_headers ((name, value) ∷ more) headers =
      merge_headers more (set_header (p.lower_case name) value headers)

  abbrev pub own_method : String
  own_method = elim t.method [ none ↦ "GET" | some m ↦ if is_empty m then "GET" else m ]

  unfoldable pub first_request : Url → Request
  unfolding merge_headers
  first_request url = record {
    url = url;
    method = own_method;
    body = if has_no_body own_method then none else t.body;
    headers =
        set_header "connection" "close"
          (merge_headers t.headers (("user-agent", p.user_agent) ∷ []));
  }
