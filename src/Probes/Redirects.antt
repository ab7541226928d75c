-- ===== src/Probes/Redirects.antt =====
-- The requests of an HTTP check over its redirects (src/worker/monitor/http.ts).
use uppity.Base.{
  ℕ, zero, suc, ◌+◌, ◌≤◌, ◌≡◌, refl, ◌∙◌, String, Bool, false, Option, none, some, List, [], ◌∷◌,
  All, any, delete_where, arith, same_text, same_text-eq, Bool-cases, inl, inr, ◌⊎◌, length,
}
use uppity.Probes.Http.{
  first_request, own_method, max_redirects, Url, HttpTarget, Request, Response, Answer, answered,
  failed, Platform, Followed, delete_header, delete_headers, origin_bound_headers, has_no_body,
  becomes_get, as_get, retarget, redirected, redirect_location, move, receive, hop_to, follow,
  parse_web_url,
}

abbrev pub carries : List (String × String) → String → Bool
carries headers name = any (λ h. same_text h.0 name) headers

-- The request carries no credentials.
abbrev pub IsStripped : Request → Type 0
IsStripped r = All (λ name. carries r.headers name ≡ false) origin_bound_headers

-- Credentials go to the first origin alone, and a GET or a HEAD has no body.
pub record IsSafe (origin : String) (r : Request) : Type 0 where
  pub bound : (r.url.origin ≡ origin) ⊎ IsStripped r
  pub bodyless : (has_no_body r.method ≡ false) ⊎ (r.body ≡ none)

carries-delete_header :
    (name other : String) (headers : List (String × String))
    → carries headers other ≡ false
    → carries (delete_header name headers) other ≡ false
unfolding delete_header delete_where
carries-delete_header name other [] h = refl
carries-delete_header name other (x ∷ xs) h = ground (arith, carries-delete_header name other xs)

carries-deleted :
    (name : String) (headers : List (String × String))
    → carries (delete_header name headers) name ≡ false
unfolding delete_header delete_where
carries-deleted name [] = refl
carries-deleted name (x ∷ xs) = ground (arith, carries-deleted name xs)

stripped :
    (headers : List (String × String))
    → All
        (λ name. carries (delete_headers origin_bound_headers headers) name ≡ false)
        origin_bound_headers
unfolding delete_headers
stripped headers =
    let one = delete_header "authorization" headers in
    let two = delete_header "cookie" one in
    (
      carries-delete_header "proxy-authorization" "authorization" two (
          carries-delete_header "cookie" "authorization" one
            (carries-deleted "authorization" headers)),
      (
        carries-delete_header "proxy-authorization" "cookie" two (carries-deleted "cookie" one),
        (carries-deleted "proxy-authorization" two, tt),
      ),
    )

module _ (origin : String) where
  as_get-IsSafe : (r : Request) → IsSafe origin r → IsSafe origin (as_get r)
  as_get-IsSafe r h = record {
    bound = elim h.bound [
      | inl e ↦ inl e
      | inr s ↦ inr (
        carries-delete_header "content-type" "authorization" r.headers s.0,
        (
          carries-delete_header "content-type" "cookie" r.headers s.1.0,
          (carries-delete_header "content-type" "proxy-authorization" r.headers s.1.1.0, tt),
        ),
      )
    ];
    bodyless = inr refl;
  }

  retarget-IsSafe : (next : Url) (r : Request) → IsSafe origin r → IsSafe origin (retarget next r)
  retarget-IsSafe next r h = elim (Bool-cases (same_text next.origin r.url.origin)) [
    | inl e ↦ rw e (record {
      bound = elim h.bound [
        | inl o ↦ inl (same_text-eq next.origin r.url.origin e ∙ o)
        | inr s ↦ inr s
      ];
      bodyless = h.bodyless;
    })
    | inr e ↦ rw e (record { bound = inr (stripped r.headers); bodyless = h.bodyless })
  ]

  redirected-IsSafe :
      (code : ℕ) (next : Url) (r : Request)
      → IsSafe origin r
      → IsSafe origin (redirected code next r)
  unfolding redirected
  redirected-IsSafe code next r h = elim (Bool-cases (becomes_get code r.method)) [
    | inl e ↦ rw e (retarget-IsSafe next (as_get r) (as_get-IsSafe r h))
    | inr e ↦ rw e (retarget-IsSafe next r h)
  ]

  module _ (p : Platform) (t : HttpTarget) where
    hop_to-IsSafe :
        (again : Request → Followed) (hop : ℕ) (r : Request) (res : Response) (next : Option Url)
        → ((q : Request) → IsSafe origin q → All (IsSafe origin) (again q).requests)
        → IsSafe origin r
        → All (IsSafe origin) (hop_to p t again hop r res next).requests
    hop_to-IsSafe again hop r res none k h = (h, tt)
    hop_to-IsSafe again hop r res (some next) k h =
        (h, k (redirected res.status_code next r) (redirected-IsSafe res.status_code next r h))

    receive-IsSafe :
        (redirect : Response → String → Followed) (hop : ℕ) (r : Request) (a : Answer)
        → ((res : Response) (l : String) → All (IsSafe origin) (redirect res l).requests)
        → IsSafe origin r
        → All (IsSafe origin) (receive p t redirect hop r a).requests
    receive-IsSafe redirect hop r (failed phase error) k h = (h, tt)
    receive-IsSafe redirect hop r (answered res) k h = go (redirect_location t res)
      where
        go : (o : Option String) → All (IsSafe origin) (move p t redirect hop r res o).requests
        go none = (h, tt)
        go (some location) = k res location

    follow-IsSafe :
        (left hop : ℕ) (r : Request)
        → IsSafe origin r
        → All (IsSafe origin) (follow p t left hop r).requests
    unfolding follow
    follow-IsSafe zero hop r h = receive-IsSafe _ hop r (p.answer hop r) (λ res l. (h, tt)) h
    follow-IsSafe (suc left) hop r h =
        receive-IsSafe _ hop r (p.answer hop r)
          (λ res l.
            hop_to-IsSafe (λ q. follow p t left (suc hop) q) hop r res
              (parse_web_url p l (some r.url)) (follow-IsSafe left (suc hop)) h)
          h

module _ (p : Platform) (t : HttpTarget) where
  first_request-IsSafe : (url : Url) → IsSafe url.origin (first_request p t url)
  unfolding first_request
  first_request-IsSafe url = record {
    bound = inl refl;
    bodyless = elim (Bool-cases (has_no_body (own_method p t))) [
      | inl e ↦ inr (rw e refl)
      | inr e ↦ inl e
    ];
  }

-- What the loop counts: one request more than redirects, of which there are no more than are left.
abbrev pub IsCounted : ℕ → ℕ → Followed → Type 0
IsCounted left hop f = (length f.requests + hop ≡ f.hop + 1) × (f.hop ≤ left + hop)

module _ (p : Platform) (t : HttpTarget) where
  receive-IsCounted :
      (redirect : Response → String → Followed) (left hop : ℕ) (r : Request) (a : Answer)
      → ((res : Response) (l : String) → IsCounted left hop (redirect res l))
      → IsCounted left hop (receive p t redirect hop r a)
  receive-IsCounted redirect left hop r (failed phase error) k = (omega arith, omega arith)
  receive-IsCounted redirect left hop r (answered res) k = go (redirect_location t res)
    where
      go : (o : Option String) → IsCounted left hop (move p t redirect hop r res o)
      go none = (omega arith, omega arith)
      go (some location) = k res location

  hop_to-IsCounted :
      (again : Request → Followed) (left hop : ℕ) (r : Request) (res : Response) (next : Option Url)
      → ((q : Request) → IsCounted left (suc hop) (again q))
      → IsCounted (suc left) hop (hop_to p t again hop r res next)
  hop_to-IsCounted again left hop r res none k = (omega arith, omega arith)
  hop_to-IsCounted again left hop r res (some next) k =
      let (sum, most) = k (redirected res.status_code next r) in (omega arith, omega arith)

  pub follow-IsCounted : (left hop : ℕ) (r : Request) → IsCounted left hop (follow p t left hop r)
  unfolding follow
  follow-IsCounted zero hop r =
      receive-IsCounted _ zero hop r (p.answer hop r) (λ res l. (omega arith, omega arith))
  follow-IsCounted (suc left) hop r =
      receive-IsCounted _ (suc left) hop r (p.answer hop r) (λ res l.
        hop_to-IsCounted (λ q. follow p t left (suc hop) q) left hop r res
          (parse_web_url p l (some r.url)) (follow-IsCounted left (suc hop)))

-- Of the requests that a check of a URL sends over its redirects, each one that goes to another
-- origin than the URL's carries no header named authorization, cookie or proxy-authorization (the
-- code keeps the names in lower case), and each GET or HEAD has no body. This holds whatever the
-- targets answer and wherever they redirect to, also back to the first origin.
pub follow-first_request-IsSafe :
    (p : Platform) (t : HttpTarget) (url : Url)
    → All (IsSafe url.origin) (follow p t max_redirects 0 (first_request p t url)).requests
follow-first_request-IsSafe p t url =
    follow-IsSafe url.origin p t max_redirects 0 (first_request p t url)
      (first_request-IsSafe p t url)
