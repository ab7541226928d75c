-- ===== src/RateLimit.antt =====
-- The attempt counter of one web replica (src/lib/server/rate-limit.ts). A map is the list of its
-- entries; a key is a number, since keys are only compared.
pub mod Window
use uppity.Base.{
  ℕ, suc, ◌+◌, Bool, true, false, Option, none, some, List, [], ◌∷◌, ltb, leb, ◌==◌, if◌then◌else◌,
  first_where, update_where, delete_where, length,
}

pub record Attempts : Type 0 where
  pub key : ℕ
  pub count : ℕ
  pub reset_at : ℕ

-- `RateLimiter`: its settings
pub record RateLimiter : Type 0 where
  pub max : ℕ
  pub window_ms : ℕ

abbrev pub sweep_threshold : ℕ
sweep_threshold = 10000

unfoldable pub window_of : ℕ → List Attempts → Option Attempts
window_of key ws = first_where (λ w. w.key == key) ws

abbrev pub is_expired : ℕ → Attempts → Bool
is_expired now w = leb w.reset_at now

abbrev pub sweep : ℕ → List Attempts → List Attempts
sweep now ws = if leb sweep_threshold (length ws) then delete_where (is_expired now) ws else ws

abbrev pub count_up : Attempts → Attempts
count_up w = record w { count = w.count + 1 }

-- A new window for the key.
abbrev pub open_window : RateLimiter → ℕ → ℕ → List Attempts → List Attempts
open_window limiter key now ws =
    record { key = key; count = 1; reset_at = now + limiter.window_ms }
    ∷ delete_where (λ w. w.key == key) (sweep now ws)

abbrev pub attempt_found :
    RateLimiter → ℕ → ℕ → List Attempts → Option Attempts → List Attempts × Bool
attempt_found limiter key now ws none = (open_window limiter key now ws, true)
attempt_found limiter key now ws (some w) =
    if ltb now w.reset_at
    then (update_where (λ v. v.key == key) count_up ws, leb (w.count + 1) limiter.max)
    else (open_window limiter key now ws, true)

-- `attempt`
unfoldable pub attempt : RateLimiter → ℕ → ℕ → List Attempts → List Attempts × Bool
attempt limiter key now ws = attempt_found limiter key now ws (window_of key ws)

-- Attempts of any keys at their times, and how many of one key were let through.
unfoldable pub let_through : RateLimiter → ℕ → List (ℕ × ℕ) → List Attempts → ℕ
let_through limiter key [] ws = 0
let_through limiter key ((k, now) ∷ rest) ws =
    let (next, allowed) = attempt limiter k now ws in
    let later = let_through limiter key rest next in
    if k == key then (if allowed then suc later else later) else later
