-- ===== src/Tests/Attempts.antt =====
-- Attempts of two keys within a second.
use uppity.Base.{
  ℕ, ◌≡◌, refl, List, [], ◌∷◌, arith, first_where, count_where, update_where, delete_where,
}
use uppity.RateLimit.{Attempts, RateLimiter, let_through, attempt, window_of}
use uppity.RateLimit.Window.{attempt-exact}

abbrev two_a_second : RateLimiter
two_a_second = record { max = 2; window_ms = 1000 }

abbrev tries : List (ℕ × ℕ)
tries = (2, 20) ∷ (1, 30) ∷ (1, 40) ∷ []

-- The last window of the key ended when the first attempt comes.
abbrev ended : List Attempts
ended = record { key = 1; count = 5; reset_at = 10 } ∷ []

attempt-exact_example : let_through two_a_second 1 ((1, 10) ∷ tries) ended ≡ 2
unfolding window_of first_where count_where
attempt-exact_example =
    attempt-exact two_a_second 1 10 tries ended (omega arith) refl
      (omega arith, (omega arith, (omega arith, tt)))

-- The third attempt of the key is refused.
two_pass : let_through two_a_second 1 ((1, 10) ∷ tries) [] ≡ 2
unfolding let_through attempt window_of first_where update_where delete_where
two_pass = refl
