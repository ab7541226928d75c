-- ===== src/RateLimit/Window.antt =====
-- The attempts of one key within one window (src/lib/server/rate-limit.ts).
use mathlib.Core.Path.{subst}
use uppity.Base.{
  min, count_where, holds, ℕ, ◌+◌, ◌-◌, ◌≤◌, ◌<◌, ◌≡◌, refl, true, false, Option, none, some, List,
  [], ◌∷◌, arith, All, Bool-cases, inl, inr, ltb, leb, ◌==◌, ==_iff, ==_refl, lt→ltb, sym,
  first_where, update_where, length, first_where-update_hit, first_where-update_miss,
  first_where-delete_other, first_where-holds,
}
use uppity.RateLimit.{
  Attempts, RateLimiter, window_of, is_expired, sweep, sweep_threshold, count_up, open_window,
  attempt_found, attempt, let_through,
}

module _ (limiter : RateLimiter) (key : ℕ) where
  -- The open window of a key stays through an attempt of another.
  open_window-other :
      (k now : ℕ) (ws : List Attempts) (w : Attempts)
      → (k == key) ≡ false
      → now < w.reset_at
      → window_of key ws ≡ some w
      → window_of key (open_window limiter k now ws) ≡ some w
  unfolding window_of first_where
  open_window-other k now ws w other live found =
      let mine : w.key ≡ key =
        (==_iff w.key key).0 (first_where-holds (λ v. v.key == key) ws found) in
      let not_k : (w.key == k) ≡ false = ground (arith, mine, ==_iff w.key k, ==_iff k key) in
      let swept : first_where (λ v. v.key == key) (sweep now ws) ≡ some w =
        elim (Bool-cases (leb sweep_threshold (length ws))) [
          | inl t ↦ rw t (
              first_where-delete_other (λ v. v.key == key) (is_expired now) ws found (ground arith))
          | inr t ↦ rw t found
        ] in
      simp other
        (first_where-delete_other (λ v. v.key == key) (λ v. v.key == k) (sweep now ws) swept not_k)

  attempt-other :
      (k now : ℕ) (ws : List Attempts) (w : Attempts)
      → (k == key) ≡ false
      → now < w.reset_at
      → window_of key ws ≡ some w
      → window_of key (attempt limiter k now ws).0 ≡ some w
  unfolding attempt window_of
  attempt-other k now ws w other live found = go (window_of k ws)
    where
      opened : window_of key (open_window limiter k now ws) ≡ some w
      opened = open_window-other k now ws w other live found

      mine : w.key ≡ key
      mine = (==_iff w.key key).0 (first_where-holds (λ v. v.key == key) ws found)

      not_k : (w.key == k) ≡ false
      not_k = ground (arith, mine, ==_iff w.key k, ==_iff k key)

      go : (o : Option Attempts) → window_of key (attempt_found limiter k now ws o).0 ≡ some w
      go none = opened
      go (some v) = elim (Bool-cases (ltb now v.reset_at)) [
        | inl t ↦ rw t (
            first_where-update_miss (λ x. x.key == key) (λ x. x.key == k) count_up ws (λ x. refl)
              found not_k)
        | inr t ↦ rw t opened
      ]

  -- An attempt of the key in its open window.
  attempt-own :
      (now : ℕ) (ws : List Attempts) (w : Attempts)
      → now < w.reset_at
      → window_of key ws ≡ some w
      → attempt limiter key now ws
        ≡ (update_where (λ v. v.key == key) count_up ws, leb (w.count + 1) limiter.max)
  unfolding attempt
  attempt-own now ws w live found =
      let t : ltb now w.reset_at ≡ true = lt→ltb now w.reset_at live in simp (found, t) refl

  -- While the key's window is open, what is left in it is let through, and no more.
  open-exact :
      (rest : List (ℕ × ℕ)) (ws : List Attempts) (w : Attempts)
      → window_of key ws ≡ some w
      → All (λ a. a.1 < w.reset_at) rest
      → let_through limiter key rest ws
        ≡ min (count_where (λ a. a.0 == key) rest) (limiter.max - w.count)
  unfolding let_through window_of count_where
  open-exact [] ws w found h = omega arith
  open-exact ((k, now) ∷ rest) ws w found h = elim (Bool-cases (k == key)) [
    | inl same ↦
        let counted = first_where-update_hit (λ v. v.key == key) count_up ws (λ v. refl) found in
        let later =
          open-exact rest (update_where (λ v. v.key == key) count_up ws) (count_up w) counted h.1 in
        subst
          (λ i.
            let_through limiter key ((i, now) ∷ rest) ws
            ≡ min (count_where (λ a. a.0 == key) ((i, now) ∷ rest)) (limiter.max - w.count))
          (sym ((==_iff k key).0 same))
          (elim (Bool-cases (leb (w.count + 1) limiter.max)) [
            | inl t ↦
                simp (==_refl key, attempt-own now ws w h.0 found, t) (ground (arith, later, t))
            | inr t ↦
                simp (==_refl key, attempt-own now ws w h.0 found, t) (ground (arith, later, t))
          ])
    | inr other ↦ simp other (open-exact rest _ w (attempt-other k now ws w other h.0 found) h.1)
  ]

  -- An attempt of the key that finds no window, or one that has ended.
  attempt-opens :
      (now : ℕ) (ws : List Attempts)
      → holds (λ (w : Attempts). ltb now w.reset_at) (window_of key ws) ≡ false
      → attempt limiter key now ws ≡ (open_window limiter key now ws, true)
  unfolding attempt
  attempt-opens now ws h = go (window_of key ws) h
    where
      go :
          (o : Option Attempts)
          → holds (λ w. ltb now w.reset_at) o ≡ false
          → attempt_found limiter key now ws o ≡ (open_window limiter key now ws, true)
      go none e = refl
      go (some w) e = rw e refl

-- From the attempt that opens a window for a key, where the key had none or its last one has ended,
-- until the window ends, as many attempts of the key are let through as there are, up to `max`, where `max` is at least one, whatever the attempts of other keys are.
pub attempt-exact :
    (limiter : RateLimiter) (key now : ℕ) (rest : List (ℕ × ℕ)) (ws : List Attempts)
    → 1 ≤ limiter.max
    → holds (λ (w : Attempts). ltb now w.reset_at) (window_of key ws) ≡ false
    → All (λ a. a.1 < now + limiter.window_ms) rest
    → let_through limiter key ((key, now) ∷ rest) ws
      ≡ min (count_where (λ a. a.0 == key) ((key, now) ∷ rest)) limiter.max
unfolding let_through first_where window_of count_where
attempt-exact limiter key now rest ws some_allowed new h =
    let opened : Attempts = record { key = key; count = 1; reset_at = now + limiter.window_ms } in
    let found : window_of key (open_window limiter key now ws) ≡ some opened =
      simp (==_refl key) refl in
    let later = open-exact limiter key rest (open_window limiter key now ws) opened found h in
    simp (==_refl key, attempt-opens limiter key now ws new) (omega (arith, later, some_allowed))
