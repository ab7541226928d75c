-- ===== src/Checks/Attempts.antt =====
-- The probes of one check (src/worker/monitor/check.ts).
use mathlib.Core.Path.{subst}
use uppity.Base.{
  ℕ, zero, suc, ◌+◌, ◌≤◌, ◌≡◌, refl, true, false, min, arith, Bool-cases, inl, inr, ◌⊎◌, Bool, ◌&&◌,
}
use uppity.Settings.{max_retries}
use uppity.Tables.{Monitor, is_down}
use uppity.Probes.{CheckResult}
use uppity.Checks.{probe_again, perform_probe_with_retries}

-- The first `n` probes are all down.
unfoldable pub are_down : (ℕ → CheckResult) → ℕ → Bool
are_down probe zero = true
are_down probe (suc n) = is_down (probe n).status && are_down probe n

-- The result is the last of `n` probes, all the others are down, and it is down itself only if there
-- are as many probes as allowed.
pub record IsAttempted (probe : ℕ → CheckResult) (most : ℕ) (run : CheckResult × ℕ) : Type 0 where
  pub index : ℕ
  pub made : run.1 ≡ index + 1
  pub most_made : run.1 ≤ most
  pub last : run.0 ≡ probe index
  pub others : are_down probe index ≡ true
  pub stops : (is_down run.0.status ≡ false) ⊎ (run.1 ≡ most)

probe_again-IsAttempted :
    (probe : ℕ → CheckResult) (left n : ℕ)
    → are_down probe n ≡ true
    → IsAttempted probe (suc n + left) (probe_again probe left (suc n) (probe n))
unfolding probe_again are_down
probe_again-IsAttempted probe zero n h = record {
  index = n;
  made = omega arith;
  most_made = omega arith;
  last = refl;
  others = h;
  stops = inr (omega arith);
}
probe_again-IsAttempted probe (suc left) n h = elim (Bool-cases (is_down (probe n).status)) [
  | inl e ↦
      let rest = probe_again-IsAttempted probe left (suc n) (ground arith) in
      let shifted : suc (suc n) + left ≡ suc n + suc left = omega arith in
      rw e (
        subst (λ k. IsAttempted probe k (probe_again probe left (suc (suc n)) (probe (suc n))))
          shifted rest)
  | inr e ↦ rw e (record {
    index = n;
    made = omega arith;
    most_made = omega arith;
    last = refl;
    others = h;
    stops = inl e;
  })
]

-- A check probes at least once and at most once more than the monitor's retries, of which it uses
-- ten at most. It records the last probe; every probe before that one was down, and it is down
-- itself only if the check has used all its probes.
pub perform_probe_with_retries-IsAttempted :
    (probe : ℕ → CheckResult) (m : Monitor)
    → IsAttempted probe (min m.retries 10 + 1) (perform_probe_with_retries probe m)
unfolding perform_probe_with_retries are_down
perform_probe_with_retries-IsAttempted probe m =
    let bound : 1 + min m.retries max_retries ≡ min m.retries 10 + 1 = omega arith in
    subst (λ k. IsAttempted probe k (probe_again probe (min m.retries max_retries) 1 (probe 0)))
      bound (probe_again-IsAttempted probe (min m.retries max_retries) 0 refl)
