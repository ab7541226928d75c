-- ===== src/Schedule/Backoff.antt =====
-- The wait after a failed check, in `recordCheckFailure` (src/worker/monitor/schedule.ts).
use native.Mathlib.Nat.{pow-suc, mul_assoc}
use uppity.Base.{ℕ, suc, ◌-◌, ◌*◌, ◌^◌, ◌≤◌, ◌≡◌, min, arith}
use uppity.Settings.{Settings}
use uppity.Schedule.{backoff_ms}

grown-min :
    (wait cap factor : ℕ) → 1 ≤ factor → min (wait * factor) cap ≡ min (min wait cap * factor) cap
grown-min wait cap factor h = grind arith

-- With a multiplier of at least one, each wait after the first is the multiplier times the last,
-- up to the cap, which no wait exceeds.
pub backoff_ms-suc :
    (cfg : Settings) (n : ℕ)
    → 1 ≤ cfg.multiplier
    → (backoff_ms cfg (suc (suc n))
        ≡ min (backoff_ms cfg (suc n) * cfg.multiplier) cfg.max_backoff_ms)
      × (backoff_ms cfg (suc n) ≤ cfg.max_backoff_ms)
unfolding backoff_ms
backoff_ms-suc cfg n h =
    let one_less : suc (suc n) - 1 ≡ suc n = omega arith in
    let this_one : suc n - 1 ≡ n = omega arith in
    (
      rw (one_less, this_one, pow-suc, ← mul_assoc)
          (grown-min (cfg.initial_backoff_ms * cfg.multiplier ^ n) cfg.max_backoff_ms cfg.multiplier
            h),
      omega arith,
    )
