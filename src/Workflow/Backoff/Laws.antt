-- ===== src/Workflow/Backoff/Laws.antt =====
-- The bounds of a retry's delay (app/workflow/backoff.ts).
use sso_requests.Base.{ℕ, ◌≡◌, refl, ◌<◌, ◌+◌, ◌-◌, ◌*◌, ◌^◌, min, max, arith}
use sso_requests.Workflow.Backoff.{Config, delay_bound, backoff_delay_ms, next_run_after}

-- Where `randomInt(n)` is below `n`, as documented, a retry is never in the past, waits less than
-- the exponential of the attempt, and never as long as the ceiling (of at least a millisecond).
pub next_run_after_bounds :
    (c : Config) (random_int : ℕ → ℕ) (now attempt : ℕ)
    → ((n : ℕ) → 0 < n → random_int n < n)
    → let (run_after, delay) = next_run_after c random_int now attempt in
      (run_after ≡ now + delay)
      × (delay < max 1 (c.base_delay_ms * 2 ^ (attempt - 1)))
      × (delay < max 1 c.max_delay_ms)
unfolding next_run_after backoff_delay_ms delay_bound
next_run_after_bounds c random_int now attempt h =
    let power = c.base_delay_ms * 2 ^ (attempt - 1) in
    let below = h (max 1 (min c.max_delay_ms power)) (omega arith) in
    (refl, omega (arith, below), omega (arith, below))
