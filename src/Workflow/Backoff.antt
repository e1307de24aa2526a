-- ===== src/Workflow/Backoff.antt =====
-- app/workflow/backoff.ts: the limits of the engine, which the environment may set, and the delay
-- before a retry. `randomInt` of `node:crypto` is an argument.
pub mod Laws
use sso_requests.Base.{ℕ, ◌≡◌, refl, ◌+◌, ◌-◌, ◌*◌, ◌^◌, ◌≤◌, ◌<◌, min, max, arith, Bool}

-- How workflows are executed once persisted (app/workflow/orchestrator.ts).
pub data WorkflowExecutionMode : Type 0 where
  background : WorkflowExecutionMode
  synchronous : WorkflowExecutionMode
  manual : WorkflowExecutionMode

-- The constants, and the environment's part in them.
pub record Config : Type 0 where
  pub max_step_attempts : ℕ
  pub claim_lease_seconds : ℕ
  pub base_delay_ms : ℕ
  pub max_delay_ms : ℕ
  pub in_process_retry_ceiling_ms : ℕ
  pub step_timeout_ms : ℕ
  pub mode : WorkflowExecutionMode
  pub worker : ℕ

-- What holds where the environment sets none of them; the worker is the process.
abbrev pub default_config : ℕ → Config
default_config worker = record {
  max_step_attempts = 5;
  claim_lease_seconds = 1000;
  base_delay_ms = 2000;
  max_delay_ms = 120000;
  in_process_retry_ceiling_ms = 60000;
  step_timeout_ms = 300000;
  mode = WorkflowExecutionMode.background;
  worker = worker;
}

-- The exclusive bound of the jitter: `Math.max(0, attempt - 1)` is subtraction on ℕ.
unfoldable pub delay_bound : Config → ℕ → ℕ
delay_bound c attempt = max 1 (min c.max_delay_ms (c.base_delay_ms * 2 ^ (attempt - 1)))

unfoldable pub backoff_delay_ms : Config → (ℕ → ℕ) → ℕ → ℕ
backoff_delay_ms c random_int attempt = random_int (delay_bound c attempt)

-- `nextRunAfter`: the time of the next run, and the delay.
unfoldable pub next_run_after : Config → (ℕ → ℕ) → ℕ → ℕ → ℕ × ℕ
next_run_after c random_int now attempt =
    let delay = backoff_delay_ms c random_int attempt in (now + delay, delay)
