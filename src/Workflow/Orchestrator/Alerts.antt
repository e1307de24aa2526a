-- ===== src/Workflow/Orchestrator/Alerts.antt =====
-- The alerts to the operators (alertOps of app/workflow/orchestrator.ts).
use sso_requests.Base.{
  ℕ, ◌≡◌, refl, Bool, true, false, ◌∷◌, Option, if◌then◌else◌, Bool-cases, inl, inr,
}
use sso_requests.Workflow.Types.{StepName, Db}
use sso_requests.Workflow.Steps.{Effects}
use sso_requests.Workflow.Orchestrator.{alert_ops}

-- An alert leaves the tables alone.
pub record KeepsTables (d d' : Db) : Type 0 where
  pub workflows : d'.workflows ≡ d.workflows
  pub steps : d'.steps ≡ d.steps
  pub events : d'.events ≡ d.events
  pub failures : d'.failures ≡ d.failures
  pub statuses : d'.statuses ≡ d.statuses

pub alert_ops-KeepsTables :
    (fx : Effects) (i : ℕ) (step : Option StepName) (d : Db) → KeepsTables d (alert_ops fx i step d)
unfolding alert_ops
alert_ops-KeepsTables fx i step d = elim (Bool-cases (fx.alert_sent d)) [
  | inl sent ↦
      rw (sent, alert_ops)
        (record { workflows = refl; steps = refl; events = refl; failures = refl; statuses = refl })
  | inr lost ↦
      rw (lost, alert_ops)
        (record { workflows = refl; steps = refl; events = refl; failures = refl; statuses = refl })
]

pub alert_ops_lem :
    (fx : Effects) (i : ℕ) (step : Option StepName) (sent : Bool) (d : Db)
    → fx.alert_sent d ≡ sent
    → (alert_ops fx i step d).alerts ≡ (if sent then (i, step) ∷ d.alerts else d.alerts)
unfolding alert_ops
alert_ops_lem fx i step true d h = rw (h, alert_ops) refl
alert_ops_lem fx i step false d h = rw (h, alert_ops) refl
