-- ===== src/Workflow/Steps/Laws.antt =====
-- The plan of app/workflow/steps/integration.ts.
use sso_requests.Base.{◌≡◌, ◌||◌, some, arith, if◌then◌else◌, count, All, Bool-cases}
use sso_requests.Workflow.Types.{
  Environment, WorkflowType, StepName, is_step, is_delete, is_restore, Payload,
}
use sso_requests.Workflow.Steps.{has_environment, ordered_environments, build_steps, definition_of}

-- Every step of a plan is found again under its name, as the step that the plan has.
pub build_steps-definition_of :
    (type : WorkflowType) (p : Payload)
    → All (λ s. definition_of type p s.name ≡ some s) (build_steps type p)
unfolding build_steps definition_of ordered_environments
build_steps-definition_of type p = ground (
  arith,
  Bool-cases (is_delete type),
  Bool-cases (is_restore type),
  Bool-cases (has_environment p.environments Environment.dev),
  Bool-cases (has_environment p.environments Environment.test),
  Bool-cases (has_environment p.environments Environment.prod),
)

-- An environment has one step in the plan if the payload names it, or the workflow is a delete, and
-- otherwise none.
pub build_steps_environments :
    (type : WorkflowType) (p : Payload) (e : Environment)
    → (count (λ s. is_step s.name (StepName.apply_environment e)) (build_steps type p)
        ≡ (if is_delete type || has_environment p.environments e then 1 else 0))
unfolding build_steps ordered_environments
build_steps_environments type p Environment.dev = ground arith
build_steps_environments type p Environment.test = ground arith
build_steps_environments type p Environment.prod = ground arith
