-- ===== src/Examples/Running.antt =====
-- Runs of a workflow at concrete inputs.
use sso_requests.Base.{◌≡◌, refl, ◌<◌, ◌+◌, ◌-◌, true, [], ◌∷◌, none, some, arith, count, length}
use sso_requests.Workflow.Types.{Environment, WorkflowState, WorkflowType, StepName, is_step, Db}
use sso_requests.Workflow.Backoff.{default_config, next_run_after}
use sso_requests.Workflow.Backoff.Laws.{next_run_after_bounds}
use sso_requests.Workflow.Audit.Laws.{IsEventsOnly}
use sso_requests.Workflow.Store.Tables.{get_workflow_steps}
use sso_requests.Workflow.Steps.{build_steps}
use sso_requests.Workflow.Steps.Laws.{build_steps_environments}
use sso_requests.Workflow.Orchestrator.{drive, iterate, fail_workflow, start_workflow}
use sso_requests.Workflow.Orchestrator.Termination.{drive-iterate}
use sso_requests.Workflow.Orchestrator.Settlement.{
  IsDeadLettered, fail_workflow_won, fail_workflow_lost, start_workflow_superseded,
}
use sso_requests.Examples.Fixtures.{workflow, tables, payload, effects}

abbrev busy : Db
busy = tables (workflow 1 WorkflowState.running (some 150) ∷ [])

-- A delete, the workflow 2, has superseded the workflow 1.
abbrev lost : Db
lost =
    tables (workflow 2 WorkflowState.pending none ∷ workflow 1 WorkflowState.superseded none ∷ [])

drive-iterate_example :
    ((iterate
        (default_config 4)
        effects
        (length (get_workflow_steps 1 busy) + 1)
        (workflow 1 WorkflowState.running (some 150))
        busy).0
      ≡ true)
    × (drive (default_config 4) effects (workflow 1 WorkflowState.running (some 150)) busy ≡ (
      (iterate
          (default_config 4)
          effects
          (length (get_workflow_steps 1 busy) + 1)
          (workflow 1 WorkflowState.running (some 150))
          busy).1.state,
      (iterate
          (default_config 4)
          effects
          (length (get_workflow_steps 1 busy) + 1)
          (workflow 1 WorkflowState.running (some 150))
          busy).2,
    ))
drive-iterate_example =
    drive-iterate (default_config 4) effects (workflow 1 WorkflowState.running (some 150)) busy
      (λ d. refl) (λ j. ground arith)

fail_workflow_won_example :
    ((fail_workflow
        (default_config 4)
        effects
        (workflow 1 WorkflowState.running (some 150))
        StepName.plan
        "why"
        "what"
        busy).0.state
      ≡ WorkflowState.failed)
    × IsDeadLettered true
        (workflow 1 WorkflowState.running (some 150))
        StepName.plan
        "why"
        "what"
        busy
        (fail_workflow
          (default_config 4)
          effects
          (workflow 1 WorkflowState.running (some 150))
          StepName.plan
          "why"
          "what"
          busy).1
fail_workflow_won_example =
    fail_workflow_won (default_config 4) effects true (workflow 1 WorkflowState.running (some 150))
      StepName.plan "why" "what" busy (λ e. refl) (omega arith)

fail_workflow_lost_example :
    ((fail_workflow
        (default_config 4)
        effects
        (workflow 1 WorkflowState.running (some 150))
        StepName.plan
        "why"
        "what"
        lost).0
      ≡ workflow 1 WorkflowState.running (some 150))
    × IsEventsOnly lost
        (fail_workflow
          (default_config 4)
          effects
          (workflow 1 WorkflowState.running (some 150))
          StepName.plan
          "why"
          "what"
          lost).1
fail_workflow_lost_example =
    fail_workflow_lost (default_config 4) effects (workflow 1 WorkflowState.running (some 150))
      StepName.plan "why" "what" lost refl

start_workflow_superseded_example :
    start_workflow (workflow 1 WorkflowState.pending (some 150)) lost ≡ none
start_workflow_superseded_example =
    start_workflow_superseded (workflow 1 WorkflowState.pending (some 150)) lost refl (omega arith)
      (omega arith)

build_steps_environments_example :
    count
      (λ s. is_step s.name (StepName.apply_environment Environment.prod))
      (build_steps WorkflowType.integration_delete payload)
    ≡ 1
build_steps_environments_example =
    build_steps_environments WorkflowType.integration_delete payload Environment.prod

next_run_after_bounds_example :
    ((next_run_after (default_config 4) (λ n. n - 1) 200 3).0
      ≡ 200 + (next_run_after (default_config 4) (λ n. n - 1) 200 3).1)
    × ((next_run_after (default_config 4) (λ n. n - 1) 200 3).1 < 8000)
    × ((next_run_after (default_config 4) (λ n. n - 1) 200 3).1 < 120000)
next_run_after_bounds_example =
    next_run_after_bounds (default_config 4) (λ n. n - 1) 200 3 (λ n h. omega (arith, h))
