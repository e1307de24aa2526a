-- ===== src/Workflow/Store/Create.antt =====
-- app/workflow/store.ts: `createWorkflow`, with the race that it settles, and
-- `supersedeActiveWorkflows`.
pub mod Laws
pub mod Current
use sso_requests.Base.{
  ℕ, suc, ◌+◌, Bool, true, false, ◌&&◌, ◌||◌, not, List, [], ◌∷◌, ◌++◌, Option, none, some, String,
  nat_eq, ◌==◌, if◌then◌else◌, find, filter, length, update_where, text_append,
}
use sso_requests.Workflow.Types.{
  over_null, WorkflowState, StepState, WorkflowType, ActionType, Payload, WorkflowContext, Workflow,
  WorkflowStep, StepName, Db, is_active, is_queued,
}
use sso_requests.Workflow.Audit.{record_superseded}
use sso_requests.Workflow.Store.Tables.{
  by_id, claimable_of, queued_of, active_of, violates, get_active_workflow, update_workflows,
  of_workflow,
}

pub record StepPlan : Type 0 where
  pub name : StepName
  pub label : String

-- `CreateWorkflowParams`; the only caller passes both ids.
pub record CreateWorkflowParams : Type 0 where
  pub id : ℕ
  pub correlation_id : String
  pub request_id : ℕ
  pub type : WorkflowType
  pub action : ActionType
  pub payload : Payload
  pub context : WorkflowContext
  pub steps : List StepPlan

pub record CreateWorkflowResult : Type 0 where
  pub workflow : Workflow
  pub created : Bool
  pub queued : Bool

-- What a transaction throws.
pub data StoreError : Type 0 where
  unique_constraint : StoreError
  audit_write : StoreError
  in_flight : StoreError

pub data Stored (A : Type 0) : Type 0 where
  stored : A → Db → Stored A
  failed : StoreError → Stored A

-- The rows of a new plan; each takes an unused id.
unfoldable pub plan_rows : ℕ → List StepPlan → ℕ → ℕ → List WorkflowStep
plan_rows workflow_id [] sequence next_id = []
plan_rows workflow_id (p ∷ ps) sequence next_id =
    record {
      id = next_id;
      workflow_id = workflow_id;
      name = p.name;
      label = p.label;
      sequence = sequence;
      state = StepState.pending;
      attempts = 0;
      last_error = none;
      result = none;
      started_at = none;
      completed_at = none;
    }
    ∷ plan_rows workflow_id ps (suc sequence) (suc next_id)

-- `writeStepPlan`.
unfoldable pub write_step_plan : ℕ → List StepPlan → Db → Db
write_step_plan workflow_id plan d = record d {
  steps =
      filter (λ s. not (of_workflow workflow_id s)) d.steps
      ++ plan_rows workflow_id plan 0 d.next_id;
  next_id = d.next_id + length plan;
}

-- The row that an insert makes of `fields` and the defaults of the model.
unfoldable pub new_workflow : CreateWorkflowParams → WorkflowState → ℕ → Workflow
new_workflow p state now = record {
  id = p.id;
  correlation_id = p.correlation_id;
  request_id = p.request_id;
  type = p.type;
  action = p.action;
  state = state;
  payload = p.payload;
  context = p.context;
  attempts = 0;
  current_step = none;
  last_error = none;
  claimed_by = none;
  claimed_at = none;
  run_after = now;
  started_at = none;
  completed_at = none;
  created_at = now;
  updated_at = now;
}

-- `queued.update(fields)`.
unfoldable pub overwrite : CreateWorkflowParams → Bool → ℕ → Workflow → Workflow
overwrite p omit now w = record w {
  correlation_id = p.correlation_id;
  request_id = p.request_id;
  type = p.type;
  action = p.action;
  payload = p.payload;
  context = p.context;
  last_error = over_null omit w.last_error;
  run_after = now;
}

-- `models.requestWorkflow.create` and the plan, under the unique indexes.
unfoldable pub insert_workflow :
    CreateWorkflowParams → WorkflowState → Bool → Db → Stored CreateWorkflowResult
insert_workflow p state queued d =
    let w = new_workflow p state d.now in
    if violates w (w ∷ d.workflows)
    then failed unique_constraint
    else stored (record { workflow = w; created = true; queued = queued })
        (write_step_plan p.id p.steps (record d { workflows = w ∷ d.workflows }))

-- The branch of a submission that finds a queued one: `recordSuperseded`, the update, the plan.
unfoldable pub replace_queued :
    (Db → Bool) → CreateWorkflowParams → Workflow → Db → Stored CreateWorkflowResult
replace_queued fails p w d =
    elim (record_superseded fails (w ∷ []) (some w.id) p.correlation_id d) [
      | none ↦ failed audit_write
      | some d' ↦
          stored
            (record { workflow = overwrite p d.omit_null d.now w; created = true; queued = true })
            (write_step_plan w.id p.steps
              (update_workflows (by_id w.id) (overwrite p d.omit_null d.now) d'))
    ]

-- `insert`, the body of the transaction. Its two reads see `seen`: the table, or an older state of it
-- that a concurrent submission has since changed.
unfoldable pub submit :
    (Db → Bool) → List Workflow → CreateWorkflowParams → Db → Stored CreateWorkflowResult
submit fails seen p d = elim (find (claimable_of p.request_id) seen) [
  | none ↦ insert_workflow p WorkflowState.pending false d
  | some w ↦ elim (find (queued_of p.request_id) seen) [
    | none ↦ insert_workflow p WorkflowState.queued true d
    | some q ↦ replace_queued fails p q d
  ]
]

-- The `catch` of `createWorkflow`: the loser of a race adopts the winner's workflow.
unfoldable pub adopt_winner : ℕ → Db → Stored CreateWorkflowResult → Stored CreateWorkflowResult
adopt_winner r d (stored result d') = stored result d'
adopt_winner r d (failed unique_constraint) = elim (get_active_workflow r d) [
  | none ↦ failed unique_constraint
  | some w ↦ stored (record { workflow = w; created = false; queued = is_queued w.state }) d
]
adopt_winner r d (failed e) = failed e

-- `createWorkflow`.
unfoldable pub create_workflow :
    (Db → Bool) → List Workflow → CreateWorkflowParams → Db → Stored CreateWorkflowResult
unfolding submit adopt_winner
create_workflow fails seen p d = adopt_winner p.request_id d (submit fails seen p d)

-- What `supersedeActiveWorkflows` writes to a row.
unfoldable pub set_superseded : Bool → ℕ → String → Workflow → Workflow
set_superseded omit now by_operation w = record w {
  state = WorkflowState.superseded;
  last_error = some (text_append "superseded by delete workflow " by_operation);
  claimed_by = over_null omit w.claimed_by;
  claimed_at = over_null omit w.claimed_at;
  completed_at = some now;
}

-- `supersedeActiveWorkflows`: the state change and its events, in one transaction.
unfoldable pub supersede_active_workflows : (Db → Bool) → ℕ → Option ℕ → String → Db → Stored ℕ
supersede_active_workflows fails r by_workflow by_operation d =
    let affected = filter (active_of r) d.workflows in
    elim (record_superseded fails affected by_workflow by_operation
      (update_workflows (active_of r) (set_superseded d.omit_null d.now by_operation) d)) [
        | none ↦ failed audit_write
        | some d' ↦ stored (length affected) d'
      ]
