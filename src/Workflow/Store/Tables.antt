-- ===== src/Workflow/Store/Tables.antt =====
-- The rows that the statements of app/workflow/store.ts select, its reads, and the two partial
-- unique indexes of the table (db/src/migrations).
use sso_requests.Base.{
  ℕ, ◌≤◌, Bool, false, ◌&&◌, ◌||◌, not, List, ◌∷◌, Option, none, some, nat_eq, ◌==◌, String, count,
  find, filter, update_where, order_by, head?, leb, ltb,
}
use sso_requests.Workflow.Types.{
  WorkflowState, Workflow, WorkflowStep, Db, is_active, is_claimable, is_queued, Failure, StepName,
}

abbrev pub by_id : ℕ → Workflow → Bool
by_id i w = w.id == i

abbrev pub claimable_of : ℕ → Workflow → Bool
claimable_of r w = w.request_id == r && is_claimable w.state

abbrev pub queued_of : ℕ → Workflow → Bool
queued_of r w = w.request_id == r && is_queued w.state

abbrev pub active_of : ℕ → Workflow → Bool
active_of r w = w.request_id == r && is_active w.state

-- The primary key of the table.
abbrev pub HaveOwnIds : List Workflow → Type 0
HaveOwnIds ws = (i : ℕ) → count (by_id i) ws ≤ 1

-- The unique indexes `request_workflows_one_active_per_request_idx` and
-- `request_workflows_one_queued_per_request_idx`: no two rows of a request are claimable, and no two
-- are queued.
pub record IsUnique (ws : List Workflow) : Type 0 where
  pub claimable : (r : ℕ) → count (claimable_of r) ws ≤ 1
  pub queued : (r : ℕ) → count (queued_of r) ws ≤ 1

-- An index refuses a table in which the row `w` has company.
abbrev pub violates : Workflow → List Workflow → Bool
violates w ws =
    (is_claimable w.state && ltb 1 (count (claimable_of w.request_id) ws))
    || (is_queued w.state && ltb 1 (count (queued_of w.request_id) ws))

-- `getWorkflow`.
unfoldable pub get_workflow : ℕ → Db → Option Workflow
get_workflow i d = find (by_id i) d.workflows

-- `getWorkflowState`.
unfoldable pub get_workflow_state : ℕ → Db → Option WorkflowState
get_workflow_state i d = elim (find (by_id i) d.workflows) [ none ↦ none | some w ↦ some w.state ]

abbrev pub of_workflow : ℕ → WorkflowStep → Bool
of_workflow i s = s.workflow_id == i

-- `getWorkflowSteps`.
unfoldable pub get_workflow_steps : ℕ → Db → List WorkflowStep
get_workflow_steps i d =
    order_by (λ s t. leb s.sequence t.sequence) (filter (of_workflow i) d.steps)

-- `workflowPriorityOrder`: the CASE of the state.
abbrev pub priority : WorkflowState → ℕ
priority WorkflowState.running = 0
priority WorkflowState.pending = 1
priority WorkflowState.queued = 2
priority _ = 3

abbrev pub by_priority : Workflow → Workflow → Bool
by_priority v w = leb (priority v.state) (priority w.state)

-- `getActiveWorkflowForRequest`.
unfoldable pub get_active_workflow : ℕ → Db → Option Workflow
get_active_workflow r d = head? (order_by by_priority (filter (active_of r) d.workflows))

-- `getLatestWorkflowForRequest`.
unfoldable pub get_latest_workflow : ℕ → Db → Option Workflow
get_latest_workflow r d = head? (
    order_by by_priority (
      order_by (λ v w. leb w.created_at v.created_at)
        (filter (λ w. w.request_id == r) d.workflows)))

-- `models.requestWorkflow.update(values, { where })`, which sets `updatedAt` too.
unfoldable pub update_workflows : (Workflow → Bool) → (Workflow → Workflow) → Db → Db
update_workflows p f d = record d {
  workflows = update_where p (λ w. let w' = f w in record w' { updated_at = d.now }) d.workflows;
}

-- `updateStep`.
unfoldable pub update_step : ℕ → (WorkflowStep → WorkflowStep) → Db → Db
update_step i f d = record d { steps = update_where (λ s. s.id == i) f d.steps }

-- `recordRequestWorkflowFailure`.
unfoldable pub record_failure : Workflow → Option StepName → String → String → Db → Db
record_failure w failed_step reason error d = record d {
  failures =
      record {
        request_workflow_id = w.id;
        request_id = w.request_id;
        correlation_id = w.correlation_id;
        failed_step = failed_step;
        reason = reason;
        error = error;
        acknowledged = false;
      }
      ∷ d.failures;
}

-- `countUnacknowledgedRequestWorkflowFailures`.
unfoldable pub count_unacknowledged_failures : Db → ℕ
count_unacknowledged_failures d = count (λ f. not (Failure.acknowledged f)) d.failures
