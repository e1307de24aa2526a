-- ===== src/Workflow/Enqueue/Laws.antt =====
-- A delete against what is in flight (app/workflow/request-workflow.ts, app/workflow/store.ts).
use sso_requests.Base.{
  ap, ◌∙◌, ℕ, suc, ◌≡◌, refl, Bool, true, false, List, [], ◌∷◌, Option, none, some, String, arith,
  count, count-update_where_none, length, length-filter, Option-cases, inl, inr, find, nat_beq_refl,
  filter, nat_eq, count_mono,
}
use sso_requests.Workflow.Types.{WorkflowType, WorkflowState, Workflow, Payload, Db, Outcome}
use sso_requests.Workflow.Audit.{
  record_superseded, record_workflow_event, superseded_by, audit_action_for,
}
use sso_requests.Workflow.Audit.Laws.{record_superseded-IsEventsOnly}
use sso_requests.Workflow.Store.Tables.{
  get_workflow, of_workflow, active_of, claimable_of, queued_of, update_workflows,
}
use sso_requests.Workflow.Store.Create.{
  CreateWorkflowParams, stored, create_workflow, submit, adopt_winner, insert_workflow,
  new_workflow, set_superseded, supersede_active_workflows, write_step_plan,
}
use sso_requests.Workflow.Store.Create.Laws.{insert_workflow_fits}
use sso_requests.Workflow.Steps.{WorkflowStepDefinition, build_steps, step_plan}
use sso_requests.Workflow.Store.Create.Current.{count-write_step_plan}
use sso_requests.Workflow.Enqueue.{
  EnqueueOptions, EnqueueResult, resolve_workflow_type, create_params, enqueue_result,
  supersede_for_delete, create_after, enqueue_request_workflow,
}

-- Superseding leaves the request no active workflow and touches no step; it counts what it changed.
pub supersede_active_workflows_lem :
    (fails : Db → Bool) (r : ℕ) (i : Option ℕ) (op : String) (d d' : Db) (n : ℕ)
    → supersede_active_workflows fails r i op d ≡ stored n d'
    → (count (active_of r) d'.workflows ≡ 0)
      × (n ≡ count (active_of r) d.workflows)
      × (d'.steps ≡ d.steps)
unfolding supersede_active_workflows update_workflows set_superseded
supersede_active_workflows_lem fails r i op d d' n h =
    let affected = filter (active_of r) d.workflows in
    let d₁ = update_workflows (active_of r) (set_superseded d.omit_null d.now op) d in
    elim (Option-cases (record_superseded fails affected i op d₁)) [
      | inl stopped ↦ absurd (ground (arith, stopped))
      | inr (d₂, written) ↦
          let e = record_superseded-IsEventsOnly fails affected i op d₁ d₂ written in
          let none_left =
            count-update_where_none (active_of r) (active_of r)
              (λ w. record (set_superseded d.omit_null d.now op w) { updated_at = d.now })
              (λ w q. ground arith) (λ w q. q) d.workflows in
          ground (arith, written, e, none_left, length-filter (active_of r) d.workflows)
    ]

-- Where events can be written, the events of superseded workflows are.
pub record_superseded_total :
    (fails : Db → Bool)
    → ((d : Db) → fails d ≡ false)
    → (ws : List Workflow) (i : Option ℕ) (op : String) (d : Db)
    → (d' : Db) × (record_superseded fails ws i op d ≡ some d')
unfolding record_superseded record_workflow_event
record_superseded_total fails works [] i op d = (d, refl)
record_superseded_total fails works (w ∷ ws) i op d =
    elim (Option-cases
      (record_workflow_event fails w false Outcome.superseded (superseded_by i op) d)) [
        | inl stopped ↦ absurd (ground (arith, stopped, works d))
        | inr (d₁, written) ↦
            let (d₂, rest) = record_superseded_total fails works ws i op d₁ in
            (d₂, rw (written, record_superseded) rest)
      ]

supersede_active_workflows_total :
    (fails : Db → Bool)
    → ((d : Db) → fails d ≡ false)
    → (r : ℕ) (i : Option ℕ) (op : String) (d : Db)
    → (n : ℕ) × (d' : Db) × (supersede_active_workflows fails r i op d ≡ stored n d')
unfolding supersede_active_workflows
supersede_active_workflows_total fails works r i op d =
    let affected = filter (active_of r) d.workflows in
    let (d', written) =
      record_superseded_total fails works affected i op
        (update_workflows (active_of r) (set_superseded d.omit_null d.now op) d) in
    (length affected, d', rw (written, supersede_active_workflows) refl)

find_absent : {A : Type 0} → (q : A → Bool) (xs : List A) → count q xs ≡ 0 → find q xs ≡ none
find_absent q [] h = refl
find_absent q (x ∷ xs) h = ground (arith, h, find_absent q xs)

-- With nothing active, a submission is stored as a PENDING workflow of its own.
create_workflow_idle :
    (fails : Db → Bool) (p : CreateWorkflowParams) (d : Db)
    → count (active_of p.request_id) d.workflows ≡ 0
    → create_workflow fails d.workflows p d
      ≡ stored
          (record {
            workflow = new_workflow p WorkflowState.pending d.now;
            created = true;
            queued = false;
          })
          (write_step_plan p.id p.steps
            (record d { workflows = new_workflow p WorkflowState.pending d.now ∷ d.workflows }))
unfolding create_workflow submit adopt_winner insert_workflow new_workflow
create_workflow_idle fails p d h =
    let idle =
      count_mono (claimable_of p.request_id) (active_of p.request_id) (λ w q. ground arith)
        d.workflows in
    let parked =
      count_mono (queued_of p.request_id) (active_of p.request_id) (λ w q. ground arith)
        d.workflows in
    ground (
      arith,
      find_absent (claimable_of p.request_id) d.workflows (omega (arith, idle, h)),
      insert_workflow_fits p WorkflowState.pending false d (λ t. omega (arith, idle, h))
          (λ t. omega (arith, parked, h)),
    )

pub length-step_plan :
    (steps : List WorkflowStepDefinition) → length (step_plan steps) ≡ length steps
length-step_plan [] = refl
length-step_plan (s ∷ steps) = ground (arith, length-step_plan steps)

-- The workflow of a submission, as the tables hold it.
pub record IsWorkflowOf (type : WorkflowType) (p : Payload) (operation : String) (r : EnqueueResult)
    (d : Db) : Type 0 where
  pub row : Workflow
  pub is_stored : get_workflow r.workflow_id d ≡ some row
  pub own_type : row.type ≡ type
  pub own_payload : row.payload ≡ p
  pub own_operation : row.correlation_id ≡ operation
  pub own_state : row.state ≡ r.state
  pub planned : count (of_workflow r.workflow_id) d.steps ≡ length (build_steps type p)

-- A delete waits for nothing: whatever is in flight for the integration, the delete is stored as a
-- PENDING workflow of its own, created and not queued, under the next unused id, and the
-- integration has one active workflow afterwards. The tables hold its row, which is a delete's and has the
-- payload and the operation, and a step for each one of its plan. (The payload is archived, the transaction reads
-- the table as it is, and events can be written.)
pub enqueue_request_workflow_delete :
    (fails : Db → Bool) (p : Payload) (options : EnqueueOptions) (d : Db)
    → ((d' : Db) → fails d' ≡ false)
    → p.archived ≡ true
    → (r : EnqueueResult) × (d' : Db) × (enqueue_request_workflow fails Db.workflows p options d
        ≡ stored r d')
      × (r.workflow_id ≡ d.next_id)
      × (r.state ≡ WorkflowState.pending)
      × (r.created ≡ true)
      × (r.queued ≡ false)
      × (count (active_of p.id) d'.workflows ≡ 1)
      × IsWorkflowOf WorkflowType.integration_delete p options.correlation_id r d'
unfolding get_workflow enqueue_request_workflow create_params supersede_for_delete
    resolve_workflow_type create_after enqueue_result new_workflow write_step_plan
enqueue_request_workflow_delete fails p options d works archived =
    let params = create_params p options d in
    let (n, d₁, superseded) =
      supersede_active_workflows_total fails works p.id (some d.next_id) options.correlation_id
        (record d { next_id = suc d.next_id }) in
    let (none_left, counted, steps) =
      supersede_active_workflows_lem fails p.id (some d.next_id) options.correlation_id
        (record d { next_id = suc d.next_id }) d₁ n superseded in
    let accepted = create_workflow_idle fails params d₁ none_left in
    let w = new_workflow params WorkflowState.pending d₁.now in
    (
      record {
        workflow_id = d.next_id;
        correlation_id = options.correlation_id;
        state = WorkflowState.pending;
        created = true;
        queued = false;
        audit_action = audit_action_for params.type params.action p;
      },
      write_step_plan params.id params.steps (record d₁ { workflows = w ∷ d₁.workflows }),
      ground (arith, archived, superseded, accepted),
      refl,
      refl,
      refl,
      refl,
      ground (arith, none_left, nat_beq_refl p.id),
      record {
        row = w;
        is_stored = ground (arith, nat_beq_refl d.next_id);
        own_type = rw (archived, resolve_workflow_type) refl;
        own_payload = refl;
        own_operation = refl;
        own_state = refl;
        planned =
            count-write_step_plan params.id params.steps
              (record d₁ { workflows = w ∷ d₁.workflows })
            ∙ (length-step_plan (build_steps params.type p)
                ∙ ap (λ type. length (build_steps type p))
                    (rw (archived, resolve_workflow_type) refl));
      },
    )
