-- ===== src/Workflow/Store/Create/Current.antt =====
-- A submission that sees the table as it is (`createWorkflow` of app/workflow/store.ts).
use sso_requests.Base.{
  ℕ, suc, ◌≡◌, refl, ◌≤◌, ◌<◌, Bool, true, false, not, List, [], ◌∷◌, some, arith, count,
  count-append, length, find, find-eq-none-count, any-find, find-eq-some_holds, find-update_where,
  if◌then◌else◌, nat_beq_refl, Bool-cases, inl, inr, ◌⊎◌, Option-cases, any, nat_eq, filter,
}
use sso_requests.Workflow.Types.{WorkflowState, Workflow, Db, is_queued}
use sso_requests.Workflow.Audit.{record_superseded}
use sso_requests.Workflow.Audit.Laws.{record_superseded-IsEventsOnly}
use sso_requests.Workflow.Store.Tables.{
  by_id, claimable_of, queued_of, IsUnique, HaveOwnIds, update_workflows, get_workflow, of_workflow,
}
use sso_requests.Workflow.Store.Create.{
  CreateWorkflowParams, CreateWorkflowResult, StepPlan, stored, failed, plan_rows, audit_write,
  write_step_plan, new_workflow, overwrite, replace_queued, create_workflow,
}
use sso_requests.Workflow.Store.Create.Laws.{insert_workflow_fits}

-- What a submission that sees the table as it is becomes.
pub record IsAccepted (p : CreateWorkflowParams) (busy : Bool) (r : CreateWorkflowResult)
    : Type 0 where
  pub created : r.created ≡ true
  pub queued : r.queued ≡ busy
  pub request : r.workflow.request_id ≡ p.request_id
  pub correlation : r.workflow.correlation_id ≡ p.correlation_id
  pub payload : r.workflow.payload ≡ p.payload
  pub state : r.workflow.state ≡ (if busy then WorkflowState.queued else WorkflowState.pending)
  pub type : r.workflow.type ≡ p.type

-- The result of a submission, as the tables hold it: its row, and a step for each one of its plan.
pub record IsStored (plan : ℕ) (r : CreateWorkflowResult) (d : Db) : Type 0 where
  pub stamp : ℕ
  pub row : get_workflow r.workflow.id d ≡ some (record r.workflow { updated_at = stamp })
  pub steps : count (of_workflow r.workflow.id) d.steps ≡ plan

count-plan_rows :
    (i : ℕ) (plan : List StepPlan) (sequence id : ℕ)
    → count (of_workflow i) (plan_rows i plan sequence id) ≡ length plan
unfolding plan_rows
count-plan_rows i [] sequence id = refl
count-plan_rows i (s ∷ plan) sequence id =
    ground (arith, count-plan_rows i plan (suc sequence) (suc id), nat_beq_refl i)

count-filter-not :
    {A : Type 0} (q : A → Bool) (xs : List A) → count q (filter (λ x. not (q x)) xs) ≡ 0
count-filter-not q [] = refl
count-filter-not q (x ∷ xs) = ground (arith, count-filter-not q xs)

pub count-write_step_plan :
    (i : ℕ) (plan : List StepPlan) (d : Db)
    → count (of_workflow i) (write_step_plan i plan d).steps ≡ length plan
unfolding write_step_plan
count-write_step_plan i plan d = omega (
  arith,
  count-append (of_workflow i) (filter (λ s. not (of_workflow i s)) d.steps)
      (plan_rows i plan 0 d.next_id),
  count-filter-not (of_workflow i) d.steps,
  count-plan_rows i plan 0 d.next_id,
)

count-find :
    (q : Workflow → Bool) (ws : List Workflow) {w : Workflow}
    → find q ws ≡ some w
    → 0 < count (by_id w.id) ws
count-find q [] h = cc
count-find q (v ∷ ws) {w} h = elim (Bool-cases (q v)) [
  | inl hit ↦ let e : v ≡ w = ground (arith, hit) in rw e (ground (arith, nat_beq_refl w.id))
  | inr miss ↦ ground (arith, count-find q ws {w = w} (ground (arith, miss)))
]

-- The row that a test finds is the row of its id.
find-own :
    (q : Workflow → Bool) (ws : List Workflow) {w : Workflow}
    → count (by_id w.id) ws ≤ 1
    → find q ws ≡ some w
    → find (by_id w.id) ws ≡ some w
find-own q [] own h = cc
find-own q (v ∷ ws) {w} own h = elim (Bool-cases (q v)) [
  | inl hit ↦ let e : v ≡ w = ground (arith, hit) in rw e (ground (arith, nat_beq_refl w.id))
  | inr miss ↦
      let later : find q ws ≡ some w = ground (arith, miss) in
      let there = count-find q ws {w = w} later in
      let apart : by_id w.id v ≡ false = ground (arith, own, there) in
      ground (arith, apart, find-own q ws {w = w} (ground (arith, own, apart)) later)
]

queued_state : (s : WorkflowState) → is_queued s ≡ true → s ≡ WorkflowState.queued
queued_state WorkflowState.queued h = refl
queued_state _ h = ground arith

is_queued_of : (r : ℕ) (q : Workflow) → queued_of r q ≡ true → is_queued q.state ≡ true
is_queued_of r q h = ground arith

-- A row that is inserted is the first of its id.
inserted-IsStored :
    (p : CreateWorkflowParams) (s : WorkflowState) (queued : Bool) (d : Db)
    → IsStored
        (length p.steps)
        (record { workflow = new_workflow p s d.now; created = true; queued = queued })
        (write_step_plan p.id p.steps
          (record d { workflows = new_workflow p s d.now ∷ d.workflows }))
unfolding get_workflow write_step_plan new_workflow
inserted-IsStored p s queued d = record {
  stamp = (new_workflow p s d.now).updated_at;
  row = ground (arith, nat_beq_refl p.id);
  steps =
      count-write_step_plan p.id p.steps
        (record d { workflows = new_workflow p s d.now ∷ d.workflows });
}

replace-IsAccepted :
    (fails : Db → Bool) (p : CreateWorkflowParams) (d : Db) (w q : Workflow)
    → HaveOwnIds d.workflows
    → find (claimable_of p.request_id) d.workflows ≡ some w
    → find (queued_of p.request_id) d.workflows ≡ some q
    → (create_workflow fails d.workflows p d ≡ failed audit_write)
      ⊎ ((r : CreateWorkflowResult) × (d' : Db) × (create_workflow fails d.workflows p d
            ≡ stored r d')
          × IsAccepted p (any (claimable_of p.request_id) d.workflows) r
          × IsStored (length p.steps) r d')
unfolding create_workflow replace_queued overwrite update_workflows get_workflow write_step_plan
replace-IsAccepted fails p d w q own busy parked =
    elim (Option-cases (record_superseded fails (q ∷ []) (some q.id) p.correlation_id d)) [
      | inl stopped ↦ inl (ground (arith, busy, parked, stopped))
      | inr (d₁, written) ↦ inr (
        record { workflow = overwrite p d.omit_null d.now q; created = true; queued = true },
        write_step_plan q.id p.steps
            (update_workflows (by_id q.id) (overwrite p d.omit_null d.now) d₁),
        ground (arith, busy, parked, written),
        ground (
          arith,
          busy,
          any-find (claimable_of p.request_id) d.workflows,
          queued_state q.state (
              is_queued_of p.request_id q
                (find-eq-some_holds (queued_of p.request_id) d.workflows parked)),
        ),
        (let e =
              record_superseded-IsEventsOnly fails (q ∷ []) (some q.id) p.correlation_id d d₁
                written in
            record {
              stamp = d₁.now;
              row =
                  find-update_where (by_id q.id)
                    (λ v.
                      let v' = overwrite p d.omit_null d.now v in record v' { updated_at = d₁.now })
                    d₁.workflows (λ v. refl) {a = q}
                    (rw e.workflows
                      (find-own (queued_of p.request_id) d.workflows (own q.id) parked));
              steps =
                  count-write_step_plan q.id p.steps
                    (update_workflows (by_id q.id) (overwrite p d.omit_null d.now) d₁);
            }),
      )
    ]

pub create_workflow_current :
    (fails : Db → Bool) (p : CreateWorkflowParams) (d : Db)
    → IsUnique d.workflows
    → HaveOwnIds d.workflows
    → (create_workflow fails d.workflows p d ≡ failed audit_write)
      ⊎ ((r : CreateWorkflowResult) × (d' : Db) × (create_workflow fails d.workflows p d
            ≡ stored r d')
          × IsAccepted p (any (claimable_of p.request_id) d.workflows) r
          × IsStored (length p.steps) r d')
unfolding create_workflow new_workflow get_workflow write_step_plan
create_workflow_current fails p d u own =
    elim (Option-cases (find (claimable_of p.request_id) d.workflows)) [
      | inl idle ↦ inr (
        record {
          workflow = new_workflow p WorkflowState.pending d.now;
          created = true;
          queued = false;
        },
        write_step_plan p.id p.steps
            (record d { workflows = new_workflow p WorkflowState.pending d.now ∷ d.workflows }),
        ground (
          arith,
          idle,
          insert_workflow_fits p WorkflowState.pending false d
              (λ t. find-eq-none-count (claimable_of p.request_id) d.workflows idle) (λ t. cc),
        ),
        ground (arith, idle, any-find (claimable_of p.request_id) d.workflows),
        inserted-IsStored p WorkflowState.pending false d,
      )
      | inr (w, busy) ↦ elim (Option-cases (find (queued_of p.request_id) d.workflows)) [
        | inl free ↦ inr (
          record {
            workflow = new_workflow p WorkflowState.queued d.now;
            created = true;
            queued = true;
          },
          write_step_plan p.id p.steps
              (record d { workflows = new_workflow p WorkflowState.queued d.now ∷ d.workflows }),
          ground (
            arith,
            busy,
            free,
            insert_workflow_fits p WorkflowState.queued true d (λ t. cc)
                (λ t. find-eq-none-count (queued_of p.request_id) d.workflows free),
          ),
          ground (arith, busy, any-find (claimable_of p.request_id) d.workflows),
          inserted-IsStored p WorkflowState.queued true d,
        )
        | inr (q, parked) ↦ replace-IsAccepted fails p d w q own busy parked
      ]
    ]
