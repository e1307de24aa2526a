-- ===== src/Workflow/Enqueue/Accepted.antt =====
-- Submissions that are no deletes, where events can be written (app/workflow/request-workflow.ts).
use sso_requests.Base.{
  length, ℕ, suc, ◌≡◌, ◌≢◌, refl, ap, ◌∙◌, if◌then◌else◌, Bool, true, false, [], ◌∷◌, some, arith,
  any, Option-cases, inl, inr, find, Bool-cases,
}
use sso_requests.Workflow.Types.{WorkflowType, WorkflowState, Payload, Db}
use sso_requests.Workflow.Audit.{audit_action_for}
use sso_requests.Workflow.Store.Tables.{HaveOwnIds, claimable_of, queued_of, IsUnique}
use sso_requests.Workflow.Store.Create.{
  CreateWorkflowParams, stored, failed, audit_write, create_workflow, submit, adopt_winner,
  insert_workflow, replace_queued,
}
use sso_requests.Workflow.Store.Create.Current.{create_workflow_current}
use sso_requests.Workflow.Steps.{build_steps}
use sso_requests.Workflow.Enqueue.{
  EnqueueOptions, EnqueueResult, resolve_workflow_type, create_params, enqueue_result,
  supersede_for_delete, create_after, enqueue_request_workflow,
}
use sso_requests.Workflow.Enqueue.Laws.{IsWorkflowOf, length-step_plan, record_superseded_total}

-- The type of a submission that is no delete.
abbrev pub apply_type : Bool → WorkflowType
apply_type restore =
    if restore then WorkflowType.integration_restore else WorkflowType.integration_apply

insert_workflow-ne-audit_write :
    (p : CreateWorkflowParams) (s : WorkflowState) (queued : Bool) (r : ℕ) (d : Db)
    → adopt_winner r d (insert_workflow p s queued d) ≢ failed audit_write
unfolding insert_workflow adopt_winner
insert_workflow-ne-audit_write p s queued r d h = ground (arith, h)

create_workflow-ne-audit_write :
    (fails : Db → Bool) (p : CreateWorkflowParams) (d : Db)
    → ((d' : Db) → fails d' ≡ false)
    → create_workflow fails d.workflows p d ≢ failed audit_write
unfolding create_workflow submit replace_queued
create_workflow-ne-audit_write fails p d works h =
    elim (Option-cases (find (claimable_of p.request_id) d.workflows)) [
      | inl idle ↦
          insert_workflow-ne-audit_write p WorkflowState.pending false p.request_id d
            (ground (arith, h, idle))
      | inr (w, busy) ↦ elim (Option-cases (find (queued_of p.request_id) d.workflows)) [
        | inl free ↦
            insert_workflow-ne-audit_write p WorkflowState.queued true p.request_id d
              (ground (arith, h, busy, free))
        | inr (q, parked) ↦
            let (d₁, written) =
              record_superseded_total fails works (q ∷ []) (some q.id) p.correlation_id d in
            absurd (ground (arith, h, busy, parked, written))
      ]
    ]

supersede_for_delete_kept :
    (fails : Db → Bool) (p : Payload) (options : EnqueueOptions) (d d₁ : Db)
    → p.archived ≡ false
    → supersede_for_delete fails (create_params p options d) d₁ ≡ stored 0 d₁
unfolding supersede_for_delete create_params resolve_workflow_type
supersede_for_delete_kept fails p options d d₁ kept = elim (Bool-cases options.restore) [
  | inl restored ↦ rw (kept, restored) refl
  | inr applied ↦ rw (kept, applied) refl
]

-- What a submission that is no delete becomes.
pub record IsEnqueued (options : EnqueueOptions) (busy : Bool) (r : EnqueueResult) : Type 0 where
  pub created : r.created ≡ true
  pub queued : r.queued ≡ busy
  pub correlation : r.correlation_id ≡ options.correlation_id
  pub state : r.state ≡ (if busy then WorkflowState.queued else WorkflowState.pending)

resolve_workflow_type_kept :
    (p : Payload) (restore : Bool)
    → p.archived ≡ false
    → resolve_workflow_type p restore ≡ apply_type restore
unfolding resolve_workflow_type
resolve_workflow_type_kept p true kept = rw (kept, resolve_workflow_type) refl
resolve_workflow_type_kept p false kept = rw (kept, resolve_workflow_type) refl

-- A submission that is no delete, and is not awaited, is accepted as one of its own: queued where the integration has a claimable
-- workflow, and claimable where it has none. The tables hold its row, with the type that `restore` asks for,
-- its payload and its operation, and a step for each one of its plan.
pub enqueue_request_workflow_current :
    (fails : Db → Bool) (p : Payload) (options : EnqueueOptions) (d : Db)
    → ((d' : Db) → fails d' ≡ false)
    → IsUnique d.workflows
    → HaveOwnIds d.workflows
    → p.archived ≡ false
    → options.await_completion ≡ false
    → (r : EnqueueResult) × (d' : Db) × (enqueue_request_workflow fails Db.workflows p options d
        ≡ stored r d')
      × IsEnqueued options (any (claimable_of p.id) d.workflows) r
      × IsWorkflowOf (apply_type options.restore) p options.correlation_id r d'
unfolding enqueue_request_workflow create_params supersede_for_delete resolve_workflow_type
    create_after enqueue_result
enqueue_request_workflow_current fails p options d works unique own kept waits =
    let params = create_params p options d in
    let d₁ = record d { next_id = suc d.next_id } in
    elim (create_workflow_current fails params d₁ unique own) [
      | inl stopped ↦ absurd (create_workflow-ne-audit_write fails params d₁ works stopped)
      | inr (r, d', accepted, is_accepted, is_stored) ↦ (
        record {
          workflow_id = r.workflow.id;
          correlation_id = r.workflow.correlation_id;
          state = r.workflow.state;
          created = r.created;
          queued = r.queued;
          audit_action = audit_action_for params.type params.action params.payload;
        },
        d',
        ap (create_after fails Db.workflows params options)
              (supersede_for_delete_kept fails p options d d₁ kept)
            ∙ (ap (enqueue_result params options) accepted ∙ ground (arith, waits)),
        record {
          created = is_accepted.created;
          queued = is_accepted.queued;
          correlation = is_accepted.correlation;
          state = is_accepted.state;
        },
        record {
          row = record r.workflow { updated_at = is_stored.stamp };
          is_stored = is_stored.row;
          own_type = is_accepted.type ∙ resolve_workflow_type_kept p options.restore kept;
          own_payload = is_accepted.payload;
          own_operation = is_accepted.correlation;
          own_state = refl;
          planned =
              is_stored.steps
              ∙ (length-step_plan (build_steps params.type p)
                  ∙ ap (λ type. length (build_steps type p))
                      (resolve_workflow_type_kept p options.restore kept));
        },
      )
    ]
