-- ===== src/Requests/Laws.antt =====
-- What deleteRequest of app/controllers/requests.ts takes, and what it leaves behind.
use sso_requests.Base.{
  Bool, ℕ, ◌≡◌, refl, ap, ◌∙◌, true, false, List, [], ◌∷◌, ◌++◌, Option, none, some, nat_eq,
  if◌then◌else◌, includes, count, arith,
}
use sso_requests.Authz.Permissions
use sso_requests.Authz.Permissions.{Permission, permission_eq}
use sso_requests.Transitions.{
  Status, status_eq, Transition, delete_intent_for, is_in_flight, transition_of, transition_refusal,
}
use sso_requests.Access.Integration.{IntegrationAccess}
use sso_requests.Policy.Changes.{
  transition, status_not_admitted, not_permitted, TransitionAnswer, authorize_transition,
}
use sso_requests.Workflow.Types.{WorkflowType, Event, Db}
use sso_requests.Workflow.Store.Tables.{get_workflow, active_of}
use sso_requests.Workflow.Store.Create.{stored}
use sso_requests.Workflow.Enqueue.{EnqueueResult, enqueue_request_workflow}
use sso_requests.Workflow.Backoff.{Config}
use sso_requests.Workflow.Steps.{Effects}
use sso_requests.Workflow.Orchestrator.{is_background, kick_off}
use sso_requests.Workflow.Enqueue.{
  is_synchronous, run_to_completion, max_synchronous_iterations, execute_enqueued_workflow,
}
use sso_requests.Workflow.Enqueue.Laws.{IsWorkflowOf, enqueue_request_workflow_delete}
use sso_requests.Requests.{
  RequestRow, Store, Request, status_of, authorize_integration, build_integration_payload,
  options_of, submission_event, enqueue_integration_workflow, run_integration_workflow, save_row,
  done, submit_row,
}
use sso_requests.Requests.Delete.{is_draft, delete_row, delete_found, delete_request}

-- What a delete takes: a permission of its own while a workflow owns the row.
abbrev pub delete_permission : Status → Permission
delete_permission s =
    if is_in_flight (some s)
    then Permissions.integrations_delete_in_flight
    else Permissions.integrations_delete

delete-transition :
    (s : Status) (ps : List Permission) (t : Transition)
    → authorize_transition (some s) (delete_intent_for (some s)) ps ≡ transition t
    → (includes ps (delete_permission s) ≡ true)
      × (t.to ≡ (if is_draft s then Status.draft else Status.submitted))
unfolding authorize_transition transition_refusal delete_intent_for transition_of is_in_flight
delete-transition Status.draft ps t h = ground arith
delete-transition Status.submitted ps t h = ground arith
delete-transition Status.pr ps t h = ground arith
delete-transition Status.pr_failed ps t h = ground arith
delete-transition Status.planned ps t h = ground arith
delete-transition Status.plan_failed ps t h = ground arith
delete-transition Status.applied ps t h = ground arith
delete-transition Status.apply_failed ps t h = ground arith

delete_row-done :
    (q : Request) (row : RequestRow) (status : Status) (st st' : Store) (a : TransitionAnswer)
    → delete_row q row status st a ≡ done st'
    → (t : Transition) × (a ≡ transition t)
unfolding delete_row
delete_row-done q row status st st' (transition t) h = (t, refl)
delete_row-done q row status st st' (status_not_admitted s) h = absurd (ground arith)
delete_row-done q row status st st' not_permitted h = absurd (ground arith)

-- What a row's deletion was authorized by.
pub record IsAuthorizedDelete (q : Request) (id : ℕ) (st : Store) (row : RequestRow)
    (access : IntegrationAccess) : Type 0 where
  pub found :
      authorize_integration q id Permissions.integrations_read (some false) st ≡ some (row, access)
  pub permitted : includes access.permissions (delete_permission (status_of row st.db)) ≡ true

delete_found-done :
    (q : Request) (id : ℕ) (st st' : Store) (o : Option (RequestRow × IntegrationAccess))
    → authorize_integration q id Permissions.integrations_read (some false) st ≡ o
    → delete_found q st o ≡ done st'
    → (row : RequestRow) × (access : IntegrationAccess) × IsAuthorizedDelete q id st row access
unfolding delete_found
delete_found-done q id st st' none e h = absurd (ground arith)
delete_found-done q id st st' (some (row, access)) e h =
    let status = status_of row st.db in
    let (t, answer) =
      delete_row-done q row status st st'
        (authorize_transition (some status) (delete_intent_for (some status)) access.permissions)
        h in
    (
      row,
      access,
      record { found = e; permitted = (delete-transition status access.permissions t answer).0 },
    )

-- A deletion that is answered with success found the row, readable and not archived, and the actor holds
-- the permission to delete it: that for rows in flight where the row, with what the engine has written,
-- is in flight.
pub delete_request_needs :
    (q : Request) (id : ℕ) (st st' : Store)
    → delete_request q id st ≡ done st'
    → (row : RequestRow) × (access : IntegrationAccess) × IsAuthorizedDelete q id st row access
unfolding delete_request
delete_request_needs q id st st' h =
    delete_found-done q id st st'
      (authorize_integration q id Permissions.integrations_read (some false) st) refl h

-- The engine accepts the deletion, whatever is in flight.
enqueue_integration_workflow_delete :
    (q : Request) (row : RequestRow) (d : Db)
    → ((d' : Db) → q.fails d' ≡ false)
    → q.seen ≡ Db.workflows
    → q.enabled ≡ true
    → row.archived ≡ true
    → (r : EnqueueResult) × (d' : Db) × (enqueue_integration_workflow q false row d
        ≡ stored (some r) d')
      × (r.workflow_id ≡ d.next_id)
      × (r.created ≡ true)
      × (r.queued ≡ false)
      × (count (active_of row.id) d'.workflows ≡ 1)
      × IsWorkflowOf WorkflowType.integration_delete
          (build_integration_payload row)
          q.operation_id
          r
          d'
      × ((before : List Event) × (d'.events
            ≡ before ++ submission_event q (build_integration_payload row) r ∷ []))
unfolding enqueue_integration_workflow get_workflow
enqueue_integration_workflow_delete q row d works sees enabled archived =
    let p = build_integration_payload row in
    let (r, d₁, accepted, id, state, created, queued, active, own) =
      enqueue_request_workflow_delete q.fails p (options_of q false) d works archived in
    let accepted' : enqueue_request_workflow q.fails q.seen p (options_of q false) d ≡ stored r d₁ =
      ap (λ seen. enqueue_request_workflow q.fails seen p (options_of q false) d) sees ∙ accepted in
    (
      r,
      record d₁ { events = d₁.events ++ submission_event q p r ∷ [] },
      rw (enabled, accepted', works d₁, created) refl,
      id,
      created,
      queued,
      active,
      record {
        row = own.row;
        is_stored = own.is_stored;
        own_type = own.own_type;
        own_payload = own.own_payload;
        own_operation = own.own_operation;
        own_state = own.own_state;
        planned = own.planned;
      },
      (d₁.events, refl),
    )

-- A holder of the permission is admitted by the transition of a deletion.
transition-delete :
    (s : Status) (ps : List Permission)
    → includes ps (delete_permission s) ≡ true
    → is_draft s ≡ false
    → (t : Transition) × (authorize_transition (some s) (delete_intent_for (some s)) ps
        ≡ transition t)
      × (t.to ≡ Status.submitted)
unfolding authorize_transition transition_refusal delete_intent_for transition_of is_in_flight
transition-delete Status.draft ps held kept = absurd (ground arith)
transition-delete Status.submitted ps held kept =
    (transition_of (delete_intent_for (some Status.submitted)), ground (arith, held), refl)
transition-delete Status.pr ps held kept =
    (transition_of (delete_intent_for (some Status.pr)), ground (arith, held), refl)
transition-delete Status.pr_failed ps held kept =
    (transition_of (delete_intent_for (some Status.pr_failed)), ground (arith, held), refl)
transition-delete Status.planned ps held kept =
    (transition_of (delete_intent_for (some Status.planned)), ground (arith, held), refl)
transition-delete Status.plan_failed ps held kept =
    (transition_of (delete_intent_for (some Status.plan_failed)), ground (arith, held), refl)
transition-delete Status.applied ps held kept =
    (transition_of (delete_intent_for (some Status.applied)), ground (arith, held), refl)
transition-delete Status.apply_failed ps held kept =
    (transition_of (delete_intent_for (some Status.apply_failed)), ground (arith, held), refl)

pub submit_row_accepted :
    (q : Request) (restore : Bool) (row : RequestRow) (st : Store) (enqueued : Option EnqueueResult)
    (d : Db)
    → enqueue_integration_workflow q restore row (save_row row st).db ≡ stored enqueued d
    → submit_row q restore row st
      ≡ done (record { rows = (save_row row st).rows; db = run_integration_workflow q enqueued d })
unfolding submit_row
submit_row_accepted q restore row st enqueued d accepted = rw (submit_row, accepted) refl

-- The run of a workflow that was submitted, by the mode of execution: to its end, in the background, or not
-- yet; a queued one waits.
abbrev pub run_of : Config → Effects → EnqueueResult → Db → Db
run_of c fx r d =
    if r.queued
    then d
    else if is_synchronous c.mode
    then (run_to_completion c fx max_synchronous_iterations r.workflow_id d).1
    else if is_background c.mode
    then kick_off r.workflow_id 0 d
    else d

pub run_integration_workflow_lem :
    (q : Request) (r : EnqueueResult) (d : Db)
    → r.created ≡ true
    → run_integration_workflow q (some r) d ≡ run_of q.config q.effects r d
unfolding run_integration_workflow execute_enqueued_workflow
run_integration_workflow_lem q r d created = ground (arith, created)

-- What a deletion leaves: the row archived and submitted, one workflow of it that may run, which is a delete
-- with the row's payload, its requested event, and then what the run of that workflow does.
pub record IsSubmittedDelete (q : Request) (id : ℕ) (st : Store) (row : RequestRow) : Type 0 where
  pub result : EnqueueResult
  pub accepted : Db
  pub is_done :
      delete_request q id st
      ≡ done (record {
        rows = (save_row (record row { archived = true; status = Status.submitted }) st).rows;
        db = run_of q.config q.effects result accepted;
      })
  pub created : result.created ≡ true
  pub not_queued : result.queued ≡ false
  pub single : count (active_of row.id) accepted.workflows ≡ 1
  pub own :
      IsWorkflowOf WorkflowType.integration_delete
        (build_integration_payload (record row { archived = true; status = Status.submitted }))
        q.operation_id
        result
        accepted
  pub before : List Event
  pub answered :
      accepted.events
      ≡ before
        ++ submission_event q
            (build_integration_payload (record row { archived = true; status = Status.submitted }))
            result
          ∷ []

pub delete_request_submits :
    (q : Request) (id : ℕ) (st : Store) (row : RequestRow) (access : IntegrationAccess)
    → ((d : Db) → q.fails d ≡ false)
    → q.seen ≡ Db.workflows
    → q.enabled ≡ true
    → IsAuthorizedDelete q id st row access
    → is_draft (status_of row st.db) ≡ false
    → IsSubmittedDelete q id st row
unfolding delete_request delete_found delete_row
delete_request_submits q id st row access works sees enabled allowed kept =
    let (t, admitted, to) =
      transition-delete (status_of row st.db) access.permissions allowed.permitted kept in
    let row' = record row { archived = true; status = Status.submitted } in
    let (r, d', accepted, number, created, queued, active, own, told) =
      enqueue_integration_workflow_delete q row' (save_row row' st).db works sees enabled refl in
    record {
      result = r;
      accepted = d';
      is_done =
          rw
            (
              allowed.found,
              admitted,
              kept,
              to,
              submit_row_accepted q false row' st (some r) d' accepted,
              run_integration_workflow_lem q r d' created,
            )
            refl;
      created = created;
      not_queued = queued;
      single = active;
      own = own;
      before = told.0;
      answered = told.1;
    }
