-- ===== src/Requests/Restore/Submits.antt =====
-- A restore that has all that it takes is stored (restoreRequest of app/controllers/requests.ts).
use sso_requests.Base.{
  ℕ, ◌≡◌, refl, ap, ◌∙◌, Bool, true, false, List, [], ◌∷◌, ◌++◌, Option, none, some, String, any,
}
use sso_requests.Authz.Permissions
use sso_requests.Access.Integration.{IntegrationAccess}
use sso_requests.Workflow.Types.{WorkflowType, Event, Db}
use sso_requests.Workflow.Store.Tables.{HaveOwnIds, get_workflow, claimable_of, IsUnique}
use sso_requests.Workflow.Store.Create.{stored}
use sso_requests.Workflow.Enqueue.{EnqueueResult, enqueue_request_workflow}
use sso_requests.Workflow.Enqueue.Laws.{IsWorkflowOf}
use sso_requests.Workflow.Enqueue.Accepted.{
  apply_type, IsEnqueued, enqueue_request_workflow_current,
}
use sso_requests.Requests.{
  RequestRow, Store, Request, done, status_of, authorize_integration, build_integration_payload,
  options_of, submission_event, enqueue_integration_workflow, save_row, check_if_request_merged,
}
use sso_requests.Requests.Laws.{run_of, run_integration_workflow_lem, submit_row_accepted}
use sso_requests.Requests.Restore.{
  Directory, owned_by, is_restorable, restore_row, restore_found, restore_request,
}

-- The engine accepts a row that is not archived, behind what runs.
enqueue_integration_workflow_current :
    (q : Request) (restore : Bool) (row : RequestRow) (d : Db)
    → ((d' : Db) → q.fails d' ≡ false)
    → q.seen ≡ Db.workflows
    → q.enabled ≡ true
    → IsUnique d.workflows
    → HaveOwnIds d.workflows
    → row.archived ≡ false
    → (r : EnqueueResult) × (d' : Db) × (enqueue_integration_workflow q restore row d
        ≡ stored (some r) d')
      × IsEnqueued (options_of q restore) (any (claimable_of row.id) d.workflows) r
      × IsWorkflowOf (apply_type restore) (build_integration_payload row) q.operation_id r d'
      × ((before : List Event) × (d'.events
            ≡ before ++ submission_event q (build_integration_payload row) r ∷ []))
unfolding enqueue_integration_workflow get_workflow
enqueue_integration_workflow_current q restore row d works sees enabled unique own kept =
    let p = build_integration_payload row in
    let (r, d₁, accepted, enqueued, stored_row) =
      enqueue_request_workflow_current q.fails p (options_of q restore) d works unique own kept
        refl in
    let accepted' : enqueue_request_workflow q.fails q.seen p (options_of q restore) d
        ≡ stored r d₁ =
      ap (λ seen. enqueue_request_workflow q.fails seen p (options_of q restore) d) sees
      ∙ accepted in
    (
      r,
      record d₁ { events = d₁.events ++ submission_event q p r ∷ [] },
      rw (enabled, accepted', works d₁, enqueued.created) refl,
      enqueued,
      record {
        row = stored_row.row;
        is_stored = stored_row.is_stored;
        own_type = stored_row.own_type;
        own_payload = stored_row.own_payload;
        own_operation = stored_row.own_operation;
        own_state = stored_row.own_state;
        planned = stored_row.planned;
      },
      (d₁.events, refl),
    )

-- What a restore leaves: the row saved, not archived and with its status; a workflow of its own, a
-- restore with the row's payload, which waits
-- exactly where one of the row may run already; its requested event, and then what the run does.
pub record IsSubmittedRestore (q : Request) (id : ℕ) (email : Option String) (st : Store)
    (w w' : Directory) (owned : RequestRow) : Type 0 where
  pub result : EnqueueResult
  pub accepted : Db
  pub is_accepted :
      enqueue_integration_workflow q true owned (save_row owned st).db
      ≡ stored (some result) accepted
  pub is_done : restore_request q id email st w ≡ (
    done (record {
      rows = (save_row owned st).rows;
      db = run_of q.config q.effects result accepted;
    }),
    w',
  )
  pub is_enqueued :
      IsEnqueued (options_of q true) (any (claimable_of owned.id) st.db.workflows) result
  pub is_stored :
      IsWorkflowOf WorkflowType.integration_restore
        (build_integration_payload owned)
        q.operation_id
        result
        accepted
  pub before : List Event
  pub last :
      accepted.events ≡ before ++ submission_event q (build_integration_payload owned) result ∷ []

-- Where events can be stored, the reads of the transaction see the table, no integration has two claimable
-- or two queued workflows, ids are the table's primary key, and workflows exist: the restore of a row that was applied once, that the actor may
-- write, that is archived or submitted, and whose team exists or whose new owner's address is valid, is
-- stored. Its workflow, of the type of a restore and with the row's payload, is its own, queued exactly where the row
-- has one that may run; its requested event is the last one stored before the run; and then, unless it is queued,
-- it runs as the mode of execution says.
pub restore_request_submits :
    (q : Request) (id : ℕ) (email : Option String) (st : Store) (w w' : Directory)
    (row owned : RequestRow) (access : IntegrationAccess)
    → ((d : Db) → q.fails d ≡ false)
    → q.seen ≡ Db.workflows
    → q.enabled ≡ true
    → IsUnique st.db.workflows
    → HaveOwnIds st.db.workflows
    → check_if_request_merged id st.db ≡ true
    → authorize_integration q id Permissions.integrations_write none st ≡ some (row, access)
    → is_restorable row (status_of row st.db) ≡ true
    → owned_by row email w ≡ some (owned, w')
    → IsSubmittedRestore q id email st w w'
        (record owned { archived = false; status = status_of row st.db })
unfolding restore_request restore_found restore_row save_row
restore_request_submits q id email st w w' row owned access works sees enabled unique own merged
      found restorable given =
    let row' = record owned { archived = false; status = status_of row st.db } in
    let (r, d', accepted, enqueued, stored_row, told) =
      enqueue_integration_workflow_current q true row' (save_row row' st).db works sees enabled
        unique own refl in
    record {
      result = r;
      accepted = d';
      is_accepted = accepted;
      is_done =
          rw
            (
              merged,
              found,
              restorable,
              given,
              submit_row_accepted q true row' st (some r) d' accepted,
              run_integration_workflow_lem q r d' enqueued.created,
            )
            refl;
      is_enqueued = enqueued;
      is_stored = stored_row;
      before = told.0;
      last = told.1;
    }
