-- ===== src/Workflow/Lifecycle.antt =====
-- What the pods do to the tables, as steps in any order: the operations of app/workflow/store.ts and
-- the transitions of app/workflow/orchestrator.ts that write to `request_workflows`.
pub mod Answers
use sso_requests.Base.{
  ◌++◌, ℕ, ◌≡◌, ◌≢◌, refl, Bool, false, ◌&&◌, List, [], ◌∷◌, Option, some, String, arith, count,
  count-update_where-le, update_where, Bool-cases, Option-cases, inl, inr, nat_beq, nat_beq_iff,
  nat_eq, filter,
}
use sso_requests.Workflow.Types.{
  Event, EventCode, Payload, is_terminal_outcome, WorkflowState, StepName, Workflow, Db, Outcome,
  Details, is_claimable, is_queued,
}
use sso_requests.Workflow.Backoff.{Config}
use sso_requests.Workflow.Audit.{
  is_operation, record_adopted_submission, record_superseded, record_workflow_event, no_details,
}
use sso_requests.Workflow.Audit.Laws.{
  record_superseded-IsEventsOnly, record_workflow_event-IsEventsOnly,
}
use sso_requests.Workflow.Store.Tables.{
  HaveOwnIds, by_id, claimable_of, queued_of, active_of, IsUnique, violates, update_workflows,
  record_failure,
}
use sso_requests.Workflow.Store.Create.{
  CreateWorkflowParams, CreateWorkflowResult, stored, create_workflow, set_superseded,
  supersede_active_workflows,
}
use sso_requests.Workflow.Store.Create.Laws.{
  IsViewOf, create_workflow-IsUnique, update_where-IsUnique,
}
use sso_requests.Workflow.Store.Lease.{
  claim_candidate, claim_workflow, take_claim, release_workflow, release_workflow_if_active,
  drop_claim, heartbeat_workflow, is_claimable_row, is_held_by,
}
use sso_requests.Workflow.Store.Promote.{promote_queued_workflow, promote_orphaned_queued_workflows}
use sso_requests.Workflow.Recovery.{promote_orphaned_queued_workflows-IsUnique}
use sso_requests.Workflow.Store.Promote.Laws.{promote_queued_workflow-IsUnique}
use sso_requests.Workflow.Steps.{Effects, set_request_status}
use sso_requests.Workflow.Orchestrator.Alerts.{KeepsTables, alert_ops-KeepsTables, alert_ops_lem}
use sso_requests.Workflow.Orchestrator.{
  set_completed, complete_workflow, set_failed, fail_workflow, dead_letter, start_queued_workflow,
  start_workflow, set_running, kick_off, alert_ops, record_failure_events, failure_details,
  is_background,
}
use sso_requests.Workflow.Orchestrator.Settlement.{
  status_after, record_failure_events-IsEventsOnly, best_effort-IsEventsOnly,
}

-- A terminal outcome of the operation, under any action.
abbrev pub closes : String → Event → Bool
closes op e = is_operation op e.operation_id && is_terminal_outcome e.outcome

-- One step of one pod. A submission reads an older view of the table; a worker's copy of a workflow
-- may be out of date. The operation of a submission that lost a race is fresh (randomUUID): nothing has
-- closed it.
pub data Step : Db → Db → Type 0 where
  submits :
      (fails : Db → Bool) (seen : List Workflow) (p : CreateWorkflowParams)
      (r : CreateWorkflowResult) {d d' : Db}
      → IsViewOf seen d.workflows
      → create_workflow fails seen p d ≡ stored r d'
      → Step d d'
  supersedes :
      (fails : Db → Bool) (r : ℕ) (i : Option ℕ) (op : String) (n : ℕ) {d d' : Db}
      → supersede_active_workflows fails r i op d ≡ stored n d'
      → Step d d'
  claims : (c : Config) (target : Option ℕ) {d : Db} → Step d (claim_workflow c target d).1
  beats : (c : Config) (i : ℕ) {d : Db} → Step d (heartbeat_workflow c i d).1
  starts :
      (w : Workflow) {d d' : Db}
      → IsViewOf (w ∷ []) d.workflows
      → start_workflow w d ≡ some d'
      → Step d d'
  releases :
      (i : ℕ) (values : Workflow → Workflow) {d : Db}
      → ((w : Workflow) → (values w).request_id ≡ w.request_id)
      → ((w : Workflow) → (values w).state ≡ w.state)
      → Step d (release_workflow i values d)
  notes :
      (i : ℕ) (step : StepName) {d : Db}
      → Step d (update_workflows (by_id i) (λ w. record w { current_step = some step }) d)
  completes : (c : Config) (w : Workflow) {d : Db} → Step d (complete_workflow c w d).1
  dead_letters :
      (c : Config) (fx : Effects) (w : Workflow) (step : StepName) (reason error : String) {d : Db}
      → Step d (fail_workflow c fx w step reason error d).1
  promotes : (r : ℕ) {d : Db} → Step d (promote_queued_workflow r d).1
  recovers :
      (limit : ℕ) {d : Db}
      → HaveOwnIds d.workflows
      → Step d (promote_orphaned_queued_workflows limit d).1
  records :
      (fails : Db → Bool) (w : Workflow) (step : Bool) (o : Outcome) (x : Details) {d d' : Db}
      → record_workflow_event fails w step o x d ≡ some d'
      → Step d d'
  adopts :
      (fails : Db → Bool) (op : String) (winner : ℕ) (winner_op : String) (code : EventCode)
      (p : Payload) {d d' : Db}
      → count (closes op) d.events ≡ 0
      → record_adopted_submission fails op winner winner_op code p d ≡ some d'
      → Step d d'
  requests :
      (e : Event) {d : Db}
      → ((op : String) → closes op e ≡ false)
      → Step d (record d { events = d.events ++ e ∷ [] })
  waits : (later : ℕ) {d : Db} → Step d (record d { now = later })

-- Any number of steps.
pub data Steps : Db → Db → Type 0 where
  stay : {d : Db} → Steps d d
  then_step : {d d' d'' : Db} → Steps d d' → Step d' d'' → Steps d d''

-- An update that makes no row claimable or queued that was not.
lowered-IsUnique :
    (p : Workflow → Bool) (f : Workflow → Workflow)
    → ((w : Workflow) → (f w).request_id ≡ w.request_id)
    → ((w : Workflow) → is_claimable (f w).state ≡ false)
    → ((w : Workflow) → is_queued (f w).state ≡ false)
    → (ws : List Workflow) → IsUnique ws
    → IsUnique (update_where p f ws)
lowered-IsUnique p f same closed gone ws u = record {
  claimable = λ r. omega (
    arith,
    count-update_where-le (claimable_of r) p f (λ w h k. ground (arith, closed w)) ws,
    u.claimable r,
  );
  queued = λ r. omega (
    arith,
    count-update_where-le (queued_of r) p f (λ w h k. ground (arith, gone w)) ws,
    u.queued r,
  );
}

claim_workflow-IsUnique :
    (c : Config) (target : Option ℕ) (d : Db)
    → IsUnique d.workflows
    → IsUnique (claim_workflow c target d).1.workflows
unfolding claim_workflow update_workflows take_claim
claim_workflow-IsUnique c target d u = elim (Option-cases (claim_candidate c target d)) [
  | inl nothing ↦ rw (nothing, claim_workflow) u
  | inr (w, chosen) ↦
      rw (chosen, claim_workflow)
        (update_where-IsUnique (by_id w.id)
          (λ v. record (take_claim c d.now v) { updated_at = d.now }) (λ v. refl) (λ v. refl)
          d.workflows u)
]

supersede-IsUnique :
    (fails : Db → Bool) (r : ℕ) (i : Option ℕ) (op : String) (n : ℕ) (d d' : Db)
    → supersede_active_workflows fails r i op d ≡ stored n d'
    → IsUnique d.workflows
    → IsUnique d'.workflows
unfolding supersede_active_workflows update_workflows set_superseded
supersede-IsUnique fails r i op n d d' h u =
    let d₁ = update_workflows (active_of r) (set_superseded d.omit_null d.now op) d in
    elim (Option-cases (record_superseded fails (filter (active_of r) d.workflows) i op d₁)) [
      | inl stopped ↦ absurd (ground (arith, stopped))
      | inr (d₂, written) ↦
          let e =
            record_superseded-IsEventsOnly fails (filter (active_of r) d.workflows) i op d₁ d₂
              written in
          let same : d₁.workflows ≡ d'.workflows = ground (arith, written, e) in
          rw (← same) (
            lowered-IsUnique (active_of r)
              (λ w. record (set_superseded d.omit_null d.now op w) { updated_at = d.now })
              (λ w. refl) (λ w. refl) (λ w. refl) d.workflows u)
    ]

started_rows :
    (w : Workflow) (r now stamp : ℕ) (ws : List Workflow)
    → r ≢ w.request_id
    → IsViewOf (w ∷ []) ws
    → count
        (claimable_of r)
        (update_where (by_id w.id) (λ v. record (set_running now w v) { updated_at = stamp }) ws)
      ≡ count (claimable_of r) ws
unfolding set_running
started_rows w r now stamp [] other view = refl
started_rows w r now stamp (v ∷ ws) other view = ground (
  arith,
  view.0.0,
  other,
  nat_beq_iff v.id w.id,
  nat_beq_iff v.request_id r,
  started_rows w r now stamp ws other (view.0.1, tt),
)

start_workflow-IsUnique :
    (w : Workflow) (d d' : Db)
    → IsViewOf (w ∷ []) d.workflows
    → start_workflow w d ≡ some d'
    → IsUnique d.workflows
    → IsUnique d'.workflows
unfolding start_workflow update_workflows set_running
start_workflow-IsUnique w d d' view h u =
    let f = λ (v : Workflow). record (set_running d.now w v) { updated_at = d.now } in
    let ws = update_where (by_id w.id) f d.workflows in
    elim (Bool-cases (violates (record w { state = WorkflowState.running }) ws)) [
      | inl refused ↦ absurd (ground (arith, refused))
      | inr allowed ↦
          let same : ws ≡ d'.workflows = ground (arith, allowed) in
          rw (← same) (record {
            claimable = λ r. elim (Bool-cases (nat_beq r w.request_id)) [
              | inl own ↦ rw ((nat_beq_iff r w.request_id).0 own) (ground (arith, allowed))
              | inr other ↦ omega (
                arith,
                started_rows w r d.now d.now d.workflows
                    (λ e. ground (arith, nat_beq_iff r w.request_id)) view,
                u.claimable r,
              )
            ];
            queued = λ r. omega (
              arith,
              count-update_where-le (queued_of r) (by_id w.id) f (λ v q k. ground arith)
                  d.workflows,
              u.queued r,
            );
          })
    ]

start_queued_workflow-IsUnique :
    (c : Config) (w : Workflow) (d : Db)
    → IsUnique d.workflows
    → IsUnique (start_queued_workflow c w d).workflows
unfolding start_queued_workflow kick_off
start_queued_workflow-IsUnique c w d u =
    let promoted = promote_queued_workflow w.request_id d in
    let same : (start_queued_workflow c w d).workflows ≡ promoted.1.workflows =
      ground (arith, Option-cases promoted.0, Bool-cases (is_background c.mode)) in
    rw same (promote_queued_workflow-IsUnique w.request_id d u)

-- A terminal transition closes the row, if it is still claimable.
release-IsUnique :
    (i : ℕ) (values : Workflow → Workflow) (d : Db)
    → ((w : Workflow) → (values w).request_id ≡ w.request_id)
    → ((w : Workflow) → is_claimable (values w).state ≡ false)
    → ((w : Workflow) → is_queued (values w).state ≡ false)
    → IsUnique d.workflows
    → IsUnique (release_workflow_if_active i values d).1.workflows
unfolding release_workflow_if_active update_workflows
release-IsUnique i values d same closed gone =
    lowered-IsUnique (is_claimable_row i)
      (λ w. record (values (drop_claim d.omit_null w)) { updated_at = d.now })
      (λ w. same (drop_claim d.omit_null w)) (λ w. closed (drop_claim d.omit_null w))
      (λ w. gone (drop_claim d.omit_null w)) d.workflows

complete_workflow-IsUnique :
    (c : Config) (w : Workflow) (d : Db)
    → IsUnique d.workflows
    → IsUnique (complete_workflow c w d).1.workflows
unfolding complete_workflow set_completed
complete_workflow-IsUnique c w d u =
    let r = release_workflow_if_active w.id (set_completed d.omit_null d.now) d in
    let u' =
      release-IsUnique w.id (set_completed d.omit_null d.now) d (λ v. refl) (λ v. refl) (λ v. refl)
        u in
    elim (Bool-cases r.0) [
      | inl won ↦ rw (won, complete_workflow) (start_queued_workflow-IsUnique c w r.1 u')
      | inr lost ↦ rw (lost, complete_workflow) u'
    ]

dead_letter-IsUnique :
    (c : Config) (fx : Effects) (w : Workflow) (step : StepName) (reason error : String) (d : Db)
    → IsUnique d.workflows
    → IsUnique (dead_letter c fx w step reason error d).workflows
unfolding dead_letter record_failure set_request_status
dead_letter-IsUnique c fx w step reason error d u =
    let d₁ = set_request_status w.request_id (status_after step) d in
    let d₂ = record_failure_events fx w step (failure_details step reason error) d₁ in
    let e = record_failure_events-IsEventsOnly fx w step (failure_details step reason error) d₁ in
    let lettered = record_failure w (some step) reason error d₂ in
    start_queued_workflow-IsUnique c w (alert_ops fx w.id (some step) lettered)
      (rw ((alert_ops-KeepsTables fx w.id (some step) lettered).workflows, e.workflows) u)

fail_workflow-IsUnique :
    (c : Config) (fx : Effects) (w : Workflow) (step : StepName) (reason error : String) (d : Db)
    → IsUnique d.workflows
    → IsUnique (fail_workflow c fx w step reason error d).1.workflows
unfolding fail_workflow set_failed
fail_workflow-IsUnique c fx w step reason error d u =
    let r = release_workflow_if_active w.id (set_failed d.now step error) d in
    let u' =
      release-IsUnique w.id (set_failed d.now step error) d (λ v. refl) (λ v. refl) (λ v. refl) u in
    elim (Bool-cases r.0) [
      | inl won ↦
          rw (won, fail_workflow)
            (dead_letter-IsUnique c fx (record w { state = WorkflowState.failed }) step reason error
              r.1 u')
      | inr lost ↦
          let e =
            best_effort-IsEventsOnly fx.audit_fails w false Outcome.superseded no_details r.1 in
          rw (lost, fail_workflow) (rw e.workflows u')
    ]

-- One step of any pod keeps one claimable and one queued workflow per integration.
Step-IsUnique : {d d' : Db} → Step d d' → IsUnique d.workflows → IsUnique d'.workflows
unfolding heartbeat_workflow release_workflow update_workflows record_adopted_submission
Step-IsUnique {d} {d'} (submits fails seen p r view h) u =
    create_workflow-IsUnique fails seen p d d' r view u h
Step-IsUnique {d} {d'} (supersedes fails r i op n h) u = supersede-IsUnique fails r i op n d d' h u
Step-IsUnique {d} (claims c target) u = claim_workflow-IsUnique c target d u
Step-IsUnique {d} (beats c i) u =
    update_where-IsUnique (λ w. is_claimable_row i w && is_held_by w.claimed_by c.worker)
      (λ w. record w { claimed_at = some d.now; updated_at = d.now }) (λ w. refl) (λ w. refl)
      d.workflows u
Step-IsUnique {d} {d'} (starts w view h) u = start_workflow-IsUnique w d d' view h u
Step-IsUnique {d} (releases i values same kept) u =
    update_where-IsUnique (by_id i)
      (λ w. record (values (drop_claim d.omit_null w)) { updated_at = d.now })
      (λ w. same (drop_claim d.omit_null w)) (λ w. kept (drop_claim d.omit_null w)) d.workflows u
Step-IsUnique {d} (notes i step) u =
    update_where-IsUnique (by_id i) (λ w. record w { current_step = some step; updated_at = d.now })
      (λ w. refl) (λ w. refl) d.workflows u
Step-IsUnique {d} {d'} (adopts fails op winner winner_op code p fresh h) u =
    let same : d'.workflows ≡ d.workflows = ground arith in rw same u
Step-IsUnique (requests e pending) u = u
Step-IsUnique {d} (completes c w) u = complete_workflow-IsUnique c w d u
Step-IsUnique {d} (dead_letters c fx w step reason error) u =
    fail_workflow-IsUnique c fx w step reason error d u
Step-IsUnique {d} (promotes r) u = promote_queued_workflow-IsUnique r d u
Step-IsUnique {d} (recovers limit own) u = promote_orphaned_queued_workflows-IsUnique limit d own u
Step-IsUnique {d} {d'} (records fails w step o x h) u =
    rw ((record_workflow_event-IsEventsOnly fails w step o x d d' h).workflows) u
Step-IsUnique (waits later) u = u

-- Whatever steps the pods take, in whatever order, and whatever older states of the table their submissions
-- read: no integration ever has two claimable or two queued workflows, if it had none to begin with.
-- The steps are submissions, supersedes, claims, heartbeats, starts, releases, writes of the current step,
-- completions, dead letters, promotions of a request, the recovery of orphans, the events of steps, the
-- events that close no operation (`requested`, and those without an operation) and those of adopted
-- submissions. (A row that a submission or a worker has read keeps its request; ids are the table's primary key.)
pub Steps-IsUnique : {d d' : Db} → Steps d d' → IsUnique d.workflows → IsUnique d'.workflows
Steps-IsUnique stay u = u
Steps-IsUnique (then_step steps s) u = Step-IsUnique s (Steps-IsUnique steps u)
