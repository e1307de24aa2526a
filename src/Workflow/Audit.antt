-- ===== src/Workflow/Audit.antt =====
-- app/workflow/audit.ts: how workflow-backed operations reach the audit record. Whether the insert
-- of an event fails is an argument; `none` is the error that it throws.
pub mod Laws
use Prim.Native.Char.{code}
use sso_requests.Base.{
  ℕ, ◌≡◌, Bool, true, false, ◌&&◌, ◌||◌, not, List, [], ◌∷◌, ◌++◌, map, Option, none, some, String,
  leb, nat_eq, string_eq, ◌==◌, if◌then◌else◌, count, ltb, or_else, is_some, any,
}
use sso_requests.Workflow.Types.{
  WorkflowType, ActionType, Payload, Workflow, StepName, EventCode, event_code_eq, Outcome,
  outcome_eq, is_terminal_outcome, Details, Event, Db, is_create, is_step,
}

abbrev pub codes : String → List ℕ
codes String.[] = []
codes (String.◌∷◌ c s) = code c ∷ codes s

is_hex : ℕ → Bool
is_hex c = (leb 48 c && leb c 57) || ((leb 97 c && leb c 102) || (leb 65 c && leb c 70))

pub data Place : Type 0 where
  hex : Place
  dash : Place

abbrev hexes : List Place → List Place
hexes rest = hex ∷ hex ∷ hex ∷ hex ∷ rest

-- `/^[0-9a-f]{8}-[0-9a-f]{4}-[0-9a-f]{4}-[0-9a-f]{4}-[0-9a-f]{12}$/i`, place by place.
abbrev uuid_places : List Place
uuid_places =
    hexes (hexes (dash ∷ hexes (dash ∷ hexes (dash ∷ hexes (dash ∷ hexes (hexes (hexes [])))))))

fits : List Place → List ℕ → Bool
unfolding is_hex
fits [] [] = true
fits [] (c ∷ cs) = false
fits (p ∷ ps) [] = false
fits (hex ∷ ps) (c ∷ cs) = is_hex c && fits ps cs
fits (dash ∷ ps) (c ∷ cs) = c == 45 && fits ps cs

-- `UUID.test`.
unfoldable pub is_uuid : String → Bool
unfolding fits
is_uuid text = fits uuid_places (codes text)

-- `auditActionFor`.
unfoldable pub audit_action_for : WorkflowType → ActionType → Payload → EventCode
audit_action_for WorkflowType.integration_delete action p =
    if p.api_service_account then EventCode.api_account_delete else EventCode.request_delete
audit_action_for WorkflowType.integration_restore action p =
    if p.api_service_account then EventCode.api_account_restore else EventCode.request_restore
audit_action_for WorkflowType.integration_apply action p =
    if p.api_service_account
    then EventCode.api_account_create
    else if is_create action
    then EventCode.request_create
    else EventCode.request_update

unfoldable pub workflow_action : Workflow → EventCode
unfolding audit_action_for
workflow_action w = audit_action_for w.type w.action w.payload

-- `id ? { … } : {}`: an id of 0 is falsy.
abbrev pub truthy : Option ℕ → Option ℕ
truthy none = none
truthy (some n) = if n == 0 then none else some n

abbrev pub no_details : Details
no_details = record {
  superseded_by_workflow_id = none;
  superseded_by_operation_id = none;
  failed_step = none;
  reason = none;
  error = none;
}

-- The row of an event of `w`'s operation, with the scope of its payload (`workflowEventScope`).
unfoldable pub event_of : Workflow → EventCode → Outcome → Details → Event
event_of w event_code outcome details = record {
  event_code = event_code;
  outcome = outcome;
  operation_id = some w.correlation_id;
  workflow_id = some w.id;
  request_id = some w.payload.id;
  team_id = truthy w.payload.team_id;
  organization_id = truthy w.payload.organization_id;
  details = details;
}

abbrev pub is_operation : String → Option String → Bool
is_operation operation none = false
is_operation operation (some text) = text == operation

-- The rows that make an event a repetition: any terminal outcome for a terminal one, else the same
-- outcome.
unfoldable pub answers : String → EventCode → Bool → Outcome → Event → Bool
answers operation event_code terminal outcome e =
    is_operation operation e.operation_id
    && (e.event_code == event_code
        && (if terminal then is_terminal_outcome e.outcome else e.outcome == outcome))

-- `recordWorkflowEvent`; `step` says that the event is the `request-plan` step's.
unfoldable pub record_workflow_event :
    (Db → Bool) → Workflow → Bool → Outcome → Details → Db → Option Db
record_workflow_event fails w step outcome details d =
    let event_code = if step then EventCode.request_plan else workflow_action w in
    let terminal = not step && is_terminal_outcome outcome in
    if not (is_uuid w.correlation_id)
    then some d
    else if ltb 0 (count (answers w.correlation_id event_code terminal outcome) d.events)
    then some d
    else if fails d
    then none
    else some (record d { events = d.events ++ (event_of w event_code outcome details ∷ []) })

-- `bestEffort`: an event that cannot be written is given up.
abbrev pub best_effort : Db → Option Db → Db
best_effort d written = or_else written d

-- What a superseded operation's event names: the workflow (if it has one) and operation that won.
abbrev pub superseded_by : Option ℕ → String → Details
superseded_by workflow_id operation_id = record no_details {
  superseded_by_workflow_id = workflow_id;
  superseded_by_operation_id = some operation_id;
}

-- `recordSuperseded`: the loop stops at the first event that cannot be written.
unfoldable pub record_superseded : (Db → Bool) → List Workflow → Option ℕ → String → Db → Option Db
record_superseded fails [] by_workflow by_operation d = some d
record_superseded fails (w ∷ ws) by_workflow by_operation d =
    elim (record_workflow_event fails w false Outcome.superseded
      (superseded_by by_workflow by_operation) d) [
        | none ↦ none
        | some d' ↦ record_superseded fails ws by_workflow by_operation d'
      ]

-- `recordAdoptedSubmission`: always written, under the winner's action.
unfoldable pub record_adopted_submission :
    (Db → Bool) → String → ℕ → String → EventCode → Payload → Db → Option Db
record_adopted_submission fails operation winner winner_operation event_code p d =
    if fails d
    then none
    else some (record d {
      events =
          d.events
          ++ (record {
            event_code = event_code;
            outcome = Outcome.superseded;
            operation_id = some operation;
            workflow_id = some winner;
            request_id = some p.id;
            team_id = truthy p.team_id;
            organization_id = truthy p.organization_id;
            details = superseded_by (some winner) winner_operation;
          }
              ∷ []);
    })

-- `APPLY_ACTIONS.includes(eventCode)`.
abbrev pub is_apply_action : EventCode → Bool
is_apply_action EventCode.request_create = true
is_apply_action EventCode.request_update = true
is_apply_action EventCode.api_account_create = true
is_apply_action _ = false

abbrev pub failed_at_plan : Option StepName → Bool
failed_at_plan none = false
failed_at_plan (some name) = is_step name StepName.plan

abbrev pub is_for : ℕ → Option ℕ → Bool
is_for r none = false
is_for r (some n) = n == r

abbrev pub is_apply_outcome : ℕ → Bool → Event → Bool
is_apply_outcome r success_only e =
    is_for r e.request_id
    && ((e.event_code == EventCode.request_apply
          && (not success_only || e.outcome == Outcome.success))
        || (is_apply_action e.event_code
            && (is_some e.workflow_id
                && ((e.outcome == Outcome.success
                      || (not success_only && e.outcome == Outcome.failure))
                    && not (failed_at_plan e.details.failed_step)))))

-- `countApplyOutcomes`.
unfoldable pub count_apply_outcomes : ℕ → Bool → Db → ℕ
count_apply_outcomes r success_only d = count (is_apply_outcome r success_only) d.events
