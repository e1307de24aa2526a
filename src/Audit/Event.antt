-- ===== src/Audit/Event.antt =====
-- packages/audit/src/event.ts: the row that an event becomes; and describeError of details.ts. The
-- action of an event is its text.
use sso_requests.Base.{
  ℕ, zero, suc, Bool, true, ◌&&◌, not, List, [], ◌∷◌, Option, none, some, String, string_eq, ◌==◌,
  if◌then◌else◌, text_append, ltb,
}
use sso_requests.Workflow.Types.{Outcome, outcome_eq}
use sso_requests.Audit.Actor.{Actor}

-- What was thrown, as `describeError` reads it: its message, its name unless that is `Error`, and the
-- first numeric status.
pub record ThrownError : Type 0 where
  pub message : String
  pub name : Option String
  pub status : Option ℕ

abbrev pub max_error_message : ℕ
max_error_message = 500

abbrev pub text_length : String → ℕ
text_length String.[] = 0
text_length (String.◌∷◌ c s) = suc (text_length s)

abbrev pub text_take : ℕ → String → String
text_take zero s = ""
text_take (suc n) String.[] = ""
text_take (suc n) (String.◌∷◌ c s) = String.◌∷◌ c (text_take n s)

-- `describeError`: the message is cut.
unfoldable pub describe_error : ThrownError → ThrownError
describe_error err = record err {
  message =
      if ltb max_error_message (text_length err.message)
      then text_append (text_take max_error_message err.message) "…"
      else err.message;
}

-- A value of an event's details.
pub data Detail : Type 0 where
  text : String → Detail
  number : ℕ → Detail
  flag : Bool → Detail
  error : ThrownError → Detail

abbrev pub Details : Type 0
Details = List (String × Detail)

-- `{ ...details, [key]: value }`.
unfoldable pub put : String → Detail → Details → Details
put key value [] = (key, value) ∷ []
put key value ((k, v) ∷ details) =
    if k == key then (k, value) ∷ details else (k, v) ∷ put key value details

-- `{ ...details, ...more }`.
unfoldable pub spread_details : Details → Details → Details
unfolding put
spread_details details [] = details
spread_details details ((k, v) ∷ more) = spread_details (put k v details) more

-- `AuditOperation`: an event but for its outcome.
pub record AuditOperation : Type 0 where
  pub action : String
  pub operation_id : Option String
  pub parent_operation_id : Option String
  pub request_id : Option ℕ
  pub team_id : Option ℕ
  pub organization_id : Option ℕ
  pub workflow_id : Option String
  pub target : Option (String × String)
  pub environment : Option String
  pub details : Details

-- `AuditEvent`.
pub record AuditEvent : Type 0 where
  pub operation : AuditOperation
  pub outcome : Outcome

-- `AuditEventRow`.
pub record AuditEventRow : Type 0 where
  pub event_code : String
  pub outcome : Outcome
  pub operation_id : Option String
  pub parent_operation_id : Option String
  pub request_id : Option ℕ
  pub team_id : Option ℕ
  pub organization_id : Option ℕ
  pub workflow_id : Option String
  pub target_type : Option String
  pub target_id : Option String
  pub environment : Option String
  pub actor_type : String
  pub actor_id : String
  pub idir_userid : Option String
  pub idir_user_display_name : Option String
  pub req_id : Option String
  pub details : Details

abbrev pub first {ℓ κ} : {A : Type ℓ} {B : Type κ} → Option (A × B) → Option A
first none = none
first (some (a, b)) = some a

abbrev pub second {ℓ κ} : {A : Type ℓ} {B : Type κ} → Option (A × B) → Option B
second none = none
second (some (a, b)) = some b

abbrev pub actor_type : Actor → String
actor_type (Actor.user id name) = "user"
actor_type (Actor.service_account id team) = "service-account"
actor_type (Actor.system id) = "system"

abbrev pub actor_id : Actor → String
actor_id (Actor.user id name) = id
actor_id (Actor.service_account id team) = id
actor_id (Actor.system id) = id

abbrev pub user_of : Actor → Option (String × String)
user_of (Actor.user id name) = some (id, name)
user_of _ = none

-- `!event.operationId`: an empty id is falsy.
abbrev pub lacks_id : Option String → Bool
lacks_id none = true
lacks_id (some id) = id == ""

-- `toAuditEventRow`; `none` is its error.
unfoldable pub to_audit_event_row : AuditEvent → Actor → Option String → Option AuditEventRow
to_audit_event_row event actor req_id =
    let o = event.operation in
    if not (event.outcome == Outcome.success) && lacks_id o.operation_id
    then none
    else some (record {
      event_code = o.action;
      outcome = event.outcome;
      operation_id = o.operation_id;
      parent_operation_id = o.parent_operation_id;
      request_id = o.request_id;
      team_id = o.team_id;
      organization_id = o.organization_id;
      workflow_id = o.workflow_id;
      target_type = first o.target;
      target_id = second o.target;
      environment = o.environment;
      actor_type = actor_type actor;
      actor_id = actor_id actor;
      idir_userid = first (user_of actor);
      idir_user_display_name = second (user_of actor);
      req_id = req_id;
      details = o.details;
    })
