-- ===== src/Audit/Writer.antt =====
-- packages/audit/src/writer.ts: writing events, and an audited operation. The database and the outside
-- world are a log of what happened, in order; which inserts and commits fail, what the calls return
-- and what the mirror writes throw are arguments.
pub mod Laws
pub mod Tally
pub mod Settling
use sso_requests.Base.{
  ℕ, suc, ◌+◌, Bool, true, false, ◌&&◌, List, [], ◌∷◌, ◌++◌, Option, none, some, String,
  if◌then◌else◌, ◌==◌, string_eq,
}
use sso_requests.Workflow.Types.{Outcome}
use sso_requests.Audit.Actor.{Actor, AuditContext, current_actor, current_req_id}
use sso_requests.Audit.Event.{
  ThrownError, describe_error, Detail, Details, spread_details, AuditOperation, AuditEvent,
  AuditEventRow, to_audit_event_row,
}

-- What happened: a row was committed, an event could not be written (the log line
-- `audit_event_write_failed`), the call of an operation started, its mirror writes were committed.
pub data Happening : Type 0 where
  stored : AuditEventRow → Happening
  alerted : AuditEvent → Happening
  called : Option String → Happening
  mirrored : Option String → Happening

-- `attempts` counts the inserts, `commits` the transactions, and `next` the ids that were made.
pub record World : Type 0 where
  pub log : List Happening
  pub attempts : ℕ
  pub commits : ℕ
  pub next : ℕ

-- `AuditWriterOptions` and the audit context.
pub record Surroundings : Type 0 where
  pub context : Option AuditContext
  pub create_fails : ℕ → Bool
  pub commit_fails : ℕ → Bool
  pub new_operation_id : ℕ → String

abbrev pub happens : List Happening → World → World
happens hs w = record w { log = w.log ++ hs }

abbrev pub row_of : Surroundings → AuditEvent → Option AuditEventRow
row_of s event = elim (current_actor s.context) [
  | none ↦ none
  | some actor ↦ to_audit_event_row event actor (current_req_id s.context)
]

abbrev pub insert_error : ThrownError
insert_error = record { message = "the event was not written"; name = none; status = none }

-- `createEvent` in a transaction that has staged some rows.
unfoldable pub create_event_in :
    Surroundings → AuditEvent → List AuditEventRow → World → Option (List AuditEventRow) × World
create_event_in s event staged w = elim (row_of s event) [
  | none ↦ (none, happens (alerted event ∷ []) w)
  | some row ↦
      let w' = record w { attempts = suc w.attempts } in
      if s.create_fails w.attempts
      then (none, happens (alerted event ∷ []) w')
      else (some (staged ++ (row ∷ [])), w')
]

abbrev pub stored_all : List AuditEventRow → List Happening
stored_all [] = []
stored_all (row ∷ rows) = stored row ∷ stored_all rows

-- `createEvent` by itself: the row is committed at once. Whether it was written.
unfoldable pub try_create_event : Surroundings → AuditEvent → World → Bool × World
unfolding create_event_in
try_create_event s event w =
    let (staged, w') = create_event_in s event [] w in
    elim staged [ none ↦ (false, w') | some rows ↦ (true, happens (stored_all rows) w') ]

-- The end of a transaction: what it did happens now, or not at all.
unfoldable pub commit : Surroundings → List Happening → World → Bool × World
commit s hs w =
    let w' = record w { commits = suc w.commits } in
    if s.commit_fails w.commits then (false, w') else (true, happens hs w')

-- `withOutcome`.
unfoldable pub with_outcome : AuditOperation → Outcome → Details → AuditEvent
with_outcome operation outcome details = record {
  operation = record operation { details = spread_details operation.details details };
  outcome = outcome;
}

-- `withOperationId`: an id that is given is kept, and an empty parent id is none.
unfoldable pub with_operation_id :
    Surroundings → AuditOperation → Option String → World → AuditOperation × World
with_operation_id s operation parent w =
    let parent_id : Option String = elim parent [
      | none ↦ operation.parent_operation_id
      | some p ↦ if p == "" then operation.parent_operation_id else some p
    ] in
    elim operation.operation_id [
      | some id ↦ (record operation { parent_operation_id = parent_id }, w)
      | none ↦ (
        record operation {
          operation_id = some (s.new_operation_id w.next);
          parent_operation_id = parent_id;
        },
        record w { next = suc w.next },
      )
    ]

pub data Result (A : Type 0) : Type 0 where
  fulfilled : A → Result A
  rejected : ThrownError → Result A

-- `BatchItem`: the operation, its call, the mirror writes of `onSuccess` with the error that they
-- throw, if any, and `successDetails`.
pub record Item (A : Type 0) : Type 0 where
  pub operation : AuditOperation
  pub call : World → Result A
  pub on_success : World → A → Option ThrownError
  pub success_details : A → Details

-- How far the settling of an operation has come: its call has not started; it has returned; its
-- mirror writes or its `success` row were not committed; its outcome is written.
pub data SettlePhase (A : Type 0) : Type 0 where
  waiting : SettlePhase A
  answered : Result A → SettlePhase A
  unsynced : ThrownError → SettlePhase A
  finished : Result A → SettlePhase A

pub record Child (A : Type 0) : Type 0 where
  pub item : Item A
  pub phase : SettlePhase A

abbrev pub id_of : {A : Type 0} → Child A → Option String
id_of c = c.item.operation.operation_id

-- The details of the two failures.
abbrev pub call_failed : ThrownError → Details
call_failed err = ("error", Detail.error (describe_error err)) ∷ []

abbrev pub sync_failed : ThrownError → Details
sync_failed err =
    ("error", Detail.error (describe_error err))
    ∷ ("stage", Detail.text "local-sync")
    ∷ ("keycloakApplied", Detail.flag true)
    ∷ []

-- The transaction of a success: the mirror writes and the `success` row. The error, if there is one.
unfoldable pub sync : {A : Type 0} → Surroundings → Item A → A → World → Option ThrownError × World
unfolding create_event_in commit
sync s item a w = elim (item.on_success w a) [
  | some err ↦ (some err, w)
  | none ↦
      let event = with_outcome item.operation Outcome.success (item.success_details a) in
      let (staged, w') = create_event_in s event [] w in
      elim staged [
        | none ↦ (some insert_error, w')
        | some rows ↦
            let (committed, w'') =
              commit s (mirrored item.operation.operation_id ∷ stored_all rows) w' in
            (if committed then none else some insert_error, w'')
      ]
]

-- One step of `settle`, between two of its awaits.
unfoldable pub settle_step : {A : Type 0} → Surroundings → Child A → World → Child A × World
unfolding try_create_event sync
settle_step s c w = elim c.phase [
  | waiting ↦
      let w' = happens (called c.item.operation.operation_id ∷ []) w in
      (record c { phase = answered (c.item.call w') }, w')
  | answered r ↦ elim r [
    | rejected err ↦ (
      record c { phase = finished (rejected err) },
      (try_create_event s (with_outcome c.item.operation Outcome.failure (call_failed err)) w).1,
    )
    | fulfilled a ↦
        let (err, w') = sync s c.item a w in
        (record c { phase = elim err [ none ↦ finished (fulfilled a) | some e ↦ unsynced e ] }, w')
  ]
  | unsynced err ↦ (
    record c { phase = finished (rejected err) },
    (try_create_event s (with_outcome c.item.operation Outcome.failure (sync_failed err)) w).1,
  )
  | finished r ↦ (c, w)
]

-- `settle`: three steps finish it.
unfoldable pub settle : {A : Type 0} → Surroundings → Child A → World → Child A × World
unfolding settle_step
settle s c w =
    let (c₁, w₁) = settle_step s c w in let (c₂, w₂) = settle_step s c₁ w₁ in settle_step s c₂ w₂

abbrev pub result_of : {A : Type 0} → SettlePhase A → Result A
result_of (finished r) = r
result_of (answered r) = r
result_of (unsynced err) = rejected err
result_of waiting = rejected insert_error

-- The transaction of the `requested` rows: whether they were all committed.
unfoldable pub request_all :
    Surroundings → List AuditOperation → List AuditEventRow → World → Bool × World
unfolding create_event_in commit
request_all s [] staged w = commit s (stored_all staged) w
request_all s (op ∷ ops) staged w =
    let (staged', w') = create_event_in s (with_outcome op Outcome.requested []) staged w in
    elim staged' [ none ↦ (false, w') | some rows ↦ request_all s ops rows w' ]

-- `runAuditedOperation`; where the `requested` row is not stored, nothing is called.
unfoldable pub run_audited_operation :
    {A : Type 0} → Surroundings → Item A → World → Result A × World
unfolding request_all settle
run_audited_operation s item w =
    let (op, w₁) = with_operation_id s item.operation none w in
    let (requested, w₂) = request_all s (op ∷ []) [] w₁ in
    if requested
    then (let (c, w₃) =
          settle s (record { item = record item { operation = op }; phase = waiting }) w₂ in
        (result_of c.phase, w₃))
    else (rejected insert_error, w₂)
