-- ===== src/Audit/Writer/Laws.antt =====
-- What the inserts and the transactions of packages/audit/src/writer.ts add to the log.
use sso_requests.Base.{
  ◌≡◌, refl, true, false, List, [], ◌∷◌, ◌++◌, Option, none, some, String, arith, Option-cases,
  Bool-cases, ◌⊎◌, inl, inr,
}
use sso_requests.Workflow.Types.{Outcome, outcome_eq}
use sso_requests.Audit.Event.{ThrownError, AuditEvent, AuditEventRow, to_audit_event_row}
use sso_requests.Audit.Actor.{Actor, current_actor, current_req_id}
use sso_requests.Audit.Writer.{
  row_of, create_event_in, stored, alerted, mirrored, World, Surroundings, create_event_in,
  try_create_event, commit, with_outcome, Item, sync, insert_error,
}

-- The row of an event has its operation and its outcome.
pub record IsRowOf (event : AuditEvent) (row : AuditEventRow) : Type 0 where
  pub same_operation : row.operation_id ≡ event.operation.operation_id
  pub same_outcome : row.outcome ≡ event.outcome

to_audit_event_row-IsRowOf :
    (event : AuditEvent) (a : Actor) (r : Option String) (row : AuditEventRow)
    → to_audit_event_row event a r ≡ some row
    → IsRowOf event row
unfolding to_audit_event_row
to_audit_event_row-IsRowOf event a r row h = ground arith

-- An insert is staged or alerts.
pub create_event_in-cases :
    (s : Surroundings) (event : AuditEvent) (staged : List AuditEventRow) (w : World)
    → (((create_event_in s event staged w).0 ≡ none)
        × ((create_event_in s event staged w).1.log ≡ w.log ++ alerted event ∷ []))
      ⊎ ((row : AuditEventRow) × ((create_event_in s event staged w).0 ≡ some (staged ++ row ∷ []))
          × ((create_event_in s event staged w).1.log ≡ w.log)
          × IsRowOf event row)
unfolding create_event_in
create_event_in-cases s event staged w = elim (Option-cases (current_actor s.context)) [
  | inl missing ↦ inl (rw (missing, create_event_in) refl, rw (missing, create_event_in) refl)
  | inr (a, acting) ↦ elim (Option-cases (to_audit_event_row event a (current_req_id s.context))) [
    | inl invalid ↦ inl (ground arith, ground arith)
    | inr (row, valid) ↦ elim (Bool-cases (s.create_fails w.attempts)) [
      | inl fail ↦ inl (ground arith, ground arith)
      | inr fine ↦
          inr (row, ground arith, ground arith, to_audit_event_row-IsRowOf event a _ row valid)
    ]
  ]
]

-- An event that is written by itself is stored, or there is the alert.
pub try_create_event-cases :
    (s : Surroundings) (event : AuditEvent) (w : World)
    → (((try_create_event s event w).0 ≡ false)
        × ((try_create_event s event w).1.log ≡ w.log ++ alerted event ∷ []))
      ⊎ ((row : AuditEventRow) × ((try_create_event s event w).0 ≡ true)
          × ((try_create_event s event w).1.log ≡ w.log ++ stored row ∷ [])
          × IsRowOf event row)
unfolding try_create_event
try_create_event-cases s event w = elim (create_event_in-cases s event [] w) [
  | inl (e, l) ↦ inl (ground arith, ground arith)
  | inr (row, e, l, r) ↦ inr (row, ground arith, ground arith, r)
]

-- Why the row of an event is not there: it cannot be made, for want of an actor or an id, or this insert fails.
abbrev pub FailsToStore : Surroundings → AuditEvent → World → Type 0
FailsToStore s event w = (row_of s event ≡ none) ⊎ (s.create_fails w.attempts ≡ true)

pub try_create_event-FailsToStore :
    (s : Surroundings) (event : AuditEvent) (w : World)
    → (try_create_event s event w).0 ≡ false
    → FailsToStore s event w
unfolding try_create_event create_event_in
try_create_event-FailsToStore s event w h = elim (Option-cases (row_of s event)) [
  | inl no_row ↦ inl no_row
  | inr (row, made) ↦ elim (Bool-cases (s.create_fails w.attempts)) [
    | inl lost ↦ inr lost
    | inr kept ↦ absurd (ground (arith, h, made, kept))
  ]
]

-- What an audited operation succeeds with, as an event.
abbrev pub success_of : {A : Type 0} → Item A → A → AuditEvent
success_of item a = with_outcome item.operation Outcome.success (item.success_details a)

-- The transaction of a success writes all of it or, but for the alert, nothing.
pub sync-cases :
    {A : Type 0} (s : Surroundings) (item : Item A) (a : A) (w : World)
    → ((row : AuditEventRow) × ((sync s item a w).0 ≡ none)
        × ((sync s item a w).1.log
            ≡ w.log ++ mirrored item.operation.operation_id ∷ stored row ∷ [])
        × IsRowOf (success_of item a) row)
      ⊎ ((err : ThrownError) × ((sync s item a w).0 ≡ some err)
          × (((sync s item a w).1.log ≡ w.log)
              ⊎ ((sync s item a w).1.log ≡ w.log ++ alerted (success_of item a) ∷ [])))
unfolding sync commit
sync-cases s item a w = elim (Option-cases (item.on_success w a)) [
  | inr (err, mirror) ↦ inr (err, ground arith, inl (ground arith))
  | inl fine ↦ elim (create_event_in-cases s (success_of item a) [] w) [
    | inl (e, l) ↦ inr (insert_error, ground arith, inr (ground arith))
    | inr (row, e, l, r) ↦
        elim (Bool-cases (s.commit_fails (create_event_in s (success_of item a) [] w).1.commits)) [
          | inl lost ↦ inr (insert_error, ground arith, inl (ground arith))
          | inr kept ↦ inl (row, ground arith, ground arith, r)
        ]
  ]
]
