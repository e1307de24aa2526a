-- ===== src/Workflow/Audit/Laws.antt =====
-- The audit record of the engine (app/workflow/audit.ts): the terminal outcomes of an operation, and
-- the tables that recording an event leaves alone.
use sso_requests.Base.{
  ℕ, suc, ◌<◌, sym, ◌≢◌, ◌≡◌, refl, ◌≤◌, Bool, true, false, ◌&&◌, not, List, [], ◌∷◌, ◌++◌, Option,
  some, String, arith, count, count-append, ltb, if◌then◌else◌, Bool-cases, inl, inr, Option-cases,
  ◌==◌, string_eq,
}
use sso_requests.Workflow.Types.{
  EventCode, event_code_eq, event_code_beq_iff, Outcome, outcome_eq, is_terminal_outcome, Details,
  Event, Workflow, Db,
}
use sso_requests.Workflow.Audit.{
  is_uuid, workflow_action, event_of, is_operation, answers, record_workflow_event,
  record_superseded, superseded_by,
}

-- Recording an event changes no other table and not the clock.
pub record IsEventsOnly (d d' : Db) : Type 0 where
  pub workflows : d'.workflows ≡ d.workflows
  pub steps : d'.steps ≡ d.steps
  pub failures : d'.failures ≡ d.failures
  pub statuses : d'.statuses ≡ d.statuses
  pub now : d'.now ≡ d.now
  pub next_id : d'.next_id ≡ d.next_id
  pub kickoffs : d'.kickoffs ≡ d.kickoffs
  pub alerts : d'.alerts ≡ d.alerts

pub record_workflow_event-IsEventsOnly :
    (fails : Db → Bool) (w : Workflow) (step : Bool) (o : Outcome) (x : Details) (d d' : Db)
    → record_workflow_event fails w step o x d ≡ some d'
    → IsEventsOnly d d'
unfolding record_workflow_event
record_workflow_event-IsEventsOnly fails w step o x d d' h = ground arith

pub record_superseded-IsEventsOnly :
    (fails : Db → Bool) (ws : List Workflow) (i : Option ℕ) (op : String) (d d' : Db)
    → record_superseded fails ws i op d ≡ some d'
    → IsEventsOnly d d'
unfolding record_superseded
record_superseded-IsEventsOnly fails [] i op d d' h = ground arith
record_superseded-IsEventsOnly fails (w ∷ ws) i op d d' h =
    elim (Option-cases
      (record_workflow_event fails w false Outcome.superseded (superseded_by i op) d)) [
        | inl stopped ↦ ground (arith, stopped)
        | inr (d₁, written) ↦
            let a =
              record_workflow_event-IsEventsOnly fails w false Outcome.superseded
                (superseded_by i op) d d₁ written in
            let b =
              record_superseded-IsEventsOnly fails ws i op d₁ d'
                (rw (written, record_superseded) at h) in
            ground (arith, a, b)
      ]

-- The terminal outcomes of an operation under an action.
abbrev pub terminal_outcomes : String → EventCode → Event → Bool
terminal_outcomes op code e =
    is_operation op e.operation_id && (e.event_code == code && is_terminal_outcome e.outcome)

-- No operation has two terminal outcomes under one action. (The plan step is no action: it may fail
-- and then succeed.)
abbrev pub IsAnsweredOnce : List Event → Type 0
IsAnsweredOnce es =
    (op : String) (code : EventCode)
    → code ≢ EventCode.request_plan
    → count (terminal_outcomes op code) es ≤ 1

event_of_fields :
    (w : Workflow) (op : String) (code event_code : EventCode) (o : Outcome) (x : Details)
    → terminal_outcomes op code (event_of w event_code o x) ≡ true
    → (w.correlation_id ≡ op) × (event_code ≡ code) × (is_terminal_outcome o ≡ true)
unfolding event_of
event_of_fields w op code event_code o x h = (
  (string_eq.beq_iff w.correlation_id op).0 (ground arith),
  (event_code_beq_iff event_code code).0 (ground arith),
  ground arith,
)

-- Adding a row keeps the count of a test, or raises it by one where the row passes.
pub count-append_one :
    {A : Type 0} (q : A → Bool) (xs : List A) (a : A)
    → count q (xs ++ (a ∷ [])) ≡ (if q a then suc (count q xs) else count q xs)
count-append_one q xs a = ground (arith, count-append q xs (a ∷ []))

append_event :
    (w : Workflow) (step : Bool) (o : Outcome) (x : Details) (es : List Event)
    → IsAnsweredOnce es
    → count
        (answers w.correlation_id
          (if step then EventCode.request_plan else workflow_action w)
          (not step && is_terminal_outcome o)
          o)
        es
      ≡ 0
    → IsAnsweredOnce
        (es ++ (event_of w (if step then EventCode.request_plan else workflow_action w) o x ∷ []))
unfolding answers
append_event w true o x es once fresh op code n =
    rw (count-append_one (terminal_outcomes op code) es (event_of w EventCode.request_plan o x))
      (elim (Bool-cases (terminal_outcomes op code (event_of w EventCode.request_plan o x))) [
        | inl hit ↦ absurd (n (sym ((event_of_fields w op code EventCode.request_plan o x hit).1)))
        | inr miss ↦ rw miss (once op code n)
      ])
append_event w false o x es once fresh op code n =
    rw (count-append_one (terminal_outcomes op code) es (event_of w (workflow_action w) o x))
      (elim (Bool-cases (terminal_outcomes op code (event_of w (workflow_action w) o x))) [
        | inl hit ↦
            let (same_op, same_code, final) =
              event_of_fields w op code (workflow_action w) o x hit in
            rw hit (omega (arith, first same_op same_code final))
        | inr miss ↦ rw miss (once op code n)
      ])
  where
    first :
        w.correlation_id ≡ op
        → workflow_action w ≡ code
        → is_terminal_outcome o ≡ true
        → count (terminal_outcomes op code) es ≡ 0
    first p q r = rw (← p, ← q) (rw r at fresh)

-- Recording an event, of whatever outcome, step and workflow, keeps every operation answered at most
-- once.
pub record_workflow_event-IsAnsweredOnce :
    (fails : Db → Bool) (w : Workflow) (step : Bool) (o : Outcome) (x : Details) (d d' : Db)
    → IsAnsweredOnce d.events
    → record_workflow_event fails w step o x d ≡ some d'
    → IsAnsweredOnce d'.events
unfolding record_workflow_event
record_workflow_event-IsAnsweredOnce fails w step o x d d' once h =
    elim (Bool-cases (is_uuid w.correlation_id)) [
      | inr bad ↦ let e : d ≡ d' = ground (arith, bad) in rw (← e) once
      | inl good ↦
          elim (Bool-cases (
            ltb 0 (
              count
                (answers w.correlation_id
                  (if step then EventCode.request_plan else workflow_action w)
                  (not step && is_terminal_outcome o) o)
                d.events))) [
                  | inl old ↦ let e : d ≡ d' = ground (arith, good, old) in rw (← e) once
                  | inr fresh ↦
                      let e : d.events
                            ++ (event_of w
                                  (if step then EventCode.request_plan else workflow_action w) o x
                                ∷ [])
                          ≡ d'.events =
                        ground (arith, good, fresh) in
                      rw (← e) (append_event w step o x d.events once (ground (arith, fresh)))
                ]
    ]

answers_own :
    (w : Workflow) (o : Outcome) (x : Details)
    → is_terminal_outcome o ≡ true
    → terminal_outcomes w.correlation_id (workflow_action w) (event_of w (workflow_action w) o x)
      ≡ true
unfolding event_of
answers_own w o x h = ground (
  arith,
  (string_eq.beq_iff w.correlation_id w.correlation_id).1 refl,
  (event_code_beq_iff (workflow_action w) (workflow_action w)).1 refl,
)

-- A recorded terminal outcome is among the events.
record_workflow_event_present :
    (fails : Db → Bool) (w : Workflow) (o : Outcome) (x : Details) (d d' : Db)
    → is_uuid w.correlation_id ≡ true
    → is_terminal_outcome o ≡ true
    → record_workflow_event fails w false o x d ≡ some d'
    → 0 < count (terminal_outcomes w.correlation_id (workflow_action w)) d'.events
unfolding record_workflow_event answers
record_workflow_event_present fails w o x d d' good final h =
    elim (Bool-cases
      (ltb 0 (count (terminal_outcomes w.correlation_id (workflow_action w)) d.events))) [
        | inl old ↦
            let e : d ≡ d' = ground (arith, good, old, final) in rw (← e) (ground (arith, old))
        | inr fresh ↦
            let e : d.events ++ (event_of w (workflow_action w) o x ∷ []) ≡ d'.events =
              ground (arith, good, fresh, final) in
            rw (← e) (
              rw
                (count-append_one (terminal_outcomes w.correlation_id (workflow_action w)) d.events
                  (event_of w (workflow_action w) o x))
                (rw (answers_own w o x final) (omega arith)))
      ]

-- An operation that has its terminal outcome keeps it: once one is recorded, recording any terminal
-- outcome again, a replay after a crash or a supersede racing a finish, changes nothing. (The
-- correlation id is a UUID.)
pub record_workflow_event_replay :
    (fails : Db → Bool) (w : Workflow) (o p : Outcome) (x y : Details) (d d' : Db)
    → is_uuid w.correlation_id ≡ true
    → is_terminal_outcome o ≡ true
    → is_terminal_outcome p ≡ true
    → record_workflow_event fails w false o x d ≡ some d'
    → record_workflow_event fails w false p y d' ≡ some d'
record_workflow_event_replay fails w o p x y d d' good final again h =
    let there = record_workflow_event_present fails w o x d d' good final h in
    unfold record_workflow_event answers in ground (arith, good, again, there)
