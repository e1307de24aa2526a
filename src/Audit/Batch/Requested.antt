-- ===== src/Audit/Batch/Requested.antt =====
-- The `requested` rows of packages/audit/src/writer.ts: one transaction in front of every call.
use sso_requests.Base.{
  ℕ, ◌≡◌, refl, Bool, true, false, List, [], ◌∷◌, ◌++◌, Option, String, arith, ◌⊎◌, inl, inr,
  Bool-cases, Option-cases, ap, subst, ◌∙◌, string_eq,
}
use sso_requests.Workflow.Types.{Outcome}
use sso_requests.Audit.Event.{AuditOperation, AuditEvent, AuditEventRow}
use sso_requests.Audit.Writer.{
  World, Surroundings, Happening, alerted, stored_all, create_event_in, commit, request_all,
  with_outcome, with_operation_id, Item,
}
use sso_requests.Audit.Writer.Laws.{create_event_in-cases}
use sso_requests.Audit.Writer.Tally.{Tally, Tally-append, calls_of, successes_of, failures_of}
use sso_requests.Audit.Batch.{children_of}
use sso_requests.Audit.Batch.Tally.{total}

-- The `requested` rows of some operations, in order.
abbrev pub RequestedRows : List AuditOperation → List AuditEventRow → Type 0
RequestedRows [] [] = Unit
RequestedRows [] (row ∷ rows) = ⊥
RequestedRows (op ∷ ops) [] = ⊥
RequestedRows (op ∷ ops) (row ∷ rows) =
    (row.operation_id ≡ op.operation_id)
    × (row.outcome ≡ Outcome.requested)
    × RequestedRows ops rows

append_assoc_one {ℓ} :
    {A : Type ℓ} (xs : List A) (y : A) (zs : List A) → (xs ++ y ∷ []) ++ zs ≡ xs ++ y ∷ zs
append_assoc_one [] y zs = refl
append_assoc_one (x ∷ xs) y zs = ap (λ l. x ∷ l) (append_assoc_one xs y zs)

append_nil {ℓ} : {A : Type ℓ} (xs : List A) → xs ++ [] ≡ xs
append_nil [] = refl
append_nil (x ∷ xs) = ap (λ l. x ∷ l) (append_nil xs)

-- Nothing but, at most, the alert of a `requested` row.
abbrev pub IsRefused : List Happening → List Happening → Type 0
IsRefused log log' =
    (log' ≡ log)
    ⊎ ((event : AuditEvent) × (log' ≡ log ++ alerted event ∷ [])
        × (event.outcome ≡ Outcome.requested))

requested_event :
    (op : AuditOperation)
    → ((with_outcome op Outcome.requested []).operation.operation_id ≡ op.operation_id)
      × ((with_outcome op Outcome.requested []).outcome ≡ Outcome.requested)
unfolding with_outcome
requested_event op = (refl, refl)

IsRefused-subst :
    (log log₁ log₂ : List Happening) → log₁ ≡ log → IsRefused log₁ log₂ → IsRefused log log₂
IsRefused-subst log log₁ log₂ e h = subst (λ l. IsRefused l log₂) e h

-- The rows are all committed, or nothing is.
pub request_all-cases :
    (s : Surroundings) (ops : List AuditOperation) (staged : List AuditEventRow) (w : World)
    → (((request_all s ops staged w).0 ≡ true)
        × (rows : List AuditEventRow) × ((request_all s ops staged w).1.log
            ≡ w.log ++ stored_all (staged ++ rows))
        × RequestedRows ops rows)
      ⊎ (((request_all s ops staged w).0 ≡ false)
          × IsRefused w.log (request_all s ops staged w).1.log)
unfolding request_all commit
request_all-cases s [] staged w = elim (Bool-cases (s.commit_fails w.commits)) [
  | inl lost ↦ inr (ground arith, inl (ground arith))
  | inr kept ↦ inl (ground arith, [], ground (arith, append_nil staged), tt)
]
request_all-cases s (op ∷ ops) staged w =
    let event = with_outcome op Outcome.requested [] in
    elim (create_event_in-cases s event staged w) [
      | inl (e, l) ↦ inr (ground arith, inr (event, ground arith, (requested_event op).1))
      | inr (row, e, l, r) ↦
          elim (request_all-cases s ops (staged ++ row ∷ []) (create_event_in s event staged w).1) [
            | inl (e', rows, l', rs) ↦ inl (
              ground arith,
              row ∷ rows,
              ground (arith, append_assoc_one staged row rows),
              (
                r.same_operation ∙ (requested_event op).0,
                r.same_outcome ∙ (requested_event op).1,
                rs,
              ),
            )
            | inr (e', refused) ↦
                inr (ground arith, rw (e, request_all) (IsRefused-subst w.log _ _ l refused))
          ]
    ]

RequestedRows-Tally :
    (p : String → Bool) (ops : List AuditOperation) (rows : List AuditEventRow)
    → RequestedRows ops rows
    → Tally p (stored_all rows) 0 0 0
RequestedRows-Tally p [] [] h = ground arith
RequestedRows-Tally p (op ∷ ops) (row ∷ rows) h =
    ground (arith, h.1, RequestedRows-Tally p ops rows h.2)
RequestedRows-Tally p [] (row ∷ rows) h = absurd h
RequestedRows-Tally p (op ∷ ops) [] h = absurd h

-- No `requested` row is in the tally of calls and outcomes.
pub request_all-Tally :
    (s : Surroundings) (p : String → Bool) (ops : List AuditOperation) (w : World) (i j k : ℕ)
    → Tally p w.log i j k
    → Tally p (request_all s ops [] w).1.log i j k
request_all-Tally s p ops w i j k t = elim (request_all-cases s ops [] w) [
  | inl (e, rows, l, rs) ↦ ground (
    arith,
    Tally-append p w.log _ (stored_all rows) i j k 0 0 0 l t (RequestedRows-Tally p ops rows rs),
  )
  | inr (e, inl l) ↦ ground arith
  | inr (e, inr (event, l, o)) ↦
      ground (arith, Tally-append p w.log _ (alerted event ∷ []) i j k 0 0 0 l t (ground arith))
]

-- Giving the operations their ids writes nothing, and nothing has been called.
pub with_operation_id-log :
    (s : Surroundings) (op : AuditOperation) (parent : Option String) (w : World)
    → (with_operation_id s op parent w).1.log ≡ w.log
unfolding with_operation_id
with_operation_id-log s op parent w = elim (Option-cases op.operation_id) [
  | inl e ↦ rw (e, with_operation_id) refl
  | inr (id, e) ↦ rw (e, with_operation_id) refl
]

module _ {A : Type 0} (s : Surroundings) (parent : Option String) where
  pub children_of-log :
      (items : List (Item A)) (w : World) → (children_of s parent items w).1.log ≡ w.log
  unfolding children_of
  children_of-log [] w = refl
  children_of-log (item ∷ items) w =
      children_of-log items (with_operation_id s item.operation parent w).1
      ∙ with_operation_id-log s item.operation parent w

  pub children_of-total :
      (p : String → Bool) (items : List (Item A)) (w : World)
      → (total p calls_of (children_of s parent items w).0 ≡ 0)
        × (total p successes_of (children_of s parent items w).0 ≡ 0)
        × (total p failures_of (children_of s parent items w).0 ≡ 0)
  unfolding children_of
  children_of-total p [] w = (refl, refl, refl)
  children_of-total p (item ∷ items) w =
      let (a, b, c) = children_of-total p items (with_operation_id s item.operation parent w).1 in
      (ground arith, ground arith, ground arith)
