-- ===== src/Workflow/Orchestrator/Budget.antt =====
-- Counting a workflow's unfinished steps, for the iteration budget of `execute`
-- (app/workflow/orchestrator.ts).
use sso_requests.Base.{
  ℕ, ◌≡◌, refl, ap, ◌≤◌, ◌<◌, ◌+◌, Bool, true, false, ◌&&◌, List, [], ◌∷◌, some, arith, count,
  update_where, filter, find, order_by, count-order_by, Bool-cases, inl, inr, nat_beq_iff, leb,
  ◌==◌, nat_eq, count_mono, update_where-none,
}
use sso_requests.Workflow.Types.{WorkflowStep, Db}
use sso_requests.Workflow.Store.Tables.{get_workflow_steps, of_workflow}
use sso_requests.Workflow.Orchestrator.{is_unfinished}

-- The rows of a workflow, how many of them are left, and how many are left of one id.
abbrev pub own_steps : ℕ → Db → List WorkflowStep
own_steps i d = filter (of_workflow i) d.steps

abbrev pub has_id : ℕ → WorkflowStep → Bool
has_id j s = s.id == j

abbrev pub left_with : ℕ → WorkflowStep → Bool
left_with j s = s.id == j && is_unfinished s

-- The primary key of the step table, as far as the workflow's rows go.
abbrev pub HaveUniqueIds : List WorkflowStep → Type 0
HaveUniqueIds steps = (j : ℕ) → count (has_id j) steps ≤ 1

-- A row that a search finds is counted among those of its id.
count-found :
    (q : WorkflowStep → Bool) (steps : List WorkflowStep) {s : WorkflowStep}
    → find q steps ≡ some s
    → 0 < count (λ t. t.id == s.id && q t) steps
count-found q [] h = cc
count-found q (t ∷ steps) {s} h = elim (Bool-cases (q t)) [
  | inl hit ↦
      let e : t ≡ s = ground (arith, hit) in
      let same : (t.id == s.id) ≡ true = (nat_beq_iff t.id s.id).1 (ap WorkflowStep.id e) in
      ground (arith, hit, same)
  | inr miss ↦ ground (arith, miss, count-found q steps {s = s} (ground (arith, miss)))
]

-- The step that `runNextStep` picks is one of the workflow's that are left.
pub found_step_left :
    (i : ℕ) (d : Db) {s : WorkflowStep}
    → find is_unfinished (get_workflow_steps i d) ≡ some s
    → 0 < count (left_with s.id) (own_steps i d)
unfolding get_workflow_steps
found_step_left i d {s} h = omega (
  arith,
  count-found is_unfinished (order_by (λ s t. leb s.sequence t.sequence) (own_steps i d)) h,
  count-order_by (left_with s.id) (λ (s t : WorkflowStep). leb s.sequence t.sequence)
      (own_steps i d),
)

-- An update that keeps the workflow of each row acts on the workflow's rows.
pub own_steps-update :
    (i : ℕ) (p : WorkflowStep → Bool) (f : WorkflowStep → WorkflowStep)
    → ((s : WorkflowStep) → (f s).workflow_id ≡ s.workflow_id)
    → (steps : List WorkflowStep)
    → filter (of_workflow i) (update_where p f steps)
      ≡ update_where p f (filter (of_workflow i) steps)
own_steps-update i p f h [] = refl
own_steps-update i p f h (s ∷ steps) = ground (arith, h s, own_steps-update i p f h steps)

-- An update that leaves the rows of one id unfinished: there is one such row, and it was left.
module _ (j : ℕ) (f : WorkflowStep → WorkflowStep) (same_id : (s : WorkflowStep) → (f s).id ≡ s.id)
    (open_still : (s : WorkflowStep) → is_unfinished s ≡ true → is_unfinished (f s) ≡ true) where
  pub count-still_left :
      (steps : List WorkflowStep)
      → count (has_id j) steps ≤ 1
      → 0 < count (left_with j) steps
      → (count is_unfinished (update_where (has_id j) f steps) ≡ count is_unfinished steps)
        × (0 < count (left_with j) (update_where (has_id j) f steps))
  count-still_left [] u h = absurd (omega arith)
  count-still_left (s ∷ steps) u h = elim (Bool-cases (has_id j s)) [
    | inl hit ↦
        let none_left : count (has_id j) steps ≡ 0 = ground (arith, hit) in
        let few : count (left_with j) steps ≤ count (has_id j) steps =
          count_mono (left_with j) (has_id j) (λ t q. ground arith) steps in
        elim (Bool-cases (is_unfinished s)) [
          | inl left ↦ ground (
            arith,
            hit,
            left,
            same_id s,
            open_still s left,
            few,
            update_where-none (has_id j) f steps none_left,
          )
          | inr finished ↦ absurd (ground (arith, hit, finished, few, h))
        ]
    | inr miss ↦
        ground (arith, miss, count-still_left steps (ground (arith, miss)) (ground (arith, miss)))
  ]

-- An update that finishes the rows of one id.
pub count-finished :
    (j : ℕ) (f : WorkflowStep → WorkflowStep)
    → ((s : WorkflowStep) → is_unfinished (f s) ≡ false)
    → (steps : List WorkflowStep)
    → count is_unfinished (update_where (has_id j) f steps) + count (left_with j) steps
      ≡ count is_unfinished steps
count-finished j f h [] = refl
count-finished j f h (s ∷ steps) = ground (arith, h s, count-finished j f h steps)
