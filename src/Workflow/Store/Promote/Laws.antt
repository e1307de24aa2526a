-- ===== src/Workflow/Store/Promote/Laws.antt =====
-- Handing ownership to a queued submission (app/workflow/store.ts), under the unique indexes.
use sso_requests.Base.{
  not, filter, ℕ, ◌≡◌, ◌≢◌, refl, ◌≤◌, ◌+◌, false, List, [], ◌∷◌, arith, any, count,
  count-update_where-le, count-update_where_none, any-count, count-any, update_where, Bool-cases,
  inl, inr, nat_beq_iff, nat_eq, ◌==◌,
}
use sso_requests.Workflow.Types.{Workflow, Db}
use sso_requests.Workflow.Store.Tables.{claimable_of, queued_of, IsUnique, update_workflows}
use sso_requests.Workflow.Store.Promote.{set_pending, promote_queued_workflow}

promoted : ℕ → Workflow → Workflow
promoted now w = let w' = set_pending now w in record w' { updated_at = now }

-- Promotion moves a row from the queued ones of its request to the claimable ones.
count-promoted_claimable :
    (r now : ℕ) (ws : List Workflow)
    → count (claimable_of r) (update_where (queued_of r) (promoted now) ws)
      ≡ count (claimable_of r) ws + count (queued_of r) ws
unfolding promoted set_pending
count-promoted_claimable r now [] = refl
count-promoted_claimable r now (w ∷ ws) = ground (arith, count-promoted_claimable r now ws)

count-promoted_other :
    (r q now : ℕ) (ws : List Workflow)
    → q ≢ r
    → count (claimable_of q) (update_where (queued_of r) (promoted now) ws)
      ≡ count (claimable_of q) ws
unfolding promoted set_pending
count-promoted_other r q now [] n = refl
count-promoted_other r q now (w ∷ ws) n = ground (
  arith,
  count-promoted_other r q now ws n,
  nat_beq_iff w.request_id r,
  nat_beq_iff w.request_id q,
)

count-promoted_queued :
    (r q now : ℕ) (ws : List Workflow)
    → count (queued_of q) (update_where (queued_of r) (promoted now) ws) ≤ count (queued_of q) ws
unfolding promoted set_pending
count-promoted_queued r q now ws =
    count-update_where-le (queued_of q) (queued_of r) (promoted now) (λ w h k. ground arith) ws

count-promoted_none :
    (r now : ℕ) (ws : List Workflow)
    → count (queued_of r) (update_where (queued_of r) (promoted now) ws) ≡ 0
unfolding promoted set_pending
count-promoted_none r now ws =
    count-update_where_none (queued_of r) (queued_of r) (promoted now) (λ w h. ground arith)
      (λ w h. h) ws

promoted-IsUnique :
    (r now : ℕ) (ws : List Workflow)
    → IsUnique ws
    → any (claimable_of r) ws ≡ false
    → IsUnique (update_where (queued_of r) (promoted now) ws)
promoted-IsUnique r now ws u idle = record {
  claimable = λ q. elim (Bool-cases (q == r)) [
    | inl same ↦
        let e : q ≡ r = (nat_beq_iff q r).0 same in
        rw e (
          omega (
            arith,
            count-promoted_claimable r now ws,
            any-count (claimable_of r) ws idle,
            u.queued r,
          ))
    | inr other ↦ omega (
      arith,
      count-promoted_other r q now ws (λ e. ground (arith, nat_beq_iff q r)),
      u.claimable q,
    )
  ];
  queued = λ q. omega (arith, count-promoted_queued r q now ws, u.queued q);
}

-- Promotion keeps the unique indexes' promise: no integration has two claimable or two queued
-- workflows afterwards.
pub promote_queued_workflow-IsUnique :
    (r : ℕ) (d : Db) → IsUnique d.workflows → IsUnique (promote_queued_workflow r d).1.workflows
unfolding promote_queued_workflow update_workflows promoted
promote_queued_workflow-IsUnique r d u = elim (Bool-cases (any (claimable_of r) d.workflows)) [
  | inl busy ↦ rw busy u
  | inr idle ↦ rw idle (promoted-IsUnique r d.now d.workflows u idle)
]

-- The rows of the other requests.
abbrev pub others : ℕ → List Workflow → List Workflow
others r ws = filter (λ w. not (w.request_id == r)) ws

others-promoted :
    (r now : ℕ) (ws : List Workflow)
    → others r (update_where (queued_of r) (promoted now) ws) ≡ others r ws
unfolding promoted set_pending
others-promoted r now [] = refl
others-promoted r now (w ∷ ws) = ground (arith, others-promoted r now ws)

-- A parked submission is not lost: where no workflow of the integration is claimable, promotion makes
-- every queued one of it claimable, and leaves none queued; the workflows of the other integrations
-- stay as they are.
pub promote_queued_workflow_lem :
    (r : ℕ) (d : Db)
    → count (claimable_of r) d.workflows ≡ 0
    → let d' = (promote_queued_workflow r d).1 in
      (count (claimable_of r) d'.workflows ≡ count (queued_of r) d.workflows)
      × (count (queued_of r) d'.workflows ≡ 0)
      × (others r d'.workflows ≡ others r d.workflows)
unfolding promote_queued_workflow update_workflows promoted
promote_queued_workflow_lem r d h = elim (Bool-cases (any (claimable_of r) d.workflows)) [
  | inl busy ↦ absurd (omega (arith, count-any (claimable_of r) d.workflows busy, h))
  | inr idle ↦ rw idle (
    omega (arith, count-promoted_claimable r d.now d.workflows, h),
    count-promoted_none r d.now d.workflows,
    others-promoted r d.now d.workflows,
  )
]
