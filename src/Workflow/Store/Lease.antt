-- ===== src/Workflow/Store/Lease.antt =====
-- app/workflow/store.ts: the lease on a workflow: claiming it, keeping it, and letting it go.
pub mod Laws
use sso_requests.Base.{
  ℕ, ◌+◌, ◌*◌, ◌<◌, Bool, true, false, ◌&&◌, ◌||◌, not, List, Option, none, some, nat_eq, ◌==◌,
  if◌then◌else◌, filter, order_by, head?, leb, ltb, count, any,
}
use sso_requests.Workflow.Types.{over_null, WorkflowState, Workflow, Db, is_claimable}
use sso_requests.Workflow.Backoff.{Config}
use sso_requests.Workflow.Store.Tables.{by_id, get_workflow, update_workflows}

abbrev pub lease_ms : Config → ℕ
lease_ms c = c.claim_lease_seconds * 1000

-- `claimed_at IS NULL OR claimed_at < NOW() - lease`, the lease brought to the other side.
abbrev pub is_free : Config → ℕ → Option ℕ → Bool
is_free c now none = true
is_free c now (some t) = ltb (t + lease_ms c) now

abbrev pub is_target : Option ℕ → ℕ → Bool
is_target none i = true
is_target (some t) i = i == t

-- The `WHERE` of `claimQuery`.
unfoldable pub is_runnable : Config → ℕ → Option ℕ → Workflow → Bool
is_runnable c now target w =
    is_claimable w.state
    && (leb w.run_after now && (is_free c now w.claimed_at && is_target target w.id))

-- The first row that `claimQuery` selects: `ORDER BY run_after ASC, created_at ASC LIMIT 1`.
unfoldable pub claim_candidate : Config → Option ℕ → Db → Option Workflow
claim_candidate c target d = head? (
    order_by (λ v w. leb v.run_after w.run_after)
      (order_by (λ v w. leb v.created_at w.created_at)
        (filter (is_runnable c d.now target) d.workflows)))

unfoldable pub take_claim : Config → ℕ → Workflow → Workflow
take_claim c now w = record w { claimed_by = some c.worker; claimed_at = some now }

-- `claimWorkflow`.
unfoldable pub claim_workflow : Config → Option ℕ → Db → Option Workflow × Db
claim_workflow c target d = elim (claim_candidate c target d) [
  | none ↦ (none, d)
  | some w ↦
      let d' = update_workflows (by_id w.id) (take_claim c d.now) d in (get_workflow w.id d', d')
]

-- `{ claimedBy: null, claimedAt: null }`.
abbrev pub drop_claim : Bool → Workflow → Workflow
drop_claim omit w = record w {
  claimed_by = over_null omit w.claimed_by;
  claimed_at = over_null omit w.claimed_at;
}

-- `releaseWorkflow`, with the further values that it writes.
unfoldable pub release_workflow : ℕ → (Workflow → Workflow) → Db → Db
release_workflow i values d = update_workflows (by_id i) (λ w. values (drop_claim d.omit_null w)) d

abbrev pub is_claimable_row : ℕ → Workflow → Bool
is_claimable_row i w = w.id == i && is_claimable w.state

-- `releaseWorkflowIfActive`: whether a row was affected, and the tables.
unfoldable pub release_workflow_if_active : ℕ → (Workflow → Workflow) → Db → Bool × Db
release_workflow_if_active i values d = (
  ltb 0 (count (is_claimable_row i) d.workflows),
  update_workflows (is_claimable_row i) (λ w. values (drop_claim d.omit_null w)) d,
)

abbrev pub is_held_by : Option ℕ → ℕ → Bool
is_held_by none worker = false
is_held_by (some v) worker = v == worker

-- `heartbeatWorkflow`.
unfoldable pub heartbeat_workflow : Config → ℕ → Db → Bool × Db
heartbeat_workflow c i d =
    let mine = λ (w : Workflow). is_claimable_row i w && is_held_by w.claimed_by c.worker in
    (
      ltb 0 (count mine d.workflows),
      update_workflows mine (λ w. record w { claimed_at = some d.now }) d,
    )
