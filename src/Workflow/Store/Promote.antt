-- ===== src/Workflow/Store/Promote.antt =====
-- app/workflow/store.ts: handing ownership to a queued submission.
pub mod Laws
use sso_requests.Base.{
  ℕ, Bool, true, false, ◌&&◌, not, List, map, Option, none, some, nat_eq, ◌==◌, if◌then◌else◌,
  filter, order_by, head?, take, leb, any, includes,
}
use sso_requests.Workflow.Types.{WorkflowState, Workflow, Db, is_queued}
use sso_requests.Workflow.Store.Tables.{claimable_of, queued_of, update_workflows}

unfoldable pub set_pending : ℕ → Workflow → Workflow
set_pending now w = record w { state = WorkflowState.pending; run_after = now }

abbrev pub first_id : Option Workflow → Option ℕ
first_id none = none
first_id (some w) = some w.id

-- `promoteQueuedWorkflow`.
unfoldable pub promote_queued_workflow : ℕ → Db → Option ℕ × Db
promote_queued_workflow r d = if any (claimable_of r) d.workflows then (none, d) else (
  first_id (head? (filter (queued_of r) d.workflows)),
  update_workflows (queued_of r) (set_pending d.now) d,
)

-- A queued workflow whose request has no claimable one.
abbrev pub is_orphan : List Workflow → Workflow → Bool
is_orphan ws w = is_queued w.state && not (any (claimable_of w.request_id) ws)

-- `promoteOrphanedQueuedWorkflows`.
unfoldable pub promote_orphaned_queued_workflows : ℕ → Db → List ℕ × Db
promote_orphaned_queued_workflows limit d =
    let ids =
      map (λ w. w.id)
        (take limit (
          order_by (λ v w. leb v.created_at w.created_at)
            (filter (is_orphan d.workflows) d.workflows))) in
    (ids, update_workflows (λ w. includes ids w.id) (set_pending d.now) d)
