-- ===== src/Workflow/Store/Create/Laws.antt =====
-- `createWorkflow` and `supersedeActiveWorkflows` (app/workflow/store.ts) under concurrency.
use sso_requests.Base.{
  ℕ, ◌≡◌, refl, ap, Bool, true, false, List, [], ◌∷◌, some, arith, count, count-update_where, find,
  find-eq-some_holds, Bool-cases, inl, inr, Option-cases, nat_beq_iff, nat_eq, update_where, ◌==◌,
  All, All-find, All-map, count-update_where-All,
}
use sso_requests.Workflow.Types.{WorkflowState, Workflow, Db, is_claimable, is_queued}
use sso_requests.Workflow.Audit.{record_superseded}
use sso_requests.Workflow.Audit.Laws.{record_superseded-IsEventsOnly}
use sso_requests.Workflow.Store.Tables.{
  by_id, claimable_of, queued_of, IsUnique, violates, get_active_workflow, update_workflows,
}
use sso_requests.Workflow.Store.Create.{
  CreateWorkflowParams, CreateWorkflowResult, StoreError, Stored, stored, failed, unique_constraint,
  write_step_plan, new_workflow, overwrite, insert_workflow, replace_queued, submit,
  create_workflow,
}

-- The indexes let a row in only where it has no company.
insert-IsUnique :
    (w : Workflow) (ws : List Workflow)
    → IsUnique ws
    → violates w (w ∷ ws) ≡ false
    → IsUnique (w ∷ ws)
insert-IsUnique w ws u h = record {
  claimable = λ r. ground (
    arith,
    u.claimable r,
    nat_beq_iff w.request_id r,
    λ (e : w.request_id ≡ r). ap (λ q. count (claimable_of q) ws) e,
  );
  queued = λ r. ground (
    arith,
    u.queued r,
    nat_beq_iff w.request_id r,
    λ (e : w.request_id ≡ r). ap (λ q. count (queued_of q) ws) e,
  );
}

-- An update that keeps the request and the state of each row keeps the indexes' promise.
pub update_where-IsUnique :
    (p : Workflow → Bool) (f : Workflow → Workflow)
    → ((w : Workflow) → (f w).request_id ≡ w.request_id)
    → ((w : Workflow) → (f w).state ≡ w.state)
    → (ws : List Workflow) → IsUnique ws
    → IsUnique (update_where p f ws)
update_where-IsUnique p f same_request same_state ws u = record {
  claimable = λ r.
      rw (count-update_where (claimable_of r) p f (λ w q. rw (same_request w, same_state w)) ws)
        (u.claimable r);
  queued = λ r.
      rw (count-update_where (queued_of r) p f (λ w q. rw (same_request w, same_state w)) ws)
        (u.queued r);
}

insert_workflow-IsUnique :
    (p : CreateWorkflowParams) (s : WorkflowState) (q : Bool) (d d' : Db) (r : CreateWorkflowResult)
    → IsUnique d.workflows
    → insert_workflow p s q d ≡ stored r d'
    → IsUnique d'.workflows
unfolding insert_workflow write_step_plan
insert_workflow-IsUnique p s q d d' r u h =
    let w = new_workflow p s d.now in
    elim (Bool-cases (violates w (w ∷ d.workflows))) [
      | inl bad ↦ absurd (ground (arith, bad))
      | inr good ↦
          let e : w ∷ d.workflows ≡ d'.workflows = ground (arith, good) in
          rw (← e) (insert-IsUnique w d.workflows u good)
    ]

-- `seen` shows an earlier state of the table `ws`: a row of the same id belongs to the same request.
abbrev pub IsViewOf : List Workflow → List Workflow → Type 0
IsViewOf seen ws = All (λ v. All (λ w. (w.id == v.id) ≡ true → w.request_id ≡ v.request_id) ws) seen

overwritten : CreateWorkflowParams → Bool → ℕ → ℕ → Workflow → Workflow
overwritten p omit now then_now w =
    let w' = overwrite p omit now w in record w' { updated_at = then_now }

overwrite-IsUnique :
    (p : CreateWorkflowParams) (q : Workflow) (omit : Bool) (now then_now : ℕ) (ws : List Workflow)
    → q.request_id ≡ p.request_id
    → All (λ w. (w.id == q.id) ≡ true → w.request_id ≡ q.request_id) ws
    → IsUnique ws
    → IsUnique (update_where (by_id q.id) (overwritten p omit now then_now) ws)
overwrite-IsUnique p q omit now then_now ws e h u = record {
  claimable = λ r.
      rw
        (count-update_where-All (claimable_of r) (by_id q.id) (overwritten p omit now then_now) ws (
          All-map Same (Kept (claimable_of r))
            (λ w k b. unfold overwritten overwrite in rw (k b, e)) ws h))
        (u.claimable r);
  queued = λ r.
      rw
        (count-update_where-All (queued_of r) (by_id q.id) (overwritten p omit now then_now) ws (
          All-map Same (Kept (queued_of r)) (λ w k b. unfold overwritten overwrite in rw (k b, e))
            ws h))
        (u.queued r);
}
  where
    Same : Workflow → Type 0
    Same w = (w.id == q.id) ≡ true → w.request_id ≡ q.request_id

    Kept : (Workflow → Bool) → Workflow → Type 0
    Kept t w = by_id q.id w ≡ true → t (overwritten p omit now then_now w) ≡ t w

replace_queued-IsUnique :
    (fails : Db → Bool) (p : CreateWorkflowParams) (w : Workflow) (d d' : Db)
    (r : CreateWorkflowResult)
    → w.request_id ≡ p.request_id
    → All (λ v. (v.id == w.id) ≡ true → v.request_id ≡ w.request_id) d.workflows
    → IsUnique d.workflows
    → replace_queued fails p w d ≡ stored r d'
    → IsUnique d'.workflows
unfolding replace_queued write_step_plan update_workflows overwritten
replace_queued-IsUnique fails p w d d' r q view u h =
    elim (Option-cases (record_superseded fails (w ∷ []) (some w.id) p.correlation_id d)) [
      | inl stopped ↦ absurd (ground (arith, stopped))
      | inr (d₁, written) ↦
          let same : d₁.workflows ≡ d.workflows =
            (record_superseded-IsEventsOnly fails (w ∷ []) (some w.id) p.correlation_id d d₁
              written).workflows in
          let e : update_where (by_id w.id) (overwritten p d.omit_null d.now d₁.now) d.workflows
              ≡ d'.workflows =
            rw (← same) (ground (arith, written)) in
          rw (← e) (overwrite-IsUnique p w d.omit_null d.now d₁.now d.workflows q view u)
    ]

found_request :
    (p : CreateWorkflowParams) (seen : List Workflow) (q : Workflow)
    → find (queued_of p.request_id) seen ≡ some q
    → q.request_id ≡ p.request_id
found_request p seen q h =
    let e : queued_of p.request_id q ≡ true = find-eq-some_holds (queued_of p.request_id) seen h in
    (nat_beq_iff q.request_id p.request_id).0 (ground arith)

submit-IsUnique :
    (fails : Db → Bool) (seen : List Workflow) (p : CreateWorkflowParams) (d d' : Db)
    (r : CreateWorkflowResult)
    → IsViewOf seen d.workflows
    → IsUnique d.workflows
    → submit fails seen p d ≡ stored r d'
    → IsUnique d'.workflows
unfolding submit
submit-IsUnique fails seen p d d' r view u h =
    elim (Option-cases (find (claimable_of p.request_id) seen)) [
      | inl idle ↦
          insert_workflow-IsUnique p WorkflowState.pending false d d' r u (rw (idle, submit) at h)
      | inr (w, busy) ↦ elim (Option-cases (find (queued_of p.request_id) seen)) [
        | inl free ↦
            insert_workflow-IsUnique p WorkflowState.queued true d d' r u
              (ground (arith, busy, free))
        | inr (q, parked) ↦
            replace_queued-IsUnique fails p q d d' r (found_request p seen q parked)
              (All-find _ (queued_of p.request_id) seen view parked) u
              (ground (arith, busy, parked))
      ]
    ]

-- Whatever earlier state of the table its reads saw, a submission that is stored leaves no integration with two
-- claimable workflows or with two queued ones.
pub create_workflow-IsUnique :
    (fails : Db → Bool) (seen : List Workflow) (p : CreateWorkflowParams) (d d' : Db)
    (r : CreateWorkflowResult)
    → IsViewOf seen d.workflows
    → IsUnique d.workflows
    → create_workflow fails seen p d ≡ stored r d'
    → IsUnique d'.workflows
unfolding create_workflow
create_workflow-IsUnique fails seen p d d' r view u h = go (submit fails seen p d) refl
  where
    go : (m : Stored CreateWorkflowResult) → submit fails seen p d ≡ m → IsUnique d'.workflows
    go (stored r₁ d₁) e = submit-IsUnique fails seen p d d' r view u (ground (arith, e))
    go (failed unique_constraint) e = elim (Option-cases (get_active_workflow p.request_id d)) [
      | inl nobody ↦ absurd (ground (arith, e, nobody))
      | inr (w, active) ↦ let same : d ≡ d' = ground (arith, e, active) in rw (← same) u
    ]
    go (failed StoreError.audit_write) e = absurd (ground (arith, e))
    go (failed StoreError.in_flight) e = absurd (ground (arith, e))

no_company :
    (w : Workflow) (ws : List Workflow)
    → (is_claimable w.state ≡ true → count (claimable_of w.request_id) ws ≡ 0)
    → (is_queued w.state ≡ true → count (queued_of w.request_id) ws ≡ 0)
    → violates w (w ∷ ws) ≡ false
no_company w ws h k = ground (arith, h, k, nat_beq_iff w.request_id w.request_id)

pub insert_workflow_fits :
    (p : CreateWorkflowParams) (s : WorkflowState) (q : Bool) (d : Db)
    → (is_claimable s ≡ true → count (claimable_of p.request_id) d.workflows ≡ 0)
    → (is_queued s ≡ true → count (queued_of p.request_id) d.workflows ≡ 0)
    → insert_workflow p s q d
      ≡ stored
          (record { workflow = new_workflow p s d.now; created = true; queued = q })
          (write_step_plan p.id p.steps
            (record d { workflows = new_workflow p s d.now ∷ d.workflows }))
unfolding insert_workflow
insert_workflow_fits p s q d h k = rw (
    no_company (new_workflow p s d.now) d.workflows (unfold new_workflow in h)
      (unfold new_workflow in k))
