-- ===== src/Workflow/Store/Lease/Laws.antt =====
-- The lease of app/workflow/store.ts: who holds a workflow, for how long, and what releasing it
-- leaves alone.
use sso_requests.Base.{
  not, ◌==◌, All, ℕ, ◌≡◌, refl, ◌≤◌, ◌+◌, Bool, true, false, List, [], ◌∷◌, Option, none, some,
  arith, count, update_where, update_where-none, filter, order_by, head?, Bool-cases, Option-cases,
  inl, inr, nat_beq_iff, nat_eq, leb, count-update_where_none, find, find-eq-some_holds, All-head?,
  All-order_by, All-filter, length, length-order_by, length-filter,
}
use sso_requests.Workflow.Types.{Workflow, Db}
use sso_requests.Workflow.Backoff.{Config}
use sso_requests.Workflow.Store.Tables.{by_id, get_workflow, update_workflows}
use sso_requests.Workflow.Store.Lease.{
  lease_ms, is_runnable, claim_candidate, take_claim, claim_workflow, is_claimable_row,
  release_workflow_if_active, drop_claim,
}

head?-empty :
    {A : Type 0} (before : A → A → Bool) (xs : List A)
    → length xs ≡ 0
    → head? (order_by before xs) ≡ none
head?-empty before [] h = refl
head?-empty before (x ∷ xs) h = absurd (omega (arith, h))

-- No row that a claim selects is claimed where none is runnable.
claim_candidate-none :
    (c : Config) (target : Option ℕ) (d : Db)
    → count (is_runnable c d.now target) d.workflows ≡ 0
    → claim_candidate c target d ≡ none
unfolding claim_candidate
claim_candidate-none c target d h =
    head?-empty _
      (order_by (λ v w. leb v.created_at w.created_at)
        (filter (is_runnable c d.now target) d.workflows))
      (omega (
        arith,
        length-order_by (λ (v w : Workflow). leb v.created_at w.created_at)
            (filter (is_runnable c d.now target) d.workflows),
        length-filter (is_runnable c d.now target) d.workflows,
      ))

claim_workflow-none :
    (c : Config) (target : Option ℕ) (d : Db)
    → count (is_runnable c d.now target) d.workflows ≡ 0
    → claim_workflow c target d ≡ (none, d)
unfolding claim_workflow
claim_workflow-none c target d h = ground (arith, claim_candidate-none c target d h)

taken : Config → ℕ → Workflow → Workflow
taken c now w = let w' = take_claim c now w in record w' { updated_at = now }

taken_not_runnable :
    (c c' : Config) (i now later : ℕ) (ws : List Workflow)
    → later ≤ now + lease_ms c'
    → count (is_runnable c' later (some i)) (update_where (by_id i) (taken c now) ws) ≡ 0
unfolding taken take_claim is_runnable
taken_not_runnable c c' i now later ws h =
    count-update_where_none (is_runnable c' later (some i)) (by_id i) (taken c now)
      (λ w same. ground arith) (λ w other. ground (arith, nat_beq_iff w.id i)) ws

-- A claim asks for the rows of a list: no row, no claim.
not_runnable :
    (q : Workflow → Bool) (ws : List Workflow) → count q ws ≡ 0 → All (λ w. q w ≡ false) ws
not_runnable q [] h = tt
not_runnable q (w ∷ ws) h = (ground (arith, h), not_runnable q ws (ground (arith, h)))

All-filter_kept :
    (P : Workflow → Type 0) (q : Workflow → Bool) (ws : List Workflow)
    → All P ws
    → All P (filter q ws)
All-filter_kept P q [] h = tt
All-filter_kept P q (w ∷ ws) h = elim (Bool-cases (q w)) [
  | inl hit ↦ rw hit (h.0, All-filter_kept P q ws h.1)
  | inr miss ↦ rw miss (All-filter_kept P q ws h.1)
]

-- Where no row of an id is runnable, no claim selects one.
claim_candidate-other :
    (c : Config) (other : Option ℕ) (i : ℕ) (d : Db) (v : Workflow)
    → count (is_runnable c d.now (some i)) d.workflows ≡ 0
    → claim_candidate c other d ≡ some v
    → (v.id == i) ≡ false
unfolding claim_candidate is_runnable
claim_candidate-other c other i d v none_left h =
    let P : Workflow → Type 0 = λ w. is_runnable c d.now (some i) w ≡ false in
    let Q : Workflow → Type 0 = λ w. is_runnable c d.now other w ≡ true in
    let rows = filter (is_runnable c d.now other) d.workflows in
    let refused : is_runnable c d.now (some i) v ≡ false =
      All-head? P _
        (All-order_by P _ _ (
          All-order_by P _ _ (
            All-filter_kept P (is_runnable c d.now other) d.workflows
              (not_runnable (is_runnable c d.now (some i)) d.workflows none_left))))
        h in
    let held : is_runnable c d.now other v ≡ true =
      All-head? Q _
        (All-order_by Q _ _
          (All-order_by Q _ _ (All-filter (is_runnable c d.now other) d.workflows)))
        h in
    ground (arith, refused, held)

-- A claim that got nothing, or a workflow of another id.
abbrev pub spares : ℕ → Option Workflow → Bool
spares i none = true
spares i (some v) = not (v.id == i)

find-spares :
    (j i : ℕ) (ws : List Workflow) → (j == i) ≡ false → spares i (find (by_id j) ws) ≡ true
find-spares j i [] apart = refl
find-spares j i (w ∷ ws) apart =
    ground
      (arith, find-spares j i ws apart, nat_beq_iff w.id j, nat_beq_iff w.id i, nat_beq_iff j i)

claim_workflow-spares :
    (c : Config) (other : Option ℕ) (i : ℕ) (d : Db)
    → count (is_runnable c d.now (some i)) d.workflows ≡ 0
    → spares i (claim_workflow c other d).0 ≡ true
unfolding claim_workflow get_workflow update_workflows take_claim taken
claim_workflow-spares c other i d none_left = elim (Option-cases (claim_candidate c other d)) [
  | inl nothing ↦ rw (nothing, claim_workflow) refl
  | inr (v, chosen) ↦
      let apart = claim_candidate-other c other i d v none_left chosen in
      rw (chosen, claim_workflow)
        (find-spares v.id i (update_where (by_id v.id) (taken c d.now) d.workflows) apart)
]

-- The lease is exclusive: once a worker has claimed a workflow, no claim of a worker with the same lease,
-- whether it asks for that workflow, for another one or for any, gets it, at any time until the lease has run
-- out. (The tables are those that the claim left, and only the clock has moved.)
pub claim_workflow_exclusive :
    (c c' : Config) (target other : Option ℕ) (d d' : Db) (w : Workflow) (later : ℕ)
    → c'.claim_lease_seconds ≡ c.claim_lease_seconds
    → claim_workflow c target d ≡ (some w, d')
    → later ≤ d.now + lease_ms c
    → spares w.id (claim_workflow c' other (record d' { now = later })).0 ≡ true
unfolding claim_workflow get_workflow update_workflows taken
claim_workflow_exclusive c c' target other d d' w later same h late =
    elim (Option-cases (claim_candidate c target d)) [
      | inl nothing ↦ absurd (ground (arith, nothing))
      | inr (v, chosen) ↦
          let rows = update_where (by_id v.id) (taken c d.now) d.workflows in
          let found : find (by_id v.id) rows ≡ some w = ground (arith, chosen) in
          let tables : rows ≡ d'.workflows = ground (arith, chosen) in
          let named : w.id ≡ v.id =
            (nat_beq_iff w.id v.id).0 (find-eq-some_holds (by_id v.id) rows found) in
          unfold claim_workflow in
          claim_workflow-spares c' other w.id (record d' { now = later })
            (rw (← tables, named)
              (taken_not_runnable c c' v.id d.now later d.workflows (rw same late)))
    ]

-- Releasing a workflow that is no longer claimable changes nothing: a terminal transition never
-- overwrites the row that a delete has superseded, and the worker learns that it lost.
pub release_workflow_if_active_lost :
    (i : ℕ) (values : Workflow → Workflow) (d : Db)
    → count (is_claimable_row i) d.workflows ≡ 0
    → release_workflow_if_active i values d ≡ (false, d)
unfolding release_workflow_if_active update_workflows
release_workflow_if_active_lost i values d h = ground (
  arith,
  h,
  update_where-none (is_claimable_row i)
      (λ w. let w' = values (drop_claim d.omit_null w) in record w' { updated_at = d.now })
      d.workflows h,
)
