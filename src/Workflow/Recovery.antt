-- ===== src/Workflow/Recovery.antt =====
-- Promoting the queued submissions that a crashed pod left behind (app/workflow/store.ts), under the
-- unique indexes.
use sso_requests.Base.{
  ℕ, zero, suc, count_mono, ◌≡◌, refl, ap, ◌≤◌, ◌<◌, ◌+◌, Bool, true, ◌&&◌, List, [], ◌∷◌, map,
  arith, count, update_where, Bool-cases, inl, inr, All, nat_beq, nat_beq_iff, nat_beq_refl, nat_eq,
  includes, filter, count-order_by, order_by, take, leb, any, any-count, count-update_where-le,
}
use sso_requests.Workflow.Types.{Workflow, Db}
use sso_requests.Workflow.Store.Tables.{
  HaveOwnIds, by_id, claimable_of, queued_of, IsUnique, update_workflows,
}
use sso_requests.Workflow.Store.Promote.{set_pending, is_orphan, promote_orphaned_queued_workflows}

count-take : {A : Type 0} → (q : A → Bool) (n : ℕ) (xs : List A) → count q (take n xs) ≤ count q xs
count-take q zero xs = omega arith
count-take q (suc n) [] = omega arith
count-take q (suc n) (x ∷ xs) = ground (arith, count-take q n xs)

count-filter_both :
    {A : Type 0}
    → (q p : A → Bool) (xs : List A) → count q (filter p xs) ≡ count (λ x. q x && p x) xs
count-filter_both q p [] = refl
count-filter_both q p (x ∷ xs) = ground (arith, count-filter_both q p xs)

-- A row that is named is one that the test picked.
named :
    (ws : List Workflow) (i : ℕ) → includes (map (λ w. w.id) ws) i ≡ true → 0 < count (by_id i) ws
named [] i h = absurd (ground arith)
named (w ∷ ws) i h = elim (Bool-cases (by_id i w)) [
  | inl hit ↦ ground (arith, hit)
  | inr miss ↦ ground (arith, miss, named ws i (ground (arith, miss, h)))
]

-- The rows of an id that has one row pass a test, if one of them does.
rows_of_id :
    (q : Workflow → Bool) (i : ℕ) (ws : List Workflow)
    → count (by_id i) ws ≤ 1
    → 0 < count (λ w. by_id i w && q w) ws
    → All (λ w. by_id i w ≡ true → q w ≡ true) ws
rows_of_id q i [] u h = tt
rows_of_id q i (w ∷ ws) u h = elim (Bool-cases (by_id i w)) [
  | inl hit ↦ elim (Bool-cases (q w)) [
    | inl good ↦ ((λ k. good), no_row_passes q i ws (ground (arith, hit, u)))
    | inr bad ↦ absurd (
        ground (
          arith,
          hit,
          bad,
          h,
          u,
          count_mono (λ v. by_id i v && q v) (by_id i) (λ v k. ground arith) ws,
        ))
  ]
  | inr miss ↦ (
    (λ k. absurd (ground (arith, miss, k))),
    rows_of_id q i ws (ground (arith, miss, u)) (ground (arith, miss, h)),
  )
]
  where
    no_row_passes :
        (q : Workflow → Bool) (i : ℕ) (ws : List Workflow)
        → count (by_id i) ws ≡ 0
        → All (λ w. by_id i w ≡ true → q w ≡ true) ws
    no_row_passes q i [] h = tt
    no_row_passes q i (w ∷ ws) h =
        ((λ k. absurd (ground (arith, h, k))), no_row_passes q i ws (ground (arith, h)))

-- A statement that holds of every row whatever the parameter.
All-each :
    (P : ℕ → Workflow → Type 0) (ws : List Workflow)
    → ((i : ℕ) → All (P i) ws)
    → All (λ w. (i : ℕ) → P i w) ws
All-each P [] h = tt
All-each P (w ∷ ws) h = ((λ i. (h i).0), All-each P ws (λ i. (h i).1))

-- The ids that the recovery promotes, of the table `ws`.
abbrev orphan_ids : ℕ → List Workflow → List ℕ
orphan_ids limit ws =
    map (λ w. w.id)
      (take limit (order_by (λ v w. leb v.created_at w.created_at) (filter (is_orphan ws) ws)))

-- A row whose id is promoted is an orphan.
promoted_are_orphans :
    (limit : ℕ) (ws : List Workflow)
    → HaveOwnIds ws
    → All
        (λ w.
          (i : ℕ)
          → by_id i w ≡ true
          → includes (orphan_ids limit ws) i ≡ true
          → is_orphan ws w ≡ true)
        ws
promoted_are_orphans limit ws own =
    All-each
      (λ i w. by_id i w ≡ true → includes (orphan_ids limit ws) i ≡ true → is_orphan ws w ≡ true) ws
      (λ i. elim (Bool-cases (includes (orphan_ids limit ws) i)) [
        | inl promoted ↦
            let by_age = λ (v w : Workflow). leb v.created_at w.created_at in
            let orphans = filter (is_orphan ws) ws in
            let there = named (take limit (order_by by_age orphans)) i promoted in
            let few = count-take (by_id i) limit (order_by by_age orphans) in
            let same = count-order_by (by_id i) by_age orphans in
            let both = count-filter_both (by_id i) (is_orphan ws) ws in
            All-weaker (λ w. by_id i w ≡ true → is_orphan ws w ≡ true)
              (λ w.
                by_id i w ≡ true → includes (orphan_ids limit ws) i ≡ true → is_orphan ws w ≡ true)
              ws (λ w h k l. h k)
              (rows_of_id (is_orphan ws) i ws (own i) (omega (arith, there, few, same, both)))
        | inr other ↦
            All-any
              (λ w.
                by_id i w ≡ true → includes (orphan_ids limit ws) i ≡ true → is_orphan ws w ≡ true)
              ws (λ w k l. absurd (ground (arith, other, l)))
      ])
  where
    All-weaker :
        (P Q : Workflow → Type 0) (xs : List Workflow)
        → ((w : Workflow) → P w → Q w)
        → All P xs
        → All Q xs
    All-weaker P Q [] h k = tt
    All-weaker P Q (w ∷ xs) h k = (h w k.0, All-weaker P Q xs h k.1)

    All-any : (P : Workflow → Type 0) (xs : List Workflow) → ((w : Workflow) → P w) → All P xs
    All-any P [] h = tt
    All-any P (w ∷ xs) h = (h w, All-any P xs h)

module _ (all : List Workflow) (ids : List ℕ) (r now stamp : ℕ) where
  abbrev pending_row : Workflow → Workflow
  pending_row w = record (set_pending now w) { updated_at = stamp }

  abbrev OnlyOrphans : List Workflow → Type 0
  OnlyOrphans =
      All (λ w. (i : ℕ) → by_id i w ≡ true → includes ids i ≡ true → is_orphan all w ≡ true)

  recovered_busy :
      any (claimable_of r) all ≡ true
      → (xs : List Workflow) → OnlyOrphans xs
      → count (claimable_of r) (update_where (λ w. includes ids w.id) pending_row xs)
        ≡ count (claimable_of r) xs
  unfolding set_pending
  recovered_busy busy [] o = refl
  recovered_busy busy (w ∷ xs) o = elim (Bool-cases (includes ids w.id)) [
    | inl promoted ↦
        let orphan = o.0 w.id (nat_beq_refl w.id) promoted in
        elim (Bool-cases (nat_beq w.request_id r)) [
          | inl same ↦
              let e = (nat_beq_iff w.request_id r).0 same in
              absurd (ground (arith, orphan, busy, ap (λ q. any (claimable_of q) all) e))
          | inr other ↦ ground (arith, promoted, orphan, other, recovered_busy busy xs o.1)
        ]
    | inr kept ↦ ground (arith, kept, recovered_busy busy xs o.1)
  ]

  recovered_idle :
      (xs : List Workflow)
      → OnlyOrphans xs
      → count (claimable_of r) (update_where (λ w. includes ids w.id) pending_row xs)
        ≤ count (claimable_of r) xs + count (queued_of r) xs
  unfolding set_pending
  recovered_idle [] o = omega arith
  recovered_idle (w ∷ xs) o = elim (Bool-cases (includes ids w.id)) [
    | inl promoted ↦
        ground (arith, promoted, o.0 w.id (nat_beq_refl w.id) promoted, recovered_idle xs o.1)
    | inr kept ↦ ground (arith, kept, recovered_idle xs o.1)
  ]

-- The recovery of orphaned submissions keeps one claimable and one queued workflow per integration,
-- where the ids of the table are its primary key.
pub promote_orphaned_queued_workflows-IsUnique :
    (limit : ℕ) (d : Db)
    → HaveOwnIds d.workflows
    → IsUnique d.workflows
    → IsUnique (promote_orphaned_queued_workflows limit d).1.workflows
unfolding promote_orphaned_queued_workflows update_workflows set_pending
promote_orphaned_queued_workflows-IsUnique limit d own u =
    let ids = orphan_ids limit d.workflows in
    let o = promoted_are_orphans limit d.workflows own in
    record {
      claimable = λ r. elim (Bool-cases (any (claimable_of r) d.workflows)) [
        | inl busy ↦
            omega (
              arith,
              recovered_busy d.workflows ids r d.now d.now busy d.workflows o,
              u.claimable r,
            )
        | inr idle ↦ omega (
          arith,
          recovered_idle d.workflows ids r d.now d.now d.workflows o,
          any-count (claimable_of r) d.workflows idle,
          u.queued r,
        )
      ];
      queued = λ r. omega (
        arith,
        count-update_where-le (queued_of r) (λ w. includes ids w.id)
            (λ w. record (set_pending d.now w) { updated_at = d.now }) (λ w p q. ground arith)
            d.workflows,
        u.queued r,
      );
    }
