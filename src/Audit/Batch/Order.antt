-- ===== src/Audit/Batch/Order.antt =====
-- The children of a batch (packages/audit/src/writer.ts) after it has run: all of them, in the order of
-- the items, and each at its end.
use sso_requests.Base.{
  ℕ, zero, suc, ◌≡◌, refl, ◌≤◌, Bool, ◌&&◌, List, [], ◌∷◌, ◌++◌, map, none, String, if◌then◌else◌,
  arith, take, length, ap, ◌∙◌, All, count, not,
}
use sso_requests.Audit.Writer.{
  World, Surroundings, SettlePhase, Child, id_of, Item, Result, settle, finished, fulfilled,
  rejected, result_of,
}
use sso_requests.Audit.Writer.Tally.{on_id, calls_of, successes_of, failures_of, settle_step-item}
use sso_requests.Audit.Writer.Settling.{settle-item, settle-finished}
use sso_requests.Audit.Batch.{
  drop, length-drop, schedule_now, schedule_later, step_at, run_schedule, finish_all, run_slice,
  run_slices, item_result, BatchItemResult, is_rejected,
}
use sso_requests.Audit.Batch.Tally.{total}

abbrev pub item_of : {A : Type 0} → Child A → Item A
item_of c = c.item

abbrev pub IsFinished : {A : Type 0} → Child A → Type 0
IsFinished c = c.phase ≡ finished (result_of c.phase)

map-append {ℓ κ} :
    {A : Type ℓ} {B : Type κ} (f : A → B) (xs ys : List A) → map f (xs ++ ys) ≡ map f xs ++ map f ys
map-append f [] ys = refl
map-append f (x ∷ xs) ys = ap (λ l. f x ∷ l) (map-append f xs ys)

take-drop {ℓ} : {A : Type ℓ} (n : ℕ) (xs : List A) → take n xs ++ drop n xs ≡ xs
take-drop zero xs = refl
take-drop (suc n) [] = refl
take-drop (suc n) (x ∷ xs) = ap (λ l. x ∷ l) (take-drop n xs)

All-append : {A : Type 0} (P : A → Type 0) (xs ys : List A) → All P xs → All P ys → All P (xs ++ ys)
All-append P [] ys h k = k
All-append P (x ∷ xs) ys h k = (h.0, All-append P xs ys h.1 k)

module _ {A : Type 0} (s : Surroundings) where
  map-step_at :
      (n : ℕ) (cs : List (Child A)) (w : World) → map item_of (step_at s n cs w).0 ≡ map item_of cs
  unfolding step_at
  map-step_at n [] w = refl
  map-step_at zero (c ∷ cs) w = ap (λ i. i ∷ map item_of cs) (settle_step-item s c.item c.phase w)
  map-step_at (suc n) (c ∷ cs) w = ap (λ l. c.item ∷ l) (map-step_at n cs w)

  map-run_schedule :
      (schedule : List ℕ) (cs : List (Child A)) (w : World)
      → map item_of (run_schedule s schedule cs w).0 ≡ map item_of cs
  unfolding run_schedule
  map-run_schedule [] cs w = refl
  map-run_schedule (n ∷ schedule) cs w =
      map-run_schedule schedule (step_at s n cs w).0 (step_at s n cs w).1 ∙ map-step_at n cs w

  map-finish_all :
      (cs : List (Child A)) (w : World) → map item_of (finish_all s cs w).0 ≡ map item_of cs
  unfolding finish_all
  map-finish_all [] w = refl
  map-finish_all (c ∷ cs) w = cc (settle-item s c w, map-finish_all cs (settle s c w).1)

  finish_all-IsFinished : (cs : List (Child A)) (w : World) → All IsFinished (finish_all s cs w).0
  unfolding finish_all
  finish_all-IsFinished [] w = tt
  finish_all-IsFinished (c ∷ cs) w =
      (settle-finished s c w, finish_all-IsFinished cs (settle s c w).1)

  map-run_slice :
      (schedule : List ℕ) (cs : List (Child A)) (w : World)
      → map item_of (run_slice s schedule cs w).0 ≡ map item_of cs
  unfolding run_slice
  map-run_slice schedule cs w = map-finish_all _ _ ∙ map-run_schedule schedule cs w

  run_slice-IsFinished :
      (schedule : List ℕ) (cs : List (Child A)) (w : World)
      → All IsFinished (run_slice s schedule cs w).0
  unfolding run_slice
  run_slice-IsFinished schedule cs w = finish_all-IsFinished _ _

  -- The items stay in order, whatever the width of the slices and the interleaving.
  pub map-run_slices :
      (fuel width : ℕ) (schedules : List (List ℕ)) (cs : List (Child A)) (w : World)
      → length cs ≤ fuel
      → 1 ≤ width
      → map item_of (run_slices fuel s width schedules cs w).0 ≡ map item_of cs
  unfolding run_slices
  map-run_slices zero width schedules [] w h v = refl
  map-run_slices zero width schedules (c ∷ cs) w h v = absurd (omega arith)
  map-run_slices (suc fuel) width schedules [] w h v = refl
  map-run_slices (suc fuel) width schedules (c ∷ cs) w h v =
      let front = take width (c ∷ cs) in
      let back = drop width (c ∷ cs) in
      let ran = run_slice s (schedule_now schedules) front w in
      let rest = (run_slices fuel s width (schedule_later schedules) back ran.1).0 in
      map-append item_of ran.0 rest
      ∙ cc (
        map-run_slice (schedule_now schedules) front w,
        map-run_slices fuel width (schedule_later schedules) back ran.1
            (omega (arith, length-drop width (c ∷ cs))) v,
        map-append item_of front back,
        ap (map item_of) (take-drop width (c ∷ cs)),
      )

  -- Every child is at its end.
  pub run_slices-IsFinished :
      (fuel width : ℕ) (schedules : List (List ℕ)) (cs : List (Child A)) (w : World)
      → All IsFinished (run_slices fuel s width schedules cs w).0
  unfolding run_slices
  run_slices-IsFinished zero width schedules cs w = tt
  run_slices-IsFinished (suc fuel) width schedules [] w = tt
  run_slices-IsFinished (suc fuel) width schedules (c ∷ cs) w =
      All-append IsFinished _ _
        (run_slice-IsFinished (schedule_now schedules) (take width (c ∷ cs)) w)
        (run_slices-IsFinished fuel width (schedule_later schedules) (drop width (c ∷ cs)) _)

-- The sums over finished children are counts of their results.
module _ {A : Type 0} (p : String → Bool) where
  abbrev pub is_result : BatchItemResult A → Bool
  is_result e = on_id p e.0

  abbrev pub is_fulfilled_result : BatchItemResult A → Bool
  is_fulfilled_result e = on_id p e.0 && not (is_rejected e)

  abbrev pub is_rejected_result : BatchItemResult A → Bool
  is_rejected_result e = on_id p e.0 && is_rejected e

  result_counts :
      (tested : Bool) (phase : SettlePhase A) (r : Result A)
      → phase ≡ finished r
      → ((if tested then calls_of phase else 0) ≡ (if tested then 1 else 0))
        × ((if tested then successes_of phase else 0)
            ≡ (if tested && not (is_rejected (none, r)) then 1 else 0))
        × ((if tested then failures_of phase else 0)
            ≡ (if tested && is_rejected (none, r) then 1 else 0))
  result_counts tested phase (fulfilled a) e = (ground arith, ground arith, ground arith)
  result_counts tested phase (rejected err) e = (ground arith, ground arith, ground arith)

  pub count-item_result :
      (cs : List (Child A))
      → All IsFinished cs
      → (total p calls_of cs ≡ count is_result (map item_result cs))
        × (total p successes_of cs ≡ count is_fulfilled_result (map item_result cs))
        × (total p failures_of cs ≡ count is_rejected_result (map item_result cs))
  count-item_result [] h = (refl, refl, refl)
  count-item_result (c ∷ cs) h =
      let (calls, successes, failures) = count-item_result cs h.1 in
      let (a, b, d) = result_counts (on_id p (id_of c)) c.phase (result_of c.phase) h.0 in
      (ground arith, ground arith, ground arith)
