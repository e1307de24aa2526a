-- ===== src/Audit/Batch.antt =====
-- packages/audit/src/writer.ts: `runAuditedBatch`, several operations under one parent. How the steps
-- of the children of a slice are interleaved, which the event loop decides, is an argument; the
-- concurrency is a whole number.
pub mod Tally
pub mod Order
pub mod Requested
pub mod Growth
pub mod Parent
pub mod Laws
pub mod Whole
use sso_requests.Base.{
  ◌≡◌, arith, ℕ, zero, suc, ◌+◌, ◌-◌, max, Bool, true, false, List, [], ◌∷◌, ◌++◌, map, Option,
  none, some, String, if◌then◌else◌, count, length, take, ltb,
}
use sso_requests.Workflow.Types.{Outcome}
use sso_requests.Audit.Event.{Detail, AuditOperation, AuditEvent}
use sso_requests.Audit.Writer.{
  World, Surroundings, try_create_event, with_outcome, with_operation_id, Result, fulfilled,
  rejected, Item, SettlePhase, waiting, Child, id_of, settle_step, settle, result_of, request_all,
}

abbrev pub drop {ℓ} : {A : Type ℓ} → ℕ → List A → List A
drop zero xs = xs
drop (suc n) [] = []
drop (suc n) (x ∷ xs) = drop n xs

pub length-drop {ℓ} : {A : Type ℓ} (n : ℕ) (xs : List A) → length (drop n xs) ≡ length xs - n
length-drop zero xs = omega arith
length-drop (suc n) [] = omega arith
length-drop (suc n) (x ∷ xs) = omega (arith, length-drop n xs)

-- The children, with their ids.
unfoldable pub children_of :
    {A : Type 0} → Surroundings → Option String → List (Item A) → World → List (Child A) × World
unfolding with_operation_id
children_of s parent [] w = ([], w)
children_of s parent (item ∷ items) w =
    let (op, w₁) = with_operation_id s item.operation parent w in
    let (cs, w₂) = children_of s parent items w₁ in
    (record { item = record item { operation = op }; phase = waiting } ∷ cs, w₂)

abbrev pub operation_of : {A : Type 0} → Child A → AuditOperation
operation_of c = c.item.operation

-- A step of the child at an index; there is none past the end.
unfoldable pub step_at :
    {A : Type 0} → Surroundings → ℕ → List (Child A) → World → List (Child A) × World
unfolding settle_step
step_at s i [] w = ([], w)
step_at s zero (c ∷ cs) w = let (c', w') = settle_step s c w in (c' ∷ cs, w')
step_at s (suc i) (c ∷ cs) w = let (cs', w') = step_at s i cs w in (c ∷ cs', w')

unfoldable pub run_schedule :
    {A : Type 0} → Surroundings → List ℕ → List (Child A) → World → List (Child A) × World
unfolding step_at
run_schedule s [] cs w = (cs, w)
run_schedule s (i ∷ schedule) cs w =
    let (cs', w') = step_at s i cs w in run_schedule s schedule cs' w'

unfoldable pub finish_all :
    {A : Type 0} → Surroundings → List (Child A) → World → List (Child A) × World
unfolding settle
finish_all s [] w = ([], w)
finish_all s (c ∷ cs) w =
    let (c', w₁) = settle s c w in let (cs', w₂) = finish_all s cs w₁ in (c' ∷ cs', w₂)

-- `Promise.all(slice.map(runChild))`: the steps of the schedule, and then what they leave open.
unfoldable pub run_slice :
    {A : Type 0} → Surroundings → List ℕ → List (Child A) → World → List (Child A) × World
unfolding run_schedule finish_all
run_slice s schedule cs w = let (cs', w') = run_schedule s schedule cs w in finish_all s cs' w'

abbrev pub schedule_now : List (List ℕ) → List ℕ
schedule_now [] = []
schedule_now (schedule ∷ later) = schedule

abbrev pub schedule_later : List (List ℕ) → List (List ℕ)
schedule_later [] = []
schedule_later (schedule ∷ later) = later

-- The loop over the slices of at most `width` children. The fuel is their number: each slice takes one
-- at least.
unfoldable pub run_slices :
    {A : Type 0}
    → ℕ
    → Surroundings
    → ℕ
    → List (List ℕ)
    → List (Child A)
    → World
    → List (Child A) × World
unfolding run_slice
run_slices zero s width schedules cs w = ([], w)
run_slices (suc fuel) s width schedules [] w = ([], w)
run_slices (suc fuel) s width schedules cs w =
    let (now, w₁) = run_slice s (schedule_now schedules) (take width cs) w in
    let (later, w₂) = run_slices fuel s width (schedule_later schedules) (drop width cs) w₁ in
    (now ++ later, w₂)

-- `BatchItemResult`.
abbrev pub BatchItemResult : Type 0 → Type 0
BatchItemResult A = Option String × Result A

abbrev pub item_result : {A : Type 0} → Child A → BatchItemResult A
item_result c = (id_of c, result_of c.phase)

abbrev pub is_rejected : {A : Type 0} → BatchItemResult A → Bool
is_rejected (id, rejected reason) = true
is_rejected (id, fulfilled a) = false

-- The outcome of the parent, with its totals.
unfoldable pub parent_event : {A : Type 0} → AuditOperation → List (BatchItemResult A) → AuditEvent
unfolding with_outcome
parent_event parent results =
    let failed = count is_rejected results in
    let outcome = if ltb 0 failed then Outcome.failure else Outcome.success in
    let totals =
      ("total", Detail.number (length results))
      ∷ ("succeeded", Detail.number (length results - failed))
      ∷ ("failed", Detail.number failed)
      ∷ [] in
    with_outcome parent outcome totals

unfoldable pub finish_parent :
    {A : Type 0} → Surroundings → AuditOperation → List (BatchItemResult A) → World → World
unfolding try_create_event parent_event
finish_parent s parent results w = (try_create_event s (parent_event parent results) w).1

-- `BatchOptions`; the schedules stand for the event loop.
pub record BatchOptions : Type 0 where
  pub always : Bool
  pub concurrency : ℕ
  pub schedules : List (List ℕ)

-- The slices of a batch, and the outcome of its parent.
unfoldable pub settle_children :
    {A : Type 0}
    → Surroundings
    → AuditOperation
    → List (Child A)
    → BatchOptions
    → World
    → List (BatchItemResult A) × World
unfolding run_slices finish_parent
settle_children s parent children options w =
    let (settled, w') =
      run_slices (length children) s (max 1 options.concurrency) options.schedules children w in
    let results = map item_result settled in (results, finish_parent s parent results w')

-- The `requested` rows of a batch, and then its slices.
unfoldable pub run_requested :
    {A : Type 0}
    → Surroundings
    → AuditOperation
    → List (Child A)
    → BatchOptions
    → World
    → Option (List (BatchItemResult A)) × World
unfolding settle_children request_all
run_requested s parent children options w =
    let (requested, w₁) = request_all s (parent ∷ map operation_of children) [] w in
    let (results, w₂) = settle_children s parent children options w₁ in
    if requested then (some results, w₂) else (none, w₁)

-- With a parent.
unfoldable pub run_under_parent :
    {A : Type 0}
    → Surroundings
    → AuditOperation
    → List (Item A)
    → BatchOptions
    → World
    → Option (List (BatchItemResult A)) × World
unfolding children_of with_operation_id run_requested
run_under_parent s parent items options w =
    let (parent_op, w₁) = with_operation_id s parent none w in
    let (children, w₂) = children_of s parent_op.operation_id items w₁ in
    run_requested s parent_op children options w₂

-- An item by itself, without a parent.
unfoldable pub run_single :
    {A : Type 0} → Surroundings → Item A → World → Option (List (BatchItemResult A)) × World
unfolding with_operation_id request_all settle
run_single s item w =
    let (op, w₁) = with_operation_id s item.operation none w in
    let (requested, w₂) = request_all s (op ∷ []) [] w₁ in
    let (c, w₃) = settle s (record { item = record item { operation = op }; phase = waiting }) w₂ in
    if requested then (some (item_result c ∷ []), w₃) else (none, w₂)

-- `runAuditedBatch`; `none` is the error of the `requested` rows.
unfoldable pub run_audited_batch :
    {A : Type 0}
    → Surroundings
    → AuditOperation
    → List (Item A)
    → BatchOptions
    → World
    → Option (List (BatchItemResult A)) × World
unfolding run_under_parent run_single
run_audited_batch s parent [] options w =
    if options.always then run_under_parent s parent [] options w else (some [], w)
run_audited_batch s parent (item ∷ []) options w =
    if options.always then run_under_parent s parent (item ∷ []) options w else run_single s item w
run_audited_batch s parent (item ∷ item' ∷ items) options w =
    run_under_parent s parent (item ∷ item' ∷ items) options w
