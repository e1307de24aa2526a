-- ===== src/Audit/Batch/Tally.antt =====
-- The tally of some operations while a batch (packages/audit/src/writer.ts) runs: the sum over the
-- children, whatever the interleaving.
use sso_requests.Base.{
  ℕ, zero, suc, ◌+◌, ◌≡◌, refl, ◌≤◌, Bool, List, [], ◌∷◌, ◌++◌, String, if◌then◌else◌, arith, inl,
  inr, Bool-cases, take, length,
}
use sso_requests.Audit.Writer.{
  World, Surroundings, Happening, SettlePhase, Child, id_of, settle_step, settle,
}
use sso_requests.Audit.Writer.Tally.{on_id, Tally, calls_of, successes_of, failures_of}
use sso_requests.Audit.Writer.Settling.{ChildTally, settle_step-ChildTally, settle-ChildTally}
use sso_requests.Audit.Batch.{
  drop, length-drop, schedule_now, schedule_later, step_at, run_schedule, finish_all, run_slice,
  run_slices,
}

module _ {A : Type 0} (p : String → Bool) where
  -- A sum over the tested children.
  abbrev pub total : (SettlePhase A → ℕ) → List (Child A) → ℕ
  total f [] = 0
  total f (c ∷ cs) = (if on_id p (id_of c) then f c.phase else 0) + total f cs

  pub total-append :
      (f : SettlePhase A → ℕ) (cs ds : List (Child A))
      → total f (cs ++ ds) ≡ total f cs + total f ds
  total-append f [] ds = omega arith
  total-append f (c ∷ cs) ds = omega (arith, total-append f cs ds)

  pub total-take :
      (f : SettlePhase A → ℕ) (n : ℕ) (cs : List (Child A))
      → total f (take n cs) + total f (drop n cs) ≡ total f cs
  total-take f zero cs = omega arith
  total-take f (suc n) [] = refl
  total-take f (suc n) (c ∷ cs) = omega (arith, total-take f n cs)

  abbrev pub BatchTally : List Happening → List (Child A) → ℕ → ℕ → ℕ → Type 0
  BatchTally log cs i j k =
      Tally p log (i + total calls_of cs) (j + total successes_of cs) (k + total failures_of cs)

  module _ (s : Surroundings) where
    -- A child that goes its way in front of others.
    ChildTally-before :
        (c : Child A) (w : World) (cs : List (Child A)) (i j k : ℕ)
        → BatchTally w.log (c ∷ cs) i j k
        → ChildTally s p
            (i + total calls_of cs)
            (j + total successes_of cs)
            (k + total failures_of cs)
            c
            w
    ChildTally-before c w cs i j k t = elim (Bool-cases (on_id p (id_of c))) [
      | inl hit ↦ inl (hit, ground arith)
      | inr miss ↦ inr (miss, ground arith)
    ]

    ChildTally-after :
        (c : Child A) (w : World) (cs : List (Child A)) (i j k : ℕ)
        → ChildTally s p
            (i + total calls_of cs)
            (j + total successes_of cs)
            (k + total failures_of cs)
            c
            w
        → BatchTally w.log (c ∷ cs) i j k
    ChildTally-after c w cs i j k (inl (hit, t)) = ground arith
    ChildTally-after c w cs i j k (inr (miss, t)) = ground arith

    step_at-BatchTally :
        (n : ℕ) (cs : List (Child A)) (w : World) (i j k : ℕ)
        → BatchTally w.log cs i j k
        → BatchTally (step_at s n cs w).1.log (step_at s n cs w).0 i j k
    unfolding step_at
    step_at-BatchTally n [] w i j k t = t
    step_at-BatchTally zero (c ∷ cs) w i j k t =
        ChildTally-after (settle_step s c w).0 (settle_step s c w).1 cs i j k
          (settle_step-ChildTally s p _ _ _ c w (ChildTally-before c w cs i j k t))
    step_at-BatchTally (suc n) (c ∷ cs) w i j k t =
        let own : (SettlePhase A → ℕ) → ℕ = λ f. if on_id p (id_of c) then f c.phase else 0 in
        ground (
          arith,
          step_at-BatchTally n cs w (i + own calls_of) (j + own successes_of) (k + own failures_of)
              (ground arith),
        )

    run_schedule-BatchTally :
        (schedule : List ℕ) (cs : List (Child A)) (w : World) (i j k : ℕ)
        → BatchTally w.log cs i j k
        → BatchTally (run_schedule s schedule cs w).1.log (run_schedule s schedule cs w).0 i j k
    unfolding run_schedule
    run_schedule-BatchTally [] cs w i j k t = t
    run_schedule-BatchTally (n ∷ schedule) cs w i j k t =
        run_schedule-BatchTally schedule (step_at s n cs w).0 (step_at s n cs w).1 i j k
          (step_at-BatchTally n cs w i j k t)

    pub finish_all-BatchTally :
        (cs : List (Child A)) (w : World) (i j k : ℕ)
        → BatchTally w.log cs i j k
        → BatchTally (finish_all s cs w).1.log (finish_all s cs w).0 i j k
    unfolding finish_all
    finish_all-BatchTally [] w i j k t = t
    finish_all-BatchTally (c ∷ cs) w i j k t =
        let c' = (settle s c w).0 in
        let own : (SettlePhase A → ℕ) → ℕ = λ f. if on_id p (id_of c') then f c'.phase else 0 in
        let first =
          ChildTally-after c' (settle s c w).1 cs i j k
            (settle-ChildTally s p _ _ _ c w (ChildTally-before c w cs i j k t)) in
        ground (
          arith,
          finish_all-BatchTally cs (settle s c w).1 (i + own calls_of) (j + own successes_of)
              (k + own failures_of) (ground arith),
        )

    run_slice-BatchTally :
        (schedule : List ℕ) (cs : List (Child A)) (w : World) (i j k : ℕ)
        → BatchTally w.log cs i j k
        → BatchTally (run_slice s schedule cs w).1.log (run_slice s schedule cs w).0 i j k
    unfolding run_slice
    run_slice-BatchTally schedule cs w i j k t =
        finish_all-BatchTally _ _ i j k (run_schedule-BatchTally schedule cs w i j k t)

    -- Enough fuel for every slice: no child is left out.
    pub run_slices-BatchTally :
        (fuel width : ℕ) (schedules : List (List ℕ)) (cs : List (Child A)) (w : World) (i j k : ℕ)
        → length cs ≤ fuel
        → 1 ≤ width
        → BatchTally w.log cs i j k
        → BatchTally
            (run_slices fuel s width schedules cs w).1.log
            (run_slices fuel s width schedules cs w).0
            i
            j
            k
    unfolding run_slices
    run_slices-BatchTally zero width schedules [] w i j k h v t = t
    run_slices-BatchTally zero width schedules (c ∷ cs) w i j k h v t = absurd (omega arith)
    run_slices-BatchTally (suc fuel) width schedules [] w i j k h v t = t
    run_slices-BatchTally (suc fuel) width schedules (c ∷ cs) w i j k h v t =
        let front = take width (c ∷ cs) in
        let back = drop width (c ∷ cs) in
        let ran = run_slice s (schedule_now schedules) front w in
        let rest = (run_slices fuel s width (schedule_later schedules) back ran.1).0 in
        let t₁ =
          run_slice-BatchTally (schedule_now schedules) front w (i + total calls_of back)
            (j + total successes_of back) (k + total failures_of back)
            (ground (
              arith,
              total-take calls_of width (c ∷ cs),
              total-take successes_of width (c ∷ cs),
              total-take failures_of width (c ∷ cs),
            )) in
        let t₂ =
          run_slices-BatchTally fuel width (schedule_later schedules) back ran.1
            (i + total calls_of ran.0) (j + total successes_of ran.0) (k + total failures_of ran.0)
            (omega (arith, length-drop width (c ∷ cs))) v (ground arith) in
        ground (
          arith,
          total-append calls_of ran.0 rest,
          total-append successes_of ran.0 rest,
          total-append failures_of ran.0 rest,
        )
