-- ===== src/Audit/Writer/Settling.antt =====
-- `settle` of packages/audit/src/writer.ts: three steps end it, and what a step keeps it keeps.
use sso_requests.Base.{
  ℕ, ◌-◌, ◌≡◌, ◌≤◌, refl, Bool, true, false, String, arith, ◌⊎◌, inl, inr, ◌∙◌, ap,
}
use sso_requests.Audit.Writer.{
  World, Surroundings, fulfilled, rejected, Item, SettlePhase, waiting, answered, unsynced,
  finished, Child, settle_step, settle, id_of, result_of,
}
use sso_requests.Audit.Writer.Laws.{sync-cases}
use sso_requests.Audit.Writer.Tally.{
  on_id, Tally, PhaseTally, settle_step-PhaseTally, settle_step-item, settle_step-Tally_other,
}

-- The number of steps that are left, at most.
abbrev pub steps_left : {A : Type 0} → SettlePhase A → ℕ
steps_left waiting = 3
steps_left (answered r) = 2
steps_left (unsynced err) = 1
steps_left (finished r) = 0

steps_left_of :
    {A : Type 0} (s : Surroundings) (item : Item A) (phase : SettlePhase A) (w : World)
    → steps_left (settle_step s (record { item = item; phase = phase }) w).0.phase
      ≤ steps_left phase - 1
unfolding settle_step
steps_left_of s item waiting w = omega arith
steps_left_of s item (answered (rejected err)) w = omega arith
steps_left_of s item (answered (fulfilled a)) w = elim (sync-cases s item a w) [
  | inl (row, e, l, r) ↦ ground arith
  | inr (err, e, l) ↦ ground arith
]
steps_left_of s item (unsynced err) w = omega arith
steps_left_of s item (finished r) w = omega arith

steps_left-le : {A : Type 0} (phase : SettlePhase A) → steps_left phase ≤ 3
steps_left-le waiting = omega arith
steps_left-le (answered r) = omega arith
steps_left-le (unsynced err) = omega arith
steps_left-le (finished r) = omega arith

finished_of :
    {A : Type 0} (phase : SettlePhase A) → steps_left phase ≡ 0 → phase ≡ finished (result_of phase)
finished_of waiting h = ground arith
finished_of (answered r) h = ground arith
finished_of (unsynced err) h = ground arith
finished_of (finished r) h = refl

module _ {A : Type 0} (s : Surroundings) where
  settle_step-steps_left :
      (c : Child A) (w : World) → steps_left (settle_step s c w).0.phase ≤ steps_left c.phase - 1
  settle_step-steps_left c w = steps_left_of s c.item c.phase w

  pub settle-finished :
      (c : Child A) (w : World)
      → (settle s c w).0.phase ≡ finished (result_of (settle s c w).0.phase)
  unfolding settle
  settle-finished c w =
      let (c₁, w₁) = settle_step s c w in
      let (c₂, w₂) = settle_step s c₁ w₁ in
      finished_of (settle_step s c₂ w₂).0.phase (
        omega (
          arith,
          steps_left-le c.phase,
          settle_step-steps_left c w,
          settle_step-steps_left c₁ w₁,
          settle_step-steps_left c₂ w₂,
        ))

  module _ {κ} (P : Child A → World → Type κ)
      (keep : (c : Child A) (w : World)
        → P c w
        → P (settle_step s c w).0 (settle_step s c w).1) where
    pub settle_keeps : (c : Child A) (w : World) → P c w → P (settle s c w).0 (settle s c w).1
    unfolding settle
    settle_keeps c w h = keep _ _ (keep _ _ (keep c w h))

  pub settle-item : (c : Child A) (w : World) → (settle s c w).0.item ≡ c.item
  settle-item c w =
      settle_keeps (λ c' w'. c'.item ≡ c.item)
        (λ c' w' e. settle_step-item s c'.item c'.phase w' ∙ e) c w refl

  -- What the tally of the tested operations gains: that of a child, if it is tested.
  module _ (p : String → Bool) (i j k : ℕ) where
    abbrev pub ChildTally : Child A → World → Type 0
    ChildTally c w =
        (on_id p (id_of c) ≡ true) × PhaseTally p w.log c.phase i j k
        ⊎ (on_id p (id_of c) ≡ false) × Tally p w.log i j k

    same_test :
        (c : Child A) (w : World) → on_id p (id_of (settle_step s c w).0) ≡ on_id p (id_of c)
    same_test c w = ap (λ x. on_id p x.operation.operation_id) (settle_step-item s c.item c.phase w)

    pub settle_step-ChildTally :
        (c : Child A) (w : World)
        → ChildTally c w
        → ChildTally (settle_step s c w).0 (settle_step s c w).1
    settle_step-ChildTally c w (inl (h, t)) =
        inl (same_test c w ∙ h, settle_step-PhaseTally s p c.item c.phase w i j k h t)
    settle_step-ChildTally c w (inr (h, t)) =
        inr (same_test c w ∙ h, settle_step-Tally_other s p c.item c.phase w i j k h t)

    pub settle-ChildTally :
        (c : Child A) (w : World) → ChildTally c w → ChildTally (settle s c w).0 (settle s c w).1
    settle-ChildTally = settle_keeps ChildTally settle_step-ChildTally
