-- ===== src/Transitions.antt =====
-- app/helpers/transitions.ts: which status of an integration admits which intent, and which
-- permission the intent needs. A status may be missing (`undefined`), so it is optional.
pub mod Laws
use sso_requests.Base.{
  ℕ, zero, suc, ◌≡◌, refl, ◌↔◌, Bool, true, false, List, [], ◌∷◌, Option, none, some, nat_beq,
  number_iff, Eq, ◌==◌, includes, if◌then◌else◌, any, filter, not,
}
use sso_requests.Authz.Permissions
use sso_requests.Authz.Permissions.{Permission, permission_eq}

pub data Status : Type 0 where
  draft : Status
  submitted : Status
  pr : Status
  pr_failed : Status
  planned : Status
  plan_failed : Status
  applied : Status
  apply_failed : Status

abbrev pub status_place : Status → ℕ
status_place draft = 0
status_place submitted = 1
status_place pr = 2
status_place pr_failed = 3
status_place planned = 4
status_place plan_failed = 5
status_place applied = 6
status_place apply_failed = 7

abbrev status_at : ℕ → Status
status_at zero = draft
status_at (suc zero) = submitted
status_at (suc (suc zero)) = pr
status_at (suc (suc (suc zero))) = pr_failed
status_at (suc (suc (suc (suc zero)))) = planned
status_at (suc (suc (suc (suc (suc zero))))) = plan_failed
status_at (suc (suc (suc (suc (suc (suc zero)))))) = applied
status_at _ = apply_failed

status_at-status_place : (a : Status) → status_at (status_place a) ≡ a
status_at-status_place draft = refl
status_at-status_place submitted = refl
status_at-status_place pr = refl
status_at-status_place pr_failed = refl
status_at-status_place planned = refl
status_at-status_place plan_failed = refl
status_at-status_place applied = refl
status_at-status_place apply_failed = refl

abbrev pub status_beq : Status → Status → Bool
status_beq a b = nat_beq (status_place a) (status_place b)

pub status_beq_iff : (a b : Status) → (status_beq a b ≡ true) ↔ (a ≡ b)
status_beq_iff a b = number_iff status_place status_at status_at-status_place a b

instance abbrev pub status_eq : Eq Status
status_eq = record { beq = status_beq; beq_iff = status_beq_iff }

abbrev pub in_flight : List Status
in_flight = submitted ∷ planned ∷ []

abbrev pub resting : List Status
resting = draft ∷ applied ∷ plan_failed ∷ apply_failed ∷ pr ∷ pr_failed ∷ []

abbrev pub settled : List Status
settled = draft ∷ applied ∷ []

pub data Intent : Type 0 where
  save : Intent
  submit : Intent
  resubmit : Intent
  delete_draft : Intent
  request_delete : Intent
  force_delete : Intent

pub record Transition : Type 0 where
  pub from : List Status
  pub to : Status
  pub any_of : List Permission

abbrev approvals : List Permission
approvals =
    Permissions.integrations_approve_bceid ∷ Permissions.integrations_approve_github
    ∷ Permissions.integrations_approve_bcsc ∷ Permissions.integrations_approve_bcgovidir
    ∷ Permissions.integrations_approve_social ∷ Permissions.integrations_approve_otp ∷ []

-- `TRANSITIONS`.
unfoldable pub transition_of : Intent → Transition
transition_of save = record {
  from = draft ∷ [];
  to = draft;
  any_of = Permissions.integrations_write ∷ [];
}
transition_of submit = record {
  from = resting;
  to = submitted;
  any_of = Permissions.integrations_write ∷ approvals;
}
transition_of resubmit = record {
  from = submitted ∷ planned ∷ plan_failed ∷ apply_failed ∷ [];
  to = submitted;
  any_of = Permissions.integrations_write ∷ approvals;
}
transition_of delete_draft = record {
  from = draft ∷ [];
  to = draft;
  any_of = Permissions.integrations_delete ∷ [];
}
transition_of request_delete = record {
  from = filter (λ s. not (s == draft)) resting;
  to = submitted;
  any_of = Permissions.integrations_delete ∷ [];
}
transition_of force_delete = record {
  from = in_flight;
  to = submitted;
  any_of = Permissions.integrations_delete_in_flight ∷ [];
}

-- `statuses.includes(status as Status)`: a missing status is in no list.
abbrev pub has_status : List Status → Option Status → Bool
has_status statuses none = false
has_status statuses (some s) = includes statuses s

unfoldable pub is_in_flight : Option Status → Bool
is_in_flight s = has_status in_flight s

unfoldable pub is_resting : Option Status → Bool
is_resting s = has_status resting s

unfoldable pub is_settled : Option Status → Bool
is_settled s = has_status settled s

unfoldable pub delete_intent_for : Option Status → Intent
unfolding is_in_flight
delete_intent_for s =
    if has_status (draft ∷ []) s
    then delete_draft
    else if is_in_flight s
    then force_delete
    else request_delete

pub data TransitionRefusal : Type 0 where
  status_refusal : Option Status → TransitionRefusal
  permission_refusal : List Permission → TransitionRefusal

unfoldable pub transition_refusal :
    Option Status → Intent → List Permission → Option TransitionRefusal
transition_refusal s intent ps =
    let t = transition_of intent in
    if not (has_status t.from s)
    then some (status_refusal s)
    else if not (any (λ p. includes ps p) t.any_of)
    then some (permission_refusal t.any_of)
    else none
