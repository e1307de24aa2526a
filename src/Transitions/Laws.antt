-- ===== src/Transitions/Laws.antt =====
-- The transition table of app/helpers/transitions.ts.
use sso_requests.Base.{Bool, ◌≡◌, ◌↔◌, ◌≢◌, true, false, not, List, none, some, arith, includes}
use sso_requests.Authz.Permissions.{
  Permission, permission_eq, integrations_delete, integrations_delete_in_flight,
}
use sso_requests.Transitions.{
  Status, status_eq, Intent, transition_of, is_in_flight, is_resting, delete_intent_for,
  status_refusal, transition_refusal,
}

abbrev pub is_deletion : Intent → Bool
is_deletion Intent.delete_draft = true
is_deletion Intent.request_delete = true
is_deletion Intent.force_delete = true
is_deletion _ = false

-- What it takes to delete a row: a permission of its own while a workflow owns the row.
abbrev pub deletion_permission : Status → Permission
deletion_permission Status.submitted = integrations_delete_in_flight
deletion_permission Status.planned = integrations_delete_in_flight
deletion_permission _ = integrations_delete

-- Each status admits one deletion, whatever is asked for: of the three deletions, exactly the one that
-- `deleteIntentFor` picks is allowed, and exactly to the holders of the permission to delete a row of that
-- status, which is one of its own for a row that is submitted or planned.
pub transition_refusal-deletion :
    (s : Status) (i : Intent) (ps : List Permission)
    → is_deletion i ≡ true
    → (transition_refusal (some s) i ps ≡ none)
      ↔ ((i ≡ delete_intent_for (some s)) × (includes ps (deletion_permission s) ≡ true))
unfolding transition_refusal delete_intent_for transition_of is_in_flight
transition_refusal-deletion s i ps deletes = ground arith

-- A workflow owns a row that is in flight: every known status is in flight or resting, never both.
pub in_flight-xor-resting : (s : Status) → is_resting (some s) ≡ not (is_in_flight (some s))
unfolding is_resting is_in_flight
in_flight-xor-resting s = ground arith

-- The delete button is never refused for the row's status: whatever status a row has,
-- `deleteIntentFor` chooses the delete that starts from it, so only a missing permission refuses it.
pub delete_intent_for_status :
    (s : Status) (ps : List Permission)
    → transition_refusal (some s) (delete_intent_for (some s)) ps ≢ some (status_refusal (some s))
unfolding transition_refusal delete_intent_for transition_of
delete_intent_for_status s ps = ground arith

-- Deleting a row in flight is allowed only to a holder of `integrations:delete-in-flight`, whatever
-- else the actor holds.
pub force_delete_needs :
    (s : Status) (ps : List Permission)
    → is_in_flight (some s) ≡ true
    → transition_refusal (some s) (delete_intent_for (some s)) ps ≡ none
    → includes ps integrations_delete_in_flight ≡ true
unfolding transition_refusal delete_intent_for transition_of is_in_flight
force_delete_needs s ps h e = ground arith
