-- ===== src/Examples/Auditing.antt =====
-- An audited batch at a concrete input.
use sso_requests.Base.{
  ℕ, ◌≡◌, refl, Bool, false, ◌||◌, List, [], ◌∷◌, ◌++◌, map, Option, none, some, String, string_eq,
  ◌==◌,
}
use sso_requests.Audit.Actor.{Actor, current_actor}
use sso_requests.Audit.Event.{AuditOperation, ThrownError, describe_error, to_audit_event_row}
use sso_requests.Audit.Writer.{World, Surroundings, Item, fulfilled, rejected}
use sso_requests.Audit.Writer.Tally.{Tally}
use sso_requests.Audit.Batch.{BatchOptions, BatchItemResult, run_audited_batch}
use sso_requests.Audit.Batch.Parent.{result_id}
use sso_requests.Audit.Batch.Laws.{RequestedFirst, parent_operations, child_operations}
use sso_requests.Audit.Batch.Whole.{
  run_audited_batch-RequestedFirst, run_audited_batch-ids, run_audited_batch-Tally,
}

abbrev surroundings : Surroundings
surroundings = record {
  context = some (record { actor = some (Actor.system "sdx-callback"); req_id = none });
  create_fails = λ n. false;
  commit_fails = λ n. false;
  new_operation_id = λ n. "new";
}

abbrev assign : Option String → AuditOperation
assign id = record {
  action = "role-assign";
  operation_id = id;
  parent_operation_id = none;
  request_id = some 7;
  team_id = none;
  organization_id = none;
  workflow_id = none;
  target = some ("user", "jane@idir");
  environment = some "dev";
  details = [];
}

abbrev refusal : ThrownError
refusal = record { message = "Keycloak refused"; name = none; status = some 409 }

-- The first call succeeds and the second fails.
abbrev first_item : Item ℕ
first_item = record {
  operation = assign (some "a");
  call = λ w. fulfilled 1;
  on_success = λ w n. none;
  success_details = λ n. [];
}

abbrev second_item : Item ℕ
second_item = record {
  operation = assign (some "b");
  call = λ w. rejected refusal;
  on_success = λ w n. none;
  success_details = λ n. [];
}

abbrev items : List (Item ℕ)
items = first_item ∷ second_item ∷ []

abbrev parent : AuditOperation
parent = assign (some "p")

-- Both at once, the second in front.
abbrev options : BatchOptions
options = record { always = false; concurrency = 2; schedules = (1 ∷ 0 ∷ []) ∷ [] }

abbrev empty : World
empty = record { log = []; attempts = 0; commits = 0; next = 0 }

abbrev results : List (BatchItemResult ℕ)
results = (some "a", fulfilled 1) ∷ (some "b", rejected refusal) ∷ []

abbrev child_ids : String → Bool
child_ids id = id == "a" || id == "b"

-- Both were called, one succeeded and one failed.
run_audited_batch-Tally_example :
    Tally child_ids (run_audited_batch surroundings parent items options empty).1.log 2 1 1
unfolding run_audited_batch to_audit_event_row describe_error current_actor
run_audited_batch-Tally_example =
    run_audited_batch-Tally surroundings parent options empty items child_ids 0 0 0 results refl
      (record {
        called_so_often = refl;
        succeeded_so_often = refl;
        mirrored_so_often = refl;
        failed_so_often = refl;
      })
      refl

run_audited_batch-ids_example : map result_id results ≡ some "a" ∷ some "b" ∷ []
unfolding run_audited_batch to_audit_event_row describe_error current_actor
run_audited_batch-ids_example =
    run_audited_batch-ids surroundings parent options empty items results refl

run_audited_batch-RequestedFirst_example :
    RequestedFirst
      (parent_operations surroundings parent items options empty
        ++ child_operations surroundings parent items options empty)
      []
      (run_audited_batch surroundings parent items options empty)
run_audited_batch-RequestedFirst_example =
    run_audited_batch-RequestedFirst surroundings parent options empty items
