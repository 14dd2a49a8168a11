-- ===== src/Planning/Draft/Tests.antt =====
-- A draft with one model of two steps, and the theorems on its commands.
use Prim.Native.Nat.{Ordering}
use Prim.Native.String.{compare}
use bnpi_pats_api.Base.{ℕ, String, List, [], ◌∷◌, none, some, true, false, ◌≡◌, refl}
use bnpi_pats_api.Base.Json.{null, str, array, object, nil, cons, field, end}
use bnpi_pats_api.Base.Decimal.{decimal, decimal_before}
use bnpi_pats_api.Command.Work.{Work, done, thrown}
use bnpi_pats_api.Command.Request.{Request}
use bnpi_pats_api.Command.Audit.{Logged, record_command_success}
use bnpi_pats_api.Command.Idempotency.{CommandResponse}
use bnpi_pats_api.Planning.{Project, Requirement, draft_project}
use bnpi_pats_api.Planning.Draft.{
  ModelPart, Model, StepInput, PartRef, DraftReads, DraftWrite, ensure_project_editable,
  editable_project,
}
use bnpi_pats_api.Planning.Draft.Routes.{
  unique, eligible_pairs, check_steps, check_references, write_version, create_version,
}
use bnpi_pats_api.Planning.Draft.Routes.Laws.{IsRoute, create_version-IsRoute}
use bnpi_pats_api.Planning.Draft.Edits.{
  Calendar, inverted_window, require_ordered_window, PatchBody, check_patch, write_patch,
  write_sizes, write_lot_name, patch_project,
}
use bnpi_pats_api.Planning.Draft.Edits.Laws.{IsCalendar}
use bnpi_pats_api.Planning.Draft.Removal.{
  remove_lot, remove_parts_lists, delete_project, remove_part,
}
use bnpi_pats_api.Planning.Draft.Snapshot.{Ids}

abbrev project : Project
project = record {
  id = "PRJ-1";
  project_code = "RX78";
  name = "Front armour";
  status = draft_project;
  product_id = none;
  row_version = 3;
  completed_at = none;
  planned_start = some "2026-05-01";
  planned_end = none;
}

abbrev model_part : ModelPart
model_part = record {
  id = "MP-1";
  part_code = "A-01";
  part_name = "Armour";
  planned_cycle_times = null;
  routing_steps = array (
      cons (object (field "stageId" (str "STG-INJECTION") end))
        (cons (object (field "stageId" (str "STG-GONE") end)) nil));
}

abbrev model : Model
model = record { id = "M-1"; product_id = "PD-1"; model_parts = model_part ∷ [] }

abbrev part : PartRef
part = record { id = "P-1"; part_code = "A-01"; requirement_id = some "RQ-1" }

abbrev reads : DraftReads
reads = record {
  project = λ id. some project;
  product = λ id. true;
  models = λ ids. model ∷ [];
  stages = "STG-INJECTION" ∷ [];
  sub_stages = [];
  prior_requirements = λ id. [];
  parts_lists = λ id. "PL-1" ∷ [];
  latest_version = λ id. some 1;
  latest_parts_list = λ id. some "PL-1";
  parts_in = λ id ids. ids;
  stages_in = λ ids. ids;
  sub_stages_in = λ ids. [];
  lot_of = λ id. some "L-1";
  lot_project = λ id. some "PRJ-1";
  line = λ id. true;
  part = λ id project_id. some part;
  batches_of_part = λ id. 0;
  batches_of_lot = λ id. 0;
}

abbrev request : Request
request = record {
  canonical_subject = none;
  idempotency_key = some "key-1";
  if_match = some "\"3\"";
  correlation_id = none;
}

abbrev step : String → ℕ → StepInput
step stage_id step_order = record {
  part_id = "P-1";
  stage_id = stage_id;
  sub_stage_id = none;
  step_order = step_order;
}

abbrev steps : List StepInput
steps = step "STG-INJECTION" 1 ∷ step "STG-PAINTING" 2 ∷ []

abbrev writes_of : Work (Logged DraftWrite) CommandResponse → List (Logged DraftWrite)
writes_of (done ws resp) = ws
writes_of (thrown e) = []

abbrev no_response : CommandResponse
no_response = record { status = 0; body = null; headers = [] }

abbrev response_of : Work (Logged DraftWrite) CommandResponse → CommandResponse
response_of (done ws resp) = resp
response_of (thrown e) = no_response

abbrev Returns : Work (Logged DraftWrite) CommandResponse → Type 0
Returns m = m ≡ done (writes_of m) (response_of m)

abbrev version_work : Work (Logged DraftWrite) CommandResponse
version_work = create_version reads request "PL-2" "PRJ-1" 3 steps none

version_work-Returns : Returns version_work
unfolding create_version editable_project ensure_project_editable check_references check_steps
    write_version unique eligible_pairs record_command_success decimal decimal_before
version_work-Returns = refl

create_version-IsRoute_example : IsRoute reads project 3 steps
create_version-IsRoute_example =
    create_version-IsRoute reads request "PL-2" "PRJ-1" 3 steps none (writes_of version_work)
      (response_of version_work) {p = project} refl version_work-Returns

-- Dates in their ISO text, whose order is that of the texts.
abbrev calendar : Calendar
calendar = record {
  earlier = λ a b. elim (compare a b) [ Ordering.lt ↦ true | _ ↦ false ];
  iso = λ a. a;
}

calendar-IsCalendar : IsCalendar calendar
calendar-IsCalendar = record { earlier_iso = λ a b. refl; earlier_of_iso = λ a b. refl }

abbrev patch : PatchBody
patch = record {
  name = some "Rear armour";
  product_id = none;
  batch_size = some 500;
  planned_start = none;
  planned_end = some (some "2026-06-01");
}

abbrev patch_work : Work (Logged DraftWrite) CommandResponse
patch_work = patch_project reads request calendar "PRJ-1" 3 patch

patch_work-Returns : Returns patch_work
unfolding patch_project editable_project ensure_project_editable check_patch require_ordered_window
    inverted_window write_patch write_sizes write_lot_name record_command_success
patch_work-Returns = refl

abbrev delete_work : Work (Logged DraftWrite) CommandResponse
delete_work = delete_project reads request "PRJ-1" (some 3)

delete_work-Returns : Returns delete_work
unfolding delete_project remove_lot remove_parts_lists record_command_success
delete_work-Returns = refl

abbrev part_work : Work (Logged DraftWrite) CommandResponse
part_work = remove_part reads request "PRJ-1" "P-1" 3

part_work-Returns : Returns part_work
unfolding remove_part editable_project ensure_project_editable record_command_success
part_work-Returns = refl

abbrev ids : Ids
ids = record {
  project_id = "PRJ-1";
  requirement_id = λ m. "RQ-1";
  part_id = λ p. "P-1";
  parts_list_id = "PL-1";
  lot_id = "L-1";
}

abbrev requirement : Requirement
requirement = record { id = "RQ-1"; model_id = "M-1"; required_quantity = 500 }
