-- ===== src/Execution/Resolve/Tests.antt =====
-- A batch at the first of two steps, looked up by its code.
use bnpi_pats_api.Base.{ℕ, String, List, [], ◌∷◌, Option, none, some, true, false, ◌≡◌, refl}
use bnpi_pats_api.Command.Problem.{problem_of, conflict}
use bnpi_pats_api.Command.Work.{done, thrown}
use bnpi_pats_api.Command.Idempotency.{Outcome, returned}
use bnpi_pats_api.Route.{RouteStep, next_step, route_complete, of_part}
use bnpi_pats_api.Execution.{Batch, Reads, active}
use bnpi_pats_api.Execution.StageEvent.{batch_route_context}
use bnpi_pats_api.Execution.Resolve.{
  ResolvedBatch, ResolveBody, resolve_batch_by_code, carried_quantity,
}
use bnpi_pats_api.Execution.Resolve.Agreement.{resolve_batch_by_code-agrees}

abbrev step : String → String → ℕ → RouteStep
step id stage_id step_order = record {
  id = id;
  part_id = "P-1";
  stage_id = stage_id;
  sub_stage_id = none;
  step_order = step_order;
}

abbrev steps : List RouteStep
steps = step "R-1" "STG-INJECTION" 1 ∷ step "R-2" "STG-PAINTING" 2 ∷ []

abbrev batch : Batch
batch = record {
  id = "B-1";
  batch_code = "LOT-L1-B001";
  lot_id = "L-1";
  line_id = none;
  parts_list_id = "PL-1";
  project_id = "PRJ-1";
  part_id = "P-1";
  planned_quantity = 200;
  current_stage_id = "STG-INJECTION";
  current_sub_stage_id = none;
  status = active;
  row_version = 4;
  position =
      some (record { stage_id = "STG-INJECTION"; sub_stage_id = none; route_step_id = some "R-1" });
}

abbrev reads : Reads
reads = record {
  batch = λ id. some batch;
  parts_list = λ id. some steps;
  routing_steps = λ list part. steps;
  newest_inspection = λ id stage sub_stage. none;
  inspection = λ id. none;
  allowed_stages = λ subject. [];
  has_analysis = λ id. false;
  violation = λ id. none;
  part_of_project = λ part project. true;
}

abbrev found : ResolvedBatch
found = record {
  batch = batch;
  barcode_value = "LOT-L1-B001";
  lot_code = "LOT-L1";
  part_code = "A-01";
  part_name = "Armour";
  product_name = none;
  model_name = none;
  model_number = some "RX-78";
  label_pack_size = 200;
  magnitude = none;
}

abbrev find_batch : String → Option ResolvedBatch
find_batch s = some found

abbrev routing_steps : String → String → List RouteStep
routing_steps list part = of_part part steps

abbrev answer : Outcome ResolveBody
answer = resolve_batch_by_code find_batch routing_steps "LOT-L1-B001"

abbrev body : ResolveBody
body = record {
  batch_id = "B-1";
  batch_code = "LOT-L1-B001";
  barcode_value = "LOT-L1-B001";
  lot_id = "L-1";
  lot_code = "LOT-L1";
  part_id = "P-1";
  part_code = "A-01";
  part_name = "Armour";
  product_name = none;
  model_name = some "RX-78";
  planned_quantity = 200;
  carried = carried_quantity none 200;
  label_pack_size = 200;
  current_stage_id = "STG-INJECTION";
  current_sub_stage_id = none;
  next_expected_step = next_step steps (some "R-1");
  is_route_complete = route_complete steps (some "R-1");
}

answered : answer ≡ returned body
unfolding resolve_batch_by_code
answered = refl

resolve_batch_by_code-agrees_example :
    ((e : RouteStep)
      → next_step steps (some "R-1") ≡ some e
      → batch_route_context reads "B-1"
        ≡ done [] (record { batch = batch; route_steps = steps; expected = e }))
    × (route_complete steps (some "R-1") ≡ true
        → batch_route_context reads "B-1"
          ≡ thrown (problem_of (conflict "The batch has no remaining forward route step.")))
resolve_batch_by_code-agrees_example =
    resolve_batch_by_code-agrees reads find_batch routing_steps "LOT-L1-B001" {found = found}
      {body = body} {steps = steps} refl answered refl refl refl
