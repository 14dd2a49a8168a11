-- ===== src/Printing/Tests.antt =====
-- A pack that is printed twice at its first station, with no printer at hand.
use bnpi_pats_api.Base.{
  String, [], ◌∷◌, none, some, true, false, ◌≡◌, ◌↔◌, refl, str_eq, if◌then◌else◌,
}
use bnpi_pats_api.Command.Problem.{problem_of, conflict}
use bnpi_pats_api.Command.Work.{done, thrown}
use bnpi_pats_api.Command.Idempotency.{returned}
use bnpi_pats_api.Command.Request.{Request}
use bnpi_pats_api.Route.{RouteStep}
use bnpi_pats_api.Execution.{Batch, Reads, active}
use bnpi_pats_api.Execution.StageEvent.{batch_route_context}
use bnpi_pats_api.Execution.Resolve.{label_quantity}
use bnpi_pats_api.Printing.{Station, Environment}
use bnpi_pats_api.Printing.Binding.{
  select_print_port, simulated, trimmed, is_connection, resolve_printer_binding,
}
use bnpi_pats_api.Printing.Binding.Laws.{resolve_printer_binding-simulated}
use bnpi_pats_api.Printing.Jobs.{
  Desk, PrintJob, simulated_delivery, printed, record_print_job, lacks_original, is_whole,
  label_quantity_of,
}
use bnpi_pats_api.Printing.Label.{build_label_ir}
use bnpi_pats_api.Printing.Label.{PrintJobBody, PrintJobBatch}
use bnpi_pats_api.Printing.Jobs.Laws.{
  IsNumbered, record_print_job-IsNumbered, record_print_job-agrees,
}

abbrev environment : Environment
environment = record { windows_name = none; address = some "  "; width_mm = none; height_mm = none }

abbrev station : Station
station = record {
  id = "SEC-1";
  name = "Injection 1";
  stage_id = "STG-1";
  printer_connection = none;
  printer_address = none;
  printer_language = none;
  printer_dpi = none;
  label_width_mm = some 120;
  label_height_mm = none;
}

resolve_printer_binding-simulated_example :
    (select_print_port (resolve_printer_binding environment station).connection ≡ simulated) ↔ (
      (is_connection "USB_AGENT" station.printer_connection ≡ false)
      × (is_connection "NETWORK" station.printer_connection ≡ false)
      × (trimmed environment.windows_name ≡ none)
      × (trimmed environment.address ≡ none)
      × (trimmed station.printer_address ≡ none))
resolve_printer_binding-simulated_example = resolve_printer_binding-simulated environment station

abbrev first_step : RouteStep
first_step = record {
  id = "R-1";
  part_id = "P-1";
  stage_id = "STG-1";
  sub_stage_id = none;
  step_order = 1;
}

abbrev batch : Batch
batch = record {
  id = "B-1";
  batch_code = "LOT-1-001";
  lot_id = "L-1";
  line_id = none;
  parts_list_id = "PL-1";
  project_id = "PRJ-1";
  part_id = "P-1";
  planned_quantity = 200;
  current_stage_id = "STG-0";
  current_sub_stage_id = none;
  status = active;
  row_version = 1;
  position = none;
}

abbrev pack : PrintJobBatch
pack = record {
  found = record {
    batch = batch;
    barcode_value = "PATS-1";
    lot_code = "LOT-1";
    part_code = "P";
    part_name = "Part";
    product_name = none;
    model_name = none;
    model_number = none;
    label_pack_size = 200;
    magnitude = none;
  };
  project = none;
  series_number = none;
  series_count = none;
}

abbrev desk : Desk
desk = record {
  environment = environment;
  station = λ id. if str_eq id "SEC-1" then some station else none;
  batch = λ id. if str_eq id "B-1" then some pack else none;
  routing_steps = λ list part. first_step ∷ [];
  stage_name = λ id. none;
  sub_stage_name = λ id. none;
  upper = λ text. text;
  render = λ language ir. ir.barcode_value;
  deliver = λ port address payload. record { status = simulated_delivery; failure_reason = none };
}

abbrev request : Request
request = record {
  canonical_subject = none;
  idempotency_key = none;
  if_match = none;
  correlation_id = none;
}

abbrev body : PrintJobBody
body = record {
  batch_id = "B-1";
  section_id = "SEC-1";
  reprint_of = none;
  actual_quantity = some 198;
  operator_name = none;
  machine_name = none;
}

abbrev first_label : PrintJob
first_label = printed desk request "t1" "J-1" body station pack []

first_print :
    record_print_job desk request "t1" "J-1" body [] ≡ returned (first_label, first_label ∷ [])
unfolding record_print_job printed lacks_original is_whole label_quantity_of build_label_ir
    label_quantity
first_print = refl

numbered : first_label.sequence ≡ 1
unfolding printed
numbered = refl

record_print_job-IsNumbered_example : IsNumbered (first_label ∷ [])
record_print_job-IsNumbered_example =
    record_print_job-IsNumbered desk request "t1" "J-1" body [] (first_label ∷ []) first_label
      (λ batch_id section_id. refl) first_print

abbrev reads : Reads
reads = record {
  batch = λ id. some batch;
  parts_list = λ id. some (first_step ∷ []);
  routing_steps = λ list part. first_step ∷ [];
  newest_inspection = λ id stage sub. none;
  inspection = λ id. none;
  allowed_stages = λ subject. [];
  has_analysis = λ id. false;
  violation = λ id. none;
  part_of_project = λ part project. true;
}

record_print_job-agrees_example :
    ((stage_id : String)
      → first_label.to_stage_id ≡ some stage_id
      → (e : RouteStep) × (e.stage_id ≡ stage_id)
        × (batch_route_context reads "B-1"
            ≡ done [] (record { batch = batch; route_steps = first_step ∷ []; expected = e })))
    × (first_label.to_stage_id ≡ none
        → batch_route_context reads "B-1"
          ≡ thrown (problem_of (conflict "The batch has no remaining forward route step.")))
record_print_job-agrees_example =
    record_print_job-agrees desk request "t1" "J-1" body [] (first_label ∷ []) first_label
      {b = pack} {steps = first_step ∷ []} reads first_print refl refl refl refl refl
