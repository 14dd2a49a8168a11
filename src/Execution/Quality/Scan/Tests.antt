-- ===== src/Execution/Quality/Scan/Tests.antt =====
-- A batch at a gate, scanned twice by an inspector, and the verdict that may follow.
use bnpi_pats_api.Base.{
  String, List, [], ◌∷◌, none, some, true, false, ◌≡◌, refl, str_eq, if◌then◌else◌,
}
use bnpi_pats_api.Command.Idempotency.{returned}
use bnpi_pats_api.Command.Request.{Request}
use bnpi_pats_api.Execution.{Batch, Reads, active}
use bnpi_pats_api.Execution.Quality.Scan.{
  GatedBatch, QcResolveBody, answer, opened, inspected, open_inspection_of, scan_batch,
  resolve_quality_inspection_by_code,
}
use bnpi_pats_api.Execution.Quality.Scan.Laws.{resolve_quality_inspection_by_code-again}

abbrev batch : Batch
batch = record {
  id = "B-1";
  batch_code = "LOT-1-001";
  lot_id = "L-1";
  line_id = none;
  parts_list_id = "PL-1";
  project_id = "PRJ-1";
  part_id = "P-1";
  planned_quantity = 200;
  current_stage_id = "STG-IQC";
  current_sub_stage_id = none;
  status = active;
  row_version = 3;
  position = some (record { stage_id = "STG-IQC"; sub_stage_id = none; route_step_id = none });
}

abbrev at_gate : GatedBatch
at_gate = record {
  found = record {
    batch = batch;
    barcode_value = "PATS-1";
    lot_code = "LOT-1";
    part_code = "P";
    part_name = "Part";
    product_name = none;
    model_name = none;
    model_number = none;
    label_pack_size = 200;
    magnitude = none;
  };
  inspections = [];
}

abbrev gate : List String
gate = "STG-IQC" ∷ []

abbrev floor : List GatedBatch
floor = at_gate ∷ []

abbrev scanned_floor : List GatedBatch
scanned_floor = inspected (opened "I-1" at_gate) at_gate ∷ []

abbrev shown : QcResolveBody
shown = answer true true none at_gate (opened "I-1" at_gate)

scan :
    resolve_quality_inspection_by_code gate "I-1" "PATS-1" floor ≡ returned (shown, scanned_floor)
unfolding resolve_quality_inspection_by_code scan_batch open_inspection_of
scan = refl

resolve_quality_inspection_by_code-again_example :
    resolve_quality_inspection_by_code gate "I-2" "PATS-1" scanned_floor
    ≡ returned (record shown { created = false }, scanned_floor)
resolve_quality_inspection_by_code-again_example =
    resolve_quality_inspection_by_code-again gate "I-1" "I-2" "PATS-1" floor scanned_floor shown
      scan

abbrev inspector : Request
inspector = record {
  canonical_subject = some (record { id = some "QI-1"; display_name_snapshot = none });
  idempotency_key = none;
  if_match = none;
  correlation_id = none;
}

abbrev reads : Reads
reads = record {
  batch = λ id. some batch;
  parts_list = λ id. none;
  routing_steps = λ id part. [];
  newest_inspection = λ id stage sub. none;
  inspection = λ id. if str_eq id "I-1" then some (opened "I-1" at_gate) else none;
  allowed_stages = λ subject. gate;
  has_analysis = λ id. false;
  violation = λ id. none;
  part_of_project = λ part project. false;
}
