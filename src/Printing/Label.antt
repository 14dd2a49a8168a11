-- ===== src/Printing/Label.antt =====
-- What a label shows: `buildLabelIr` of app/pats/print-job.ts.
use bnpi_pats_api.Base.{ℕ, String, Option, none, some, get_or, if◌then◌else◌}
use bnpi_pats_api.Base.Text
use bnpi_pats_api.Execution.{Magnitude}
use bnpi_pats_api.Execution.Resolve.{ResolvedBatch}
use bnpi_pats_api.Printing.Binding.{Binding, trimmed}

pub record PrintJobBatch : Type 0 where
  pub found : ResolvedBatch
  pub project : Option (String × String)
  pub series_number : Option ℕ
  pub series_count : Option ℕ

pub record PrintJobBody : Type 0 where
  pub batch_id : String
  pub section_id : String
  pub reprint_of : Option String
  pub actual_quantity : Option ℕ
  pub operator_name : Option String
  pub machine_name : Option String

pub record LabelIr : Type 0 where
  pub barcode_value : String
  pub batch_code : String
  pub lot_code : String
  pub serial_number : String
  pub series_number : Option ℕ
  pub series_count : Option ℕ
  pub part_name : String
  pub part_code : String
  pub project_name : Option String
  pub codename : String
  pub quantity : Magnitude
  pub from_step_label : String
  pub to_step_label : String
  pub operator_name : Option String
  pub machine_name : Option String
  pub printed_at : String
  pub sequence : ℕ
  pub width_mm : ℕ
  pub height_mm : ℕ
  pub dpi : ℕ

abbrev pub non_empty : String → Option String
non_empty text = if Text.is_empty text then none else some text

abbrev project_name : Option (String × String) → Option String
project_name none = none
project_name (some (name, code)) = some name

-- `project?.projectCode || part.partCode`
abbrev codename : Option (String × String) → String → String
codename none part_code = part_code
codename (some (name, code)) part_code = get_or (non_empty code) part_code

-- `buildLabelIr`
unfoldable pub build_label_ir :
    PrintJobBatch → Magnitude → String → String → PrintJobBody → ℕ → Binding → String → LabelIr
build_label_ir b quantity from to body sequence binding printed_at = record {
  barcode_value = b.found.barcode_value;
  batch_code = b.found.batch.batch_code;
  lot_code = b.found.lot_code;
  serial_number = b.found.barcode_value;
  series_number = b.series_number;
  series_count = b.series_count;
  part_name = b.found.part_name;
  part_code = b.found.part_code;
  project_name = project_name b.project;
  codename = codename b.project b.found.part_code;
  quantity = quantity;
  from_step_label = from;
  to_step_label = to;
  operator_name = trimmed body.operator_name;
  machine_name = trimmed body.machine_name;
  printed_at = printed_at;
  sequence = sequence;
  width_mm = binding.width_mm;
  height_mm = binding.height_mm;
  dpi = binding.dpi;
}
