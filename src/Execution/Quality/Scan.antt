-- ===== src/Execution/Quality/Scan.antt =====
-- `resolveQualityInspectionByCode` of app/pats/quality-resolve.ts: the scan of a batch at a quality
-- gate, which opens an inspection where the batch has none there. The batches are a table here, each
-- with its inspections, the newest first; the query and the creation are one step.
pub mod Laws
mod Tests
use bnpi_pats_api.Base.{
  ℕ, String, List, [], ◌∷◌, Option, none, some, Bool, true, false, not, ◌&&◌, ◌||◌, str_eq, find,
  includes, or_else, if◌then◌else◌,
}
use bnpi_pats_api.Command.Problem.{problem_of, not_found, not_allowed_stage}
use bnpi_pats_api.Command.Idempotency.{Outcome, returned, failed}
use bnpi_pats_api.Execution.{
  InspectionStatus, open_inspection, in_progress, completed, cancelled, Inspection, Decision,
  stage_of, Position, Batch,
}
use bnpi_pats_api.Execution.Resolve.{ResolvedBatch}
use bnpi_pats_api.Floor.{update_many}

pub record GatedBatch : Type 0 where
  pub found : ResolvedBatch
  pub inspections : List Inspection

pub data BlockReason : Type 0 where
  not_found_reason not_allowed_reason already_closed no_capability : BlockReason

pub record BatchIdentity : Type 0 where
  pub batch_id : String
  pub batch_code : String
  pub barcode_value : String
  pub lot_id : String
  pub lot_code : String
  pub part_id : String
  pub part_name : String
  pub quantity : ℕ
  pub product_name : Option String
  pub model_name : Option String

pub record QcResolveBody : Type 0 where
  pub identity : BatchIdentity
  pub gate_stage_id : String
  pub inspection_id : String
  pub inspection_status : InspectionStatus
  pub row_version : ℕ
  pub created : Bool
  pub can_decide : Bool
  pub block_reason : Option BlockReason
  pub latest_decision : Option Decision

-- `OPEN_STATUSES` and `CLOSED_STATUSES`
abbrev pub is_open : InspectionStatus → Bool
is_open open_inspection = true
is_open in_progress = true
is_open _ = false

abbrev pub is_over : InspectionStatus → Bool
is_over completed = true
is_over cancelled = true
is_over _ = false

-- `identityFromBatch`
abbrev identity_from_batch : GatedBatch → BatchIdentity
identity_from_batch g = record {
  batch_id = g.found.batch.id;
  batch_code = g.found.batch.batch_code;
  barcode_value = g.found.barcode_value;
  lot_id = g.found.batch.lot_id;
  lot_code = g.found.lot_code;
  part_id = g.found.batch.part_id;
  part_name = g.found.part_name;
  quantity = g.found.batch.planned_quantity;
  product_name = g.found.product_name;
  model_name = or_else g.found.model_name g.found.model_number;
}

abbrev pub scanned_as : String → GatedBatch → Bool
scanned_as code g = str_eq g.found.barcode_value code || str_eq g.found.batch.batch_code code

abbrev pub is_batch : String → GatedBatch → Bool
is_batch id g = str_eq g.found.batch.id id

abbrev pub open_of : GatedBatch → Option Inspection
open_of g = find (λ i. is_open i.status) g.inspections

abbrev stage_or : Option Inspection → String → String
stage_or none stage = stage
stage_or (some i) stage = i.stage_id

-- The stage of the open inspection, or where the batch is.
abbrev pub gate_of : GatedBatch → String
gate_of g = stage_or (open_of g) (stage_of g.found.batch)

abbrev pub ends_at : String → Inspection → Bool
ends_at stage_id i = str_eq i.stage_id stage_id && is_over i.status

abbrev pub over_at : String → GatedBatch → Option Inspection
over_at stage_id g = find (ends_at stage_id) g.inspections

abbrev sub_stage : Option Position → Option String
sub_stage none = none
sub_stage (some p) = p.sub_stage_id

abbrev pub opened : String → GatedBatch → Inspection
opened fresh_id g = record {
  id = fresh_id;
  batch_id = g.found.batch.id;
  stage_id = gate_of g;
  sub_stage_id = sub_stage g.found.batch.position;
  status = open_inspection;
  row_version = 1;
  latest_decision = none;
}

-- The answers: an inspection to decide, one that is over, and one that was opened now.
abbrev pub answer : Bool → Bool → Option BlockReason → GatedBatch → Inspection → QcResolveBody
answer created can_decide reason g i = record {
  identity = identity_from_batch g;
  gate_stage_id = gate_of g;
  inspection_id = i.id;
  inspection_status = i.status;
  row_version = i.row_version;
  created = created;
  can_decide = can_decide;
  block_reason = reason;
  latest_decision = i.latest_decision;
}

abbrev pub inspected : Inspection → GatedBatch → GatedBatch
inspected i g = record g { inspections = i ∷ g.inspections }

-- The row of `qualityInspection.create`, which the query of a later scan returns first.
unfoldable pub open_inspection_of : String → GatedBatch → List GatedBatch → List GatedBatch
open_inspection_of fresh_id g s =
    update_many (is_batch g.found.batch.id) (inspected (opened fresh_id g)) s

-- The scan, once the batch is found; `allowed` are the stages of the subject.
unfoldable pub scan_batch :
    List String → String → GatedBatch → List GatedBatch → Outcome (QcResolveBody × List GatedBatch)
scan_batch allowed fresh_id g s =
    if not (includes allowed (gate_of g))
    then failed (problem_of not_allowed_stage)
    else elim (open_of g) [
      | some i ↦ returned (answer false true none g i, s)
      | none ↦ elim (over_at (gate_of g) g) [
        | some i ↦ returned (answer false false (some already_closed) g i, s)
        | none ↦
            returned (answer true true none g (opened fresh_id g), open_inspection_of fresh_id g s)
      ]
    ]

unfoldable pub resolve_quality_inspection_by_code :
    List String → String → String → List GatedBatch → Outcome (QcResolveBody × List GatedBatch)
resolve_quality_inspection_by_code allowed fresh_id scanned s = elim (find (scanned_as scanned) s) [
  | none ↦ failed (problem_of (not_found "No batch matches the scanned code."))
  | some g ↦ scan_batch allowed fresh_id g s
]
