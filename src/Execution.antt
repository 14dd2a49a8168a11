-- ===== src/Execution.antt =====
-- The execution ledger: batches on the floor, their scans, quality verdicts, defect analyses and
-- closure (the routes `/stage-events` to `/routing-violations` of app/pats/command-router.ts).
-- This file has the rows that the commands read and the writes that they issue; the enumerations
-- and the rows are those of prisma/pats/schema.prisma. What the queries of a transaction return is
-- the record `Reads`, an argument of every command.
pub mod StageEvent
pub mod Inventory
pub mod Quality
pub mod Defects
pub mod Closure
pub mod Violations
pub mod Effects
pub mod Lifecycle
pub mod Resolve
use bnpi_pats_api.Base.{ℕ, String, Option, none, some, Bool, true, false, List, get_or, or_else}
use bnpi_pats_api.Base.Json.{Json}
use bnpi_pats_api.Route.{RouteStep}

pub data BatchStatus : Type 0 where
  planned active held closed scrapped : BatchStatus

pub data StageEventStatus : Type 0 where
  recorded accepted blocked corrected : StageEventStatus

pub data InspectionStatus : Type 0 where
  open_inspection in_progress completed cancelled : InspectionStatus

pub data Decision : Type 0 where
  passed failed hold : Decision

pub data Disposition : Type 0 where
  rework scrap waive : Disposition

pub data ViolationStatus : Type 0 where
  open_violation acknowledged resolved waived : ViolationStatus

pub data TransactionType : Type 0 where
  receiving issuance : TransactionType

pub data TransactionStatus : Type 0 where
  recorded_transaction accepted_transaction corrected_transaction : TransactionStatus

-- A decimal column: a count of pieces, or a decimal string of the request.
pub data Magnitude : Type 0 where
  pieces : ℕ → Magnitude
  decimal : String → Magnitude

pub record Position : Type 0 where
  pub stage_id : String
  pub sub_stage_id : Option String
  pub route_step_id : Option String

-- A batch with its lot and its position projection, as the commands include them, without the columns
-- that none of them reads.
pub record Batch : Type 0 where
  pub id : String
  pub batch_code : String
  pub lot_id : String
  pub line_id : Option String
  pub parts_list_id : String
  pub project_id : String
  pub part_id : String
  pub planned_quantity : ℕ
  pub current_stage_id : String
  pub current_sub_stage_id : Option String
  pub status : BatchStatus
  pub row_version : ℕ
  pub position : Option Position

-- An inspection with its latest decision.
pub record Inspection : Type 0 where
  pub id : String
  pub batch_id : String
  pub stage_id : String
  pub sub_stage_id : Option String
  pub status : InspectionStatus
  pub row_version : ℕ
  pub latest_decision : Option Decision

pub record Violation : Type 0 where
  pub id : String
  pub batch_id : String
  pub status : ViolationStatus

-- The answers of the database to the queries of one transaction: `findUnique`, `findFirst` and
-- `findMany` with the `where` clause and the order that the code gives.
pub record Reads : Type 0 where
  pub batch : String → Option Batch
  pub parts_list : String → Option (List RouteStep)
  pub routing_steps : String → String → List RouteStep
  pub newest_inspection : String → String → Option String → Option Inspection
  pub inspection : String → Option Inspection
  pub allowed_stages : String → List String
  pub has_analysis : String → Bool
  pub violation : String → Option Violation
  pub part_of_project : String → String → Bool

abbrev pub is_closed : BatchStatus → Bool
is_closed closed = true
is_closed _ = false

abbrev pub is_scrapped : BatchStatus → Bool
is_scrapped scrapped = true
is_scrapped _ = false

abbrev pub is_held : BatchStatus → Bool
is_held held = true
is_held _ = false

abbrev pub is_active : BatchStatus → Bool
is_active active = true
is_active _ = false

abbrev pub is_passed : Option Decision → Bool
is_passed (some passed) = true
is_passed _ = false

-- The latest decision of an inspection that may be missing, `inspection?.decisions[0]?.decision`.
abbrev pub verdict : Option Inspection → Option Decision
verdict none = none
verdict (some i) = i.latest_decision

abbrev position_stage : Option Position → Option String
position_stage none = none
position_stage (some p) = some p.stage_id

abbrev position_sub_stage : Option Position → Option String
position_sub_stage none = none
position_sub_stage (some p) = p.sub_stage_id

abbrev position_step : Option Position → Option String
position_step none = none
position_step (some p) = p.route_step_id

-- `batch.positionProjection?.stageId ?? batch.currentStageId`
abbrev pub stage_of : Batch → String
stage_of b = get_or (position_stage b.position) b.current_stage_id

-- `batch.positionProjection?.subStageId ?? batch.currentSubStageId`
abbrev pub sub_stage_of : Batch → Option String
sub_stage_of b = or_else (position_sub_stage b.position) b.current_sub_stage_id

-- `batch.positionProjection?.routeStepId`
abbrev pub step_of : Batch → Option String
step_of b = position_step b.position

pub record StageEventRow : Type 0 where
  pub id : String
  pub stage_id : String
  pub sub_stage_id : Option String
  pub event_type : String
  pub batch_id : String
  pub lot_id : String
  pub part_id : String
  pub quantity : Option ℕ
  pub occurred_at : String
  pub actor : String
  pub is_routing_violation : Bool
  pub status : StageEventStatus
  pub route_step_id : Option String
  pub actor_subject_id : String
  pub quantity_magnitude : Option String
  pub quantity_uom : Option String
  pub usage_basis : Option String
  pub source_representation : Option String

pub record InventoryRow : Type 0 where
  pub id : String
  pub transaction_type : TransactionType
  pub batch_id : String
  pub part_id : String
  pub lot_id : String
  pub from_stage_id : Option String
  pub from_sub_stage_id : Option String
  pub to_stage_id : String
  pub to_sub_stage_id : Option String
  pub expected_quantity : ℕ
  pub actual_quantity : ℕ
  pub withdrawal_form_ref : Option String
  pub recorded_at : String
  pub recorded_by : String
  pub recorded_by_subject_id : String
  pub status : TransactionStatus
  pub expected_quantity_magnitude : Magnitude
  pub actual_quantity_magnitude : Magnitude
  pub quantity_uom : Option String
  pub usage_basis : Option String

pub record ProjectionRow : Type 0 where
  pub stage_id : String
  pub sub_stage_id : Option String
  pub route_step_id : String
  pub last_event_id : String
  pub position_status : StageEventStatus
  pub quantity_magnitude : Option String
  pub quantity_uom : Option String

pub record ViolationRow : Type 0 where
  pub id : String
  pub stage_event_id : String
  pub batch_id : String
  pub lot_id : String
  pub part_id : String
  pub attempted_stage_id : String
  pub attempted_sub_stage_id : Option String
  pub expected_steps : List RouteStep
  pub detected_at : String
  pub status : ViolationStatus

pub record InspectionRow : Type 0 where
  pub id : String
  pub batch_id : String
  pub stage_id : String
  pub sub_stage_id : Option String
  pub section_id : Option String
  pub inspected_quantity : Option String
  pub quantity_uom : Option String
  pub status : InspectionStatus
  pub inspected_by_subject_id : String
  pub evidence : Option Json

pub record DecisionRow : Type 0 where
  pub id : String
  pub inspection_id : String
  pub decision : Decision
  pub decided_by_subject_id : String

pub record AnalysisRow : Type 0 where
  pub id : String
  pub inspection_id : String
  pub batch_id : String
  pub reason_code : String
  pub reason_note : Option String
  pub disposition : Disposition
  pub decided_by_subject_id : String

-- The writes. An update names the row and its new values; where the code increments
-- `rowVersion`, so does the write.
pub data Write : Type 0 where
  stage_event_create : StageEventRow → Write
  inventory_create : InventoryRow → Write
  batch_move : String → String → Option String → Write
  projection_update : String → ProjectionRow → Write
  violation_create : ViolationRow → Write
  violation_resolve : String → String → String → String → String → Write
  batch_status : String → BatchStatus → Write
  inspection_create : InspectionRow → Write
  inspection_update : String → InspectionStatus → Option String → Write
  decision_create : DecisionRow → Write
  analysis_create : AnalysisRow → Write
