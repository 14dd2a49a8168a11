-- ===== src/Planning.antt =====
-- The planning ledger: projects with their lot, model requirements, parts and route versions (the
-- routes `/projects` and `/batches` of app/pats/command-router.ts). This file has the rows that the
-- commands read and the writes that they issue. What the queries of a transaction return is the
-- record `PlanReads`, an argument of every command.
pub mod CycleTimes
pub mod Mint
pub mod Response
pub mod Release
pub mod Draft
use bnpi_pats_api.Base.{ℕ, String, Option, List, Bool, true, false}
use bnpi_pats_api.Base.Json.{Json}
use bnpi_pats_api.Route.{RouteStep}
use bnpi_pats_api.Execution.{BatchStatus, Disposition}

pub data ProjectStatus : Type 0 where
  draft_project released_project completed_project : ProjectStatus

pub record Project : Type 0 where
  pub id : String
  pub project_code : String
  pub name : String
  pub status : ProjectStatus
  pub product_id : Option String
  pub row_version : ℕ
  pub completed_at : Option String
  pub planned_start : Option String
  pub planned_end : Option String

pub record Requirement : Type 0 where
  pub id : String
  pub model_id : String
  pub required_quantity : ℕ

pub record Part : Type 0 where
  pub id : String
  pub part_code : String
  pub requirement_id : Option String
  pub cycle_times : Json
  pub cycle_times_override : Json

pub record Lot : Type 0 where
  pub id : String
  pub lot_code : String
  pub parts_list_id : String
  pub batch_count : ℕ

-- A batch of the project with its latest defect analysis.
pub record PlannedBatch : Type 0 where
  pub status : BatchStatus
  pub latest_disposition : Option Disposition

-- The answers of the database to the queries of one transaction.
pub record PlanReads : Type 0 where
  pub project : String → Option Project
  pub requirements : String → List Requirement
  pub parts : String → List Part
  pub lot_of : String → Option Lot
  pub route_steps : String → List RouteStep
  pub tray_standard : String → Option ℕ
  pub batch_count : String → String → ℕ
  pub planned_sum : String → String → ℕ
  pub batches : String → List PlannedBatch

pub record BatchRow : Type 0 where
  pub id : String
  pub batch_code : String
  pub barcode_value : String
  pub lot_id : String
  pub line_id : Option String
  pub planned_quantity : ℕ
  pub label_pack_size : ℕ
  pub requirement_id : Option String
  pub series_number : Option ℕ
  pub series_count : Option ℕ
  pub part_id : String
  pub current_stage_id : String
  pub current_sub_stage_id : Option String
  pub status : BatchStatus
  pub created_by_subject_id : String

pub record PositionRow : Type 0 where
  pub batch_id : String
  pub stage_id : String
  pub sub_stage_id : Option String
  pub quantity_magnitude : String
  pub quantity_uom : String

-- The writes. A project's release and completion name the time and the actor and increment
-- `rowVersion`; the activation is the `updateMany` of the planned batches of a project.
pub data PlanWrite : Type 0 where
  batch_create : BatchRow → PlanWrite
  position_create : PositionRow → PlanWrite
  project_release : String → String → String → PlanWrite
  project_complete : String → String → String → PlanWrite
  batches_activate : String → PlanWrite

abbrev pub is_draft : ProjectStatus → Bool
is_draft draft_project = true
is_draft _ = false

abbrev pub is_released : ProjectStatus → Bool
is_released released_project = true
is_released _ = false
