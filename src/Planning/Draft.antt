-- ===== src/Planning/Draft.antt =====
-- The commands on a draft project (the routes `/projects` and `/batches` of
-- app/pats/command-router.ts): creation, edits, model requirements, route versions, removal. This
-- file has the rows that they read and the writes that they issue.
pub mod Routes
pub mod Snapshot
pub mod Edits
pub mod Removal
pub mod Batches
pub mod Overrides
mod Tests
use Prim.Native.String.{◌++◌ as join}
use bnpi_pats_api.Base.{ℕ, String, List, Option, Bool, true, false, not, includes, ◌==◌, str_eq}
use bnpi_pats_api.Base.Json.{Json}
use bnpi_pats_api.Command.Problem.{conflict, not_found, stale_version}
use bnpi_pats_api.Command.Work.{Work, pure, ◌>>=◌, ◌>>◌, require, refuse_if}
use bnpi_pats_api.Command.Audit.{Logged}
use bnpi_pats_api.Planning.{
  Project, Requirement, BatchRow, PositionRow, ProjectStatus, draft_project,
}

pub record ModelPart : Type 0 where
  pub id : String
  pub part_code : String
  pub part_name : String
  pub planned_cycle_times : Json
  pub routing_steps : Json

pub record Model : Type 0 where
  pub id : String
  pub product_id : String
  pub model_parts : List ModelPart

pub record StepInput : Type 0 where
  pub part_id : String
  pub stage_id : String
  pub sub_stage_id : Option String
  pub step_order : ℕ

pub record RequirementInput : Type 0 where
  pub model_id : String
  pub required_quantity : ℕ

-- A sub-stage with the stages that it is eligible under.
pub record SubStage : Type 0 where
  pub id : String
  pub stage_ids : List String

pub record PartRef : Type 0 where
  pub id : String
  pub part_code : String
  pub requirement_id : Option String

-- The answers of the database to the queries of one transaction; those with a list of ids are the
-- rows whose id is in the list.
pub record DraftReads : Type 0 where
  pub project : String → Option Project
  pub product : String → Bool
  pub models : List String → List Model
  pub stages : List String
  pub sub_stages : List SubStage
  pub prior_requirements : String → List Requirement
  pub parts_lists : String → List String
  pub latest_version : String → Option ℕ
  pub latest_parts_list : String → Option String
  pub parts_in : String → List String → List String
  pub stages_in : List String → List String
  pub sub_stages_in : List String → List SubStage
  pub lot_of : String → Option String
  pub lot_project : String → Option String
  pub line : String → Bool
  pub part : String → String → Option PartRef
  pub batches_of_part : String → ℕ
  pub batches_of_lot : String → ℕ

pub record PartRow : Type 0 where
  pub id : String
  pub project_id : String
  pub part_code : String
  pub part_name : String
  pub planned_cycle_times : Json
  pub source_model_id : String
  pub source_model_part_id : String
  pub requirement_id : String

pub record LotRow : Type 0 where
  pub id : String
  pub project_id : String
  pub lot_code : String
  pub lot_name : String
  pub parts_list_id : String
  pub required_quantity : ℕ
  pub label_pack_size : ℕ

-- The writes, in the words of the tables: an update names the row and its new values, an optional
-- column that is left out is left alone, and a deletion names what its rows have in common.
pub data DraftWrite : Type 0 where
  project_create : String → Project → DraftWrite
  specification_create : String → String → String → ℕ → DraftWrite
  requirement_create : String → Requirement → DraftWrite
  requirement_update : String → ℕ → DraftWrite
  part_create : PartRow → DraftWrite
  parts_list_create : String → String → ℕ → Option String → List StepInput → DraftWrite
  lot_create : LotRow → DraftWrite
  lot_required_quantity : String → ℕ → DraftWrite
  lot_parts_list : String → String → ℕ → DraftWrite
  lot_label_pack_size : String → ℕ → DraftWrite
  lot_name : String → String → DraftWrite
  specification_tray : String → ℕ → DraftWrite
  project_edit :
      String
      → Option String
      → Option (Option String)
      → Option (Option String)
      → Option (Option String)
      → DraftWrite
  project_touch : String → DraftWrite
  cycle_times_override : String → Json → DraftWrite
  routing_steps_delete : List String → DraftWrite
  routing_steps_of_part_delete : String → DraftWrite
  parts_lists_delete : String → DraftWrite
  parts_lists_of_ids_delete : List String → DraftWrite
  parts_delete : String → DraftWrite
  requirements_delete : String → DraftWrite
  specifications_delete : String → DraftWrite
  workflow_groups_delete : String → DraftWrite
  change_logs_delete : String → DraftWrite
  allocations_delete : String → DraftWrite
  part_delete : String → DraftWrite
  lot_delete : String → DraftWrite
  project_delete : String → DraftWrite
  batch_create : BatchRow → DraftWrite
  position_create : PositionRow → DraftWrite

abbrev pub is_draft : ProjectStatus → Bool
is_draft draft_project = true
is_draft _ = false

-- `ensureProjectEditable`
unfoldable pub ensure_project_editable : Project → Work (Logged DraftWrite) (Unit {0})
ensure_project_editable project =
    refuse_if (not (is_draft project.status))
      (conflict "Released or completed projects cannot be edited.")

-- The project at the version that the client read, and editable.
unfoldable pub editable_project : DraftReads → String → ℕ → Work (Logged DraftWrite) Project
unfolding ensure_project_editable
editable_project r target_id expected_version = do
  project ← require (r.project target_id) (not_found "The requested project was not found.")
  refuse_if (not (project.row_version == expected_version)) stale_version
  ensure_project_editable project
  pure project
