-- ===== src/Planning/Release.antt =====
-- `PATCH /projects/:projectId` with the status RELEASED or COMPLETED (app/pats/command-router.ts):
-- the release of a draft, which mints its batches and activates them, and the completion of a
-- released project. The version of `If-Match` is read before the command runs.
pub mod Laws
pub mod Readiness
pub mod Ledger
pub mod Plans
pub mod Returns
pub mod Outcome
pub mod Completion
mod Tests
use Prim.Native.String.{◌++◌ as join}
use bnpi_pats_api.Base.{
  ℕ, zero, suc, String, List, [], ◌∷◌, ◌++◌, map, Option, none, some, Bool, true, false, not, ◌&&◌,
  ◌||◌, ◌+◌, ◌==◌, ltb, any, every, length, str_eq, if◌then◌else◌,
}
use bnpi_pats_api.Base.Text
use bnpi_pats_api.Base.Json.{nat, field, end}
use bnpi_pats_api.Base.Decimal.{decimal}
use bnpi_pats_api.Command.Problem.{not_found, conflict, stale_version}
use bnpi_pats_api.Command.Work.{Work, done, pure, ◌>>=◌, ◌>>◌, require, refuse_if, write}
use bnpi_pats_api.Command.Request.{Request, actor_id}
use bnpi_pats_api.Command.Audit.{Logged, row, record_command_success}
use bnpi_pats_api.Command.Idempotency.{CommandResponse}
use bnpi_pats_api.Execution.{planned, closed, scrapped, BatchStatus, Disposition, scrap}
use bnpi_pats_api.Planning.{
  Project, Requirement, Part, Lot, PlannedBatch, PlanReads, PlanWrite, BatchRow, batch_create,
  position_create, project_release, project_complete, batches_activate, is_draft, is_released,
  released_project, completed_project,
}
use bnpi_pats_api.Route.{RouteStep}
use bnpi_pats_api.Planning.CycleTimes.{missing_cycle_times}
use bnpi_pats_api.Planning.Mint.{Tray, mint_all}
use bnpi_pats_api.Planning.Response.{project_response, resource_headers, default_batch_size}

abbrev pub is_nil {ℓ} : {A : Type ℓ} → List A → Bool
is_nil [] = true
is_nil (_ ∷ _) = false

-- `!part.projectModelRequirementId || !requirementIds.has(part.projectModelRequirementId)`
abbrev pub is_orphan : List Requirement → Part → Bool
is_orphan requirements part = elim part.requirement_id [
  | none ↦ true
  | some id ↦ Text.is_empty id || not (any (λ q. str_eq q.id id) requirements)
]

-- `spec && spec.trayQuantityStandard > 0 ? spec.trayQuantityStandard : 200`
unfoldable pub release_batch_size : Option ℕ → ℕ
release_batch_size none = default_batch_size
release_batch_size (some n) = if ltb 0 n then n else default_batch_size

-- The sort by `localeCompare`, whose order is the argument: `locale_le a b` where `a` does not come
-- after `b`.
unfoldable pub insert_part : (String → String → Bool) → Part → List Part → List Part
insert_part locale_le p [] = p ∷ []
insert_part locale_le p (q ∷ qs) =
    let rest = insert_part locale_le p qs in
    if locale_le p.part_code q.part_code then p ∷ q ∷ qs else q ∷ rest

unfoldable pub sort_parts : (String → String → Bool) → List Part → List Part
sort_parts locale_le [] = []
sort_parts locale_le (p ∷ ps) = insert_part locale_le p (sort_parts locale_le ps)

-- `String(n).padStart(3, "0")`
abbrev pad_three : ℕ → String
pad_three n =
    if ltb n 10
    then join "00" (decimal n)
    else if ltb n 100
    then join "0" (decimal n)
    else decimal n

abbrev pub batch_code : String → ℕ → String
batch_code lot_code sequence = join (join lot_code "-B") (pad_three sequence)

-- `codes.slice(0, 10).join(", ")`
abbrev listed : ℕ → List Part → String
listed zero ps = ""
listed (suc n) [] = ""
listed (suc n) (p ∷ ps) = elim ps [
  | [] ↦ p.part_code
  | q ∷ qs ↦ if n == 0 then p.part_code else join (join p.part_code ", ") (listed n (q ∷ qs))
]

module _ (req : Request) (lot : Lot) (batch_size : ℕ) (batch_id : ℕ → String) where
  -- A minted batch, whose id the database gives.
  abbrev pub minted_row : Tray → BatchRow
  minted_row t = record {
    id = batch_id t.sequence;
    batch_code = batch_code lot.lot_code t.sequence;
    barcode_value = batch_code lot.lot_code t.sequence;
    lot_id = lot.id;
    line_id = none;
    planned_quantity = t.planned_quantity;
    label_pack_size = batch_size;
    requirement_id = some t.requirement_id;
    series_number = some t.series_number;
    series_count = some t.series_count;
    part_id = t.part_id;
    current_stage_id = "STG-PROJECTS";
    current_sub_stage_id = none;
    status = planned;
    created_by_subject_id = actor_id req;
  }

  -- The two rows of a minted batch.
  abbrev pub tray_writes : Tray → List PlanWrite
  tray_writes t =
      batch_create (minted_row t)
      ∷ position_create (record {
        batch_id = batch_id t.sequence;
        stage_id = "STG-PROJECTS";
        sub_stage_id = none;
        quantity_magnitude = decimal t.planned_quantity;
        quantity_uom = "EA";
      })
      ∷ []

  unfoldable pub mint_writes : List Tray → List (Logged PlanWrite)
  mint_writes [] = []
  mint_writes (t ∷ ts) = map row (tray_writes t) ++ mint_writes ts

-- The route steps that the gate reads: none where the lot cites no parts list.
abbrev pub gate_route : PlanReads → Lot → List RouteStep
gate_route r lot = if Text.is_empty lot.parts_list_id then [] else r.route_steps lot.parts_list_id

abbrev pub release_response : Project → CommandResponse
release_response project = record {
  status = 200;
  body = project_response project none;
  headers = resource_headers project.id project.row_version;
}

module _ (r : PlanReads) (locale_le : String → String → Bool) (req : Request)
    (batch_id : ℕ → String) (now target_id : String) (expected_version : ℕ) where
  -- The trays of a release.
  unfoldable pub release_trays : Project → Lot → List Tray
  release_trays current lot =
      mint_all r lot.id (r.requirements current.id)
        (release_batch_size (r.tray_standard current.id)) lot.batch_count
        (sort_parts locale_le (r.parts current.id))

  -- The checks of a release, up to the cycle-time gate, with the lot that they read.
  unfoldable pub release_gate : Project → Work (Logged PlanWrite) Lot
  release_gate current = do
    refuse_if (not (current.row_version == expected_version)) stale_version
    refuse_if (not (is_draft current.status)) (conflict "Only draft projects can be released.")
    let requirements = r.requirements current.id
    refuse_if (is_nil requirements)
        (conflict "A project with no model requirements cannot be released.")
    let parts = r.parts current.id
    refuse_if (is_nil parts) (conflict "A project with no parts cannot be released.")
    refuse_if (any (is_orphan requirements) parts)
        (conflict "Every project part must belong to a model requirement before release.")
    lot ← require (r.lot_of current.id) (conflict "Create the lot before releasing the project.")
    let missing = missing_cycle_times (gate_route r lot) parts
    refuse_if (not (is_nil missing)) (
        conflict (
          join (join "Cycle times are missing for route steps of: " (listed 10 missing))
            ". Time every step before release."))
    pure lot

  -- The writes of a release.
  unfoldable pub publish : Project → Lot → Work (Logged PlanWrite) CommandResponse
  publish current lot = do
    let batch_size = release_batch_size (r.tray_standard current.id)
    let trays = release_trays current lot
    done (mint_writes req lot batch_size batch_id trays) tt
    write (row (project_release current.id now (actor_id req)))
    let project = record current {
      status = released_project;
      row_version = current.row_version + 1;
    }
    write (row (batches_activate project.id))
    record_command_success req "PROJECT_RELEASED" "Project" project.id (
        field "rowVersion" (nat project.row_version)
          (field "mintedBatchCount" (nat (length trays)) end))
    pure (release_response project)

  unfoldable pub release_project : Work (Logged PlanWrite) CommandResponse
  release_project = do
    current ← require (r.project target_id) (not_found "The requested project was not found.")
    lot ← release_gate current
    publish current lot

-- A batch that production closed, or that a SCRAP analysis scrapped.
abbrev pub is_resolved : PlannedBatch → Bool
is_resolved b = elim b.status [
  | closed ↦ true
  | scrapped ↦ elim b.latest_disposition [ some scrap ↦ true | _ ↦ false ]
  | _ ↦ false
]

unfoldable pub has_unresolved : List PlannedBatch → Bool
has_unresolved bs = any (λ b. not (is_resolved b)) bs

unfoldable pub complete_project :
    PlanReads → Request → String → String → ℕ → Work (Logged PlanWrite) CommandResponse
complete_project r req now target_id expected_version = do
  current ← require (r.project target_id) (not_found "The requested project was not found.")
  refuse_if (not (current.row_version == expected_version)) stale_version
  refuse_if (not (is_released current.status)) (conflict "Only released projects can be completed.")
  refuse_if (is_nil (r.batches current.id))
      (conflict "A project with no batches cannot be completed.")
  refuse_if (has_unresolved (r.batches current.id)) (
      conflict
        "Every batch requires production close-out (FG) or a SCRAP analysis; unresolved QC, rework, or hold prevents completion.")
  write (row (project_complete current.id now (actor_id req)))
  let project = record current {
    status = completed_project;
    row_version = current.row_version + 1;
    completed_at = some now;
  }
  record_command_success req "PROJECT_COMPLETED" "Project" project.id
      (field "rowVersion" (nat project.row_version) end)
  pure (release_response project)
