-- ===== src/Planning/Draft/Routes.antt =====
-- `POST /projects/:projectId/parts-list-versions` of app/pats/command-router.ts: a new version of a
-- draft's route, whose steps are checked against the configured stages and against each other.
pub mod Laws
use Prim.Native.String.{◌++◌ as join}
use bnpi_pats_api.Base.{
  ℕ, String, List, [], ◌∷◌, ◌++◌, map, Option, none, some, Bool, true, false, not, ◌&&◌, ◌+◌, ◌==◌,
  any, includes, length, get_or, if◌then◌else◌,
}
use bnpi_pats_api.Base.Json.{str, nat, field, end, object}
use bnpi_pats_api.Base.Decimal.{decimal}
use bnpi_pats_api.Command.Problem.{not_found, conflict}
use bnpi_pats_api.Command.Work.{Work, pure, ◌>>=◌, ◌>>◌, refuse_if, write}
use bnpi_pats_api.Command.Request.{Request}
use bnpi_pats_api.Command.Audit.{Logged, row, record_command_success}
use bnpi_pats_api.Command.Idempotency.{CommandResponse}
use bnpi_pats_api.Planning.{Project}
use bnpi_pats_api.Planning.Response.{resource_headers}
use bnpi_pats_api.Planning.Draft.{
  StepInput, SubStage, DraftReads, DraftWrite, parts_list_create, lot_parts_list, project_touch,
  editable_project,
}

-- `[...new Set(texts)]`
abbrev unique_after : List String → List String → List String
unique_after seen [] = []
unique_after seen (s ∷ ss) =
    let rest = unique_after (s ∷ seen) ss in
    let dropped = unique_after seen ss in if includes seen s then dropped else s ∷ rest

unfoldable pub unique : List String → List String
unique ss = unique_after [] ss

abbrev pub sub_stage_ids : List StepInput → List String
sub_stage_ids [] = []
sub_stage_ids (s ∷ ss) = elim s.sub_stage_id [
  | none ↦ sub_stage_ids ss
  | some id ↦ id ∷ sub_stage_ids ss
]

-- The texts `subStageId:stageId` of the eligible pairs.
abbrev pub pair : String → String → String
pair sub_stage_id stage_id = join (join sub_stage_id ":") stage_id

unfoldable pub eligible_pairs : List SubStage → List String
eligible_pairs [] = []
eligible_pairs (s ∷ ss) = map (pair s.id) s.stage_ids ++ eligible_pairs ss

abbrev pub is_ineligible : List String → StepInput → Bool
is_ineligible pairs s = elim s.sub_stage_id [
  | none ↦ false
  | some id ↦ not (includes pairs (pair id s.stage_id))
]

-- The two keys of a step: its place on the route, and its order.
abbrev pub identity_of : StepInput → String
identity_of s = join (join (join (join s.part_id ":") s.stage_id) ":") (get_or s.sub_stage_id "")

abbrev pub order_of : StepInput → String
order_of s = join (join s.part_id ":") (decimal s.step_order)

-- The loop over the steps with its two sets of keys.
unfoldable pub check_steps :
    List StepInput → List String → List String → Work (Logged DraftWrite) (Unit {0})
check_steps [] identities orders = pure tt
check_steps (s ∷ ss) identities orders = do
  refuse_if (includes identities (identity_of s))
      (conflict "A part cannot repeat the same route stage.")
  refuse_if (includes orders (order_of s)) (conflict "A part cannot repeat a route step order.")
  check_steps ss (identity_of s ∷ identities) (order_of s ∷ orders)

-- The checks against the configured parts, stages and sub-stages.
unfoldable pub check_references :
    DraftReads → Project → List StepInput → Work (Logged DraftWrite) (Unit {0})
check_references r project steps = do
  let part_ids = unique (map (λ (s : StepInput). s.part_id) steps)
  refuse_if (not (length (r.parts_in project.id part_ids) == length part_ids))
      (not_found "Every route step must reference a part in the project.")
  let stage_ids = unique (map (λ (s : StepInput). s.stage_id) steps)
  let sub_stage_ids = unique (sub_stage_ids steps)
  let sub_stages = r.sub_stages_in sub_stage_ids
  refuse_if (not (length (r.stages_in stage_ids) == length stage_ids))
      (not_found "Every route step must reference a configured stage.")
  refuse_if (not (length sub_stages == length sub_stage_ids))
      (not_found "Every route step must reference a configured sub-stage.")
  refuse_if (any (is_ineligible (eligible_pairs sub_stages)) steps)
      (conflict "Every route sub-stage must be eligible under its selected stage.")

-- The new version: one more than the newest, and the lot cites it.
unfoldable pub write_version :
    DraftReads
    → Request
    → String
    → Project
    → List StepInput
    → Option String
    → Work (Logged DraftWrite) CommandResponse
unfolding record_command_success
write_version r req parts_list_id project steps source_revision_ref = do
  let version = get_or (r.latest_version project.id) 0 + 1
  write (row (parts_list_create parts_list_id project.id version source_revision_ref steps))
  write (row (lot_parts_list project.id parts_list_id version))
  write (row (project_touch project.id))
  record_command_success req "PROJECT_PARTS_LIST_VERSION_CREATED" "PartsList" parts_list_id (
      field "projectId" (str project.id)
        (field "version" (nat version) (field "stepCount" (nat (length steps)) end)))
  pure (record {
    status = 201;
    body = object (
        field "partsListVersionId" (str parts_list_id) (
          field "version" (nat version)
            (field "projectRowVersion" (nat (project.row_version + 1)) end)));
    headers = resource_headers project.id (project.row_version + 1);
  })

unfoldable pub create_version :
    DraftReads
    → Request
    → String
    → String
    → ℕ
    → List StepInput
    → Option String
    → Work (Logged DraftWrite) CommandResponse
create_version r req parts_list_id target_id expected_version steps source_revision_ref = do
  project ← editable_project r target_id expected_version
  check_references r project steps
  check_steps steps [] []
  write_version r req parts_list_id project steps source_revision_ref
