-- ===== src/Planning/Draft/Snapshot/Create.antt =====
-- `POST /projects` of app/pats/command-router.ts: a draft with its specification, requirements,
-- parts, first route version and its one lot.
use Prim.Native.String.{◌++◌ as join}
use bnpi_pats_api.Base.{ℕ, String, List, [], ◌∷◌, Option, none, some, get_or}
use bnpi_pats_api.Base.Json.{Json, Items, Fields, str, nat, object, array, nil, cons, field, end}
use bnpi_pats_api.Command.Problem.{not_found}
use bnpi_pats_api.Command.Work.{Work, done, pure, ◌>>◌, refuse_if, write}
use bnpi_pats_api.Command.Request.{Request}
use bnpi_pats_api.Command.Audit.{Logged, row, record_command_success}
use bnpi_pats_api.Command.Idempotency.{CommandResponse}
use bnpi_pats_api.Route.{truthy}
use bnpi_pats_api.Planning.{Project, Requirement, draft_project}
use bnpi_pats_api.Planning.Response.{project_response, resource_headers}
use bnpi_pats_api.Planning.Draft.{
  RequirementInput, DraftReads, DraftWrite, project_create, specification_create, parts_list_create,
  lot_create,
}
use bnpi_pats_api.Planning.Draft.Edits.{
  Calendar, stored_date, require_ordered_window, unknown_product,
}
use bnpi_pats_api.Planning.Draft.Snapshot.{
  Ids, requirements_of, all_steps, all_parts, sum_required, model_ids, check_requirements,
  create_requirements, create_parts,
}

pub record ProjectBody : Type 0 where
  pub project_code : String
  pub name : String
  pub product_id : Option String
  pub batch_size : Option ℕ
  pub lot_code : Option String
  pub planned_start : Option String
  pub planned_end : Option String
  pub model_requirements : List RequirementInput

abbrev pub new_project : Calendar → Ids → ProjectBody → Project
new_project c ids body = record {
  id = ids.project_id;
  project_code = body.project_code;
  name = body.name;
  status = draft_project;
  product_id = body.product_id;
  row_version = 1;
  completed_at = none;
  planned_start = stored_date c body.planned_start;
  planned_end = stored_date c body.planned_end;
}

-- `body.lotCode ?? `${body.projectCode}-L1``
abbrev pub lot_code_of : ProjectBody → String
lot_code_of body = get_or body.lot_code (join body.project_code "-L1")

abbrev pub requirement_items : List Requirement → Items
requirement_items [] = nil
requirement_items (q ∷ qs) =
    cons
      (object (
        field "id" (str q.id) (
          field "modelId" (str q.model_id)
            (field "requiredQuantity" (nat q.required_quantity) end))))
      (requirement_items qs)

-- `{ ...projectResponse(…), modelRequirements, … }`
abbrev extended : Json → Fields → Json
extended (object fs) more = object (fields fs)
  where
    fields : Fields → Fields
    fields end = more
    fields (field k v rest) = field k v (fields rest)
extended j more = j

unfoldable pub check_project :
    DraftReads → Calendar → ProjectBody → Work (Logged DraftWrite) (Unit {0})
check_project r c body = do
  refuse_if (unknown_product r (some body.product_id))
      (not_found "The requested catalog product was not found.")
  require_ordered_window c body.planned_start body.planned_end
  check_requirements r (truthy body.product_id) body.model_requirements

-- The rows; `context_key` is the workspace of the deployment.
unfoldable pub write_project :
    DraftReads
    → Request
    → Calendar
    → Ids
    → String
    → ProjectBody
    → Work (Logged DraftWrite) CommandResponse
unfolding record_command_success
write_project r req c ids context_key body = do
  let project = new_project c ids body
  let pack_size = get_or body.batch_size 200
  let requirements = requirements_of r ids project.id body.model_requirements
  let models = r.models (model_ids body.model_requirements)
  write (row (project_create context_key project))
  write (row (specification_create project.id body.project_code body.name pack_size))
  done (create_requirements project.id requirements) tt
  done (create_parts (all_parts r ids project.id requirements models)) tt
  write (
      row (
        parts_list_create ids.parts_list_id project.id 1 none
          (all_steps r ids project.id requirements models)))
  write (
      row (
        lot_create (record {
          id = ids.lot_id;
          project_id = project.id;
          lot_code = lot_code_of body;
          lot_name = body.name;
          parts_list_id = ids.parts_list_id;
          required_quantity = sum_required body.model_requirements;
          label_pack_size = pack_size;
        })))
  record_command_success req "PROJECT_CREATED" "Project" project.id
      (field "projectCode" (str project.project_code) end)
  pure (record {
    status = 201;
    body = extended (project_response project (some pack_size)) (
        field "modelRequirements" (array (requirement_items requirements)) (
          field "partsListVersionId" (str ids.parts_list_id)
            (field "lotId" (str ids.lot_id) (field "lotCode" (str (lot_code_of body)) end))));
    headers = resource_headers project.id project.row_version;
  })

unfoldable pub create_project :
    DraftReads
    → Request
    → Calendar
    → Ids
    → String
    → ProjectBody
    → Work (Logged DraftWrite) CommandResponse
create_project r req c ids context_key body = do
  check_project r c body
  write_project r req c ids context_key body
