-- ===== src/Planning/Draft/Snapshot/Replace.antt =====
-- `PUT /projects/:projectId/model-requirements` of app/pats/command-router.ts: new quantities where
-- the models stay the same, else a new snapshot in place of the old one.
use bnpi_pats_api.Base.{
  ℕ, String, List, [], ◌∷◌, ◌++◌, Option, none, some, Bool, ◌&&◌, ◌+◌, ◌==◌, every, find, includes,
  length, str_eq, if◌then◌else◌,
}
use bnpi_pats_api.Base.Json.{str, nat, object, array, field, end}
use bnpi_pats_api.Command.Problem.{conflict}
use bnpi_pats_api.Command.Work.{Work, done, pure, ◌>>=◌, ◌>>◌, require, write}
use bnpi_pats_api.Command.Request.{Request}
use bnpi_pats_api.Command.Audit.{Logged, row, record_command_success}
use bnpi_pats_api.Command.Idempotency.{CommandResponse}
use bnpi_pats_api.Planning.{Project, Requirement}
use bnpi_pats_api.Planning.Response.{resource_headers}
use bnpi_pats_api.Planning.Draft.{
  Model, RequirementInput, DraftReads, DraftWrite, requirement_update, parts_list_create,
  lot_required_quantity, lot_parts_list, project_touch, routing_steps_delete, parts_lists_delete,
  parts_delete, requirements_delete, editable_project,
}
use bnpi_pats_api.Planning.Draft.Snapshot.{
  Ids, requirements_of, all_steps, all_parts, sum_required, model_ids, check_requirements,
  create_requirements, create_parts,
}
use bnpi_pats_api.Planning.Draft.Snapshot.Create.{requirement_items}

-- The same models, whatever the quantities.
abbrev pub same_models : List Requirement → List RequirementInput → Bool
same_models prior inputs =
    length prior == length (model_ids inputs)
    && every (λ q. includes (model_ids inputs) q.model_id) prior

abbrev input_for : List RequirementInput → String → Option RequirementInput
input_for inputs model_id = find (λ q. str_eq q.model_id model_id) inputs

abbrev prior_for : List Requirement → String → Option Requirement
prior_for prior model_id = find (λ q. str_eq q.model_id model_id) prior

-- The updates of the quantities that change, in the order of the request.
unfoldable pub quantity_updates :
    List Requirement → List RequirementInput → List (Logged DraftWrite)
quantity_updates prior [] = []
quantity_updates prior (q ∷ qs) =
    let rest = quantity_updates prior qs in
    elim (prior_for prior q.model_id) [
      | none ↦ rest
      | some p ↦
          if p.required_quantity == q.required_quantity
          then rest
          else row (requirement_update p.id q.required_quantity) ∷ rest
    ]

-- The prior rows with the quantities of the request. The code asserts that each is there.
abbrev pub requantified : List Requirement → List RequirementInput → List Requirement
requantified [] inputs = []
requantified (p ∷ ps) inputs = elim (input_for inputs p.model_id) [
  | none ↦ p ∷ requantified ps inputs
  | some q ↦ record p { required_quantity = q.required_quantity } ∷ requantified ps inputs
]

abbrev replaced_response : Project → List Requirement → String → CommandResponse
replaced_response project requirements parts_list_id = record {
  status = 200;
  body = object (
      field "modelRequirements" (array (requirement_items requirements)) (
        field "partsListVersionId" (str parts_list_id)
          (field "projectRowVersion" (nat (project.row_version + 1)) end)));
  headers = resource_headers project.id (project.row_version + 1);
}

abbrev replaced_detail : Request → Project → ℕ → String → Work (Logged DraftWrite) (Unit {0})
replaced_detail req project count parts_list_id =
    record_command_success req "PROJECT_MODEL_REQUIREMENTS_REPLACED" "Project" project.id
      (field "modelCount" (nat count) (field "partsListVersionId" (str parts_list_id) end))

unfoldable pub requantify :
    DraftReads
    → Request
    → Project
    → List RequirementInput
    → Work (Logged DraftWrite) CommandResponse
unfolding quantity_updates
requantify r req project inputs = do
  let prior = r.prior_requirements project.id
  done (quantity_updates prior inputs) tt
  parts_list_id ←
      require (r.latest_parts_list project.id)
        (conflict "The draft project has no parts-list version.")
  write (row (lot_required_quantity project.id (sum_required inputs)))
  write (row (project_touch project.id))
  replaced_detail req project (length prior) parts_list_id
  pure (replaced_response project (requantified prior inputs) parts_list_id)

-- The models in the order of the request.
abbrev model_for : List Model → String → List Model
model_for ms id = elim (find (λ m. str_eq m.id id) ms) [ none ↦ [] | some m ↦ m ∷ [] ]

abbrev pub models_in_order : List Model → List String → List Model
models_in_order ms [] = []
models_in_order ms (id ∷ ids) = model_for ms id ++ models_in_order ms ids

unfoldable pub remove_routes : Project → List String → Work (Logged DraftWrite) (Unit {0})
remove_routes p [] = pure tt
remove_routes p (id ∷ ids) = do
  write (row (routing_steps_delete (id ∷ ids)))
  write (row (parts_lists_delete p.id))

-- The lot's one update is written as its two parts.
unfoldable pub rebuild :
    DraftReads
    → Request
    → Ids
    → Project
    → List RequirementInput
    → Work (Logged DraftWrite) CommandResponse
unfolding remove_routes
rebuild r req ids project inputs = do
  remove_routes project (r.parts_lists project.id)
  write (row (parts_delete project.id))
  write (row (requirements_delete project.id))
  let requirements = requirements_of r ids project.id inputs
  let models = models_in_order (r.models (model_ids inputs)) (model_ids inputs)
  done (create_requirements project.id requirements) tt
  done (create_parts (all_parts r ids project.id requirements models)) tt
  write (
      row (
        parts_list_create ids.parts_list_id project.id 1 none
          (all_steps r ids project.id requirements models)))
  write (row (lot_parts_list project.id ids.parts_list_id 1))
  write (row (lot_required_quantity project.id (sum_required inputs)))
  write (row (project_touch project.id))
  replaced_detail req project (length requirements) ids.parts_list_id
  pure (replaced_response project requirements ids.parts_list_id)

unfoldable pub replace_requirements :
    DraftReads
    → Request
    → Ids
    → String
    → ℕ
    → List RequirementInput
    → Work (Logged DraftWrite) CommandResponse
replace_requirements r req ids target_id expected_version inputs = do
  project ← editable_project r target_id expected_version
  check_requirements r project.product_id inputs
  if same_models (r.prior_requirements project.id) inputs
      then requantify r req project inputs
      else rebuild r req ids project inputs
