-- ===== src/Planning/Draft/Snapshot.antt =====
-- The snapshot of the catalog that a project takes (`POST /projects` and
-- `PUT /projects/:projectId/model-requirements` of app/pats/command-router.ts): one part per part of
-- each required model, and the steps of the catalog's route that are configured.
pub mod Laws
pub mod Create
pub mod Replace
use bnpi_pats_api.Base.{
  ℕ, String, List, [], ◌∷◌, ◌++◌, map, Option, none, some, Bool, true, false, not, ◌&&◌, ◌||◌, ◌+◌,
  ◌==◌, ltb, any, keep, find, includes, str_eq, length, if◌then◌else◌,
}
use bnpi_pats_api.Base.Text
use bnpi_pats_api.Base.Json.{Json, Items, Fields, null, nat, str, array, object, nil, cons, member}
use bnpi_pats_api.Command.Problem.{not_found, conflict}
use bnpi_pats_api.Command.Work.{Work, pure, ◌>>=◌, ◌>>◌, refuse_if}
use bnpi_pats_api.Command.Audit.{Logged, row}
use bnpi_pats_api.Planning.{Requirement}
use bnpi_pats_api.Planning.Draft.{
  ModelPart, Model, StepInput, RequirementInput, DraftReads, DraftWrite, PartRow,
  requirement_create, part_create,
}
use bnpi_pats_api.Planning.Draft.Routes.{unique, eligible_pairs, pair}

-- A step of a catalog route, before it has a part.
pub record CatalogStep : Type 0 where
  pub stage_id : String
  pub sub_stage_id : Option String
  pub step_order : ℕ

unfoldable pub text_of : Option Json → Option String
text_of (some (str s)) = some s
text_of _ = none

-- A positive integer, else the place of the step in the list.
unfoldable pub order_at : Option Json → ℕ → ℕ
order_at (some (nat n)) index = if ltb 0 n then n else index + 1
order_at _ index = index + 1

-- What one candidate gives: nothing without a stage.
unfoldable pub catalog_step : Json → ℕ → List CatalogStep
catalog_step (object fields) index = elim (text_of (member "stageId" fields)) [
  | none ↦ []
  | some stage_id ↦
      if Text.is_empty (Text.trim stage_id)
      then []
      else record {
        stage_id = stage_id;
        sub_stage_id = text_of (member "subStageId" fields);
        step_order = order_at (member "order" fields) index;
      }
        ∷ []
]
catalog_step _ index = []

unfoldable pub catalog_steps_from : Items → ℕ → List CatalogStep
catalog_steps_from nil index = []
catalog_steps_from (cons j js) index = catalog_step j index ++ catalog_steps_from js (index + 1)

-- `catalogRoutingSteps`
unfoldable pub catalog_routing_steps : Json → List CatalogStep
unfolding catalog_steps_from
catalog_routing_steps (array items) = catalog_steps_from items 0
catalog_routing_steps _ = []

-- The stage is configured, and so is the sub-stage under it.
abbrev pub is_configured : DraftReads → CatalogStep → Bool
is_configured r s = includes r.stages s.stage_id && elim s.sub_stage_id [
  | none ↦ true
  | some id ↦ includes (eligible_pairs r.sub_stages) (pair id s.stage_id)
]

abbrev pub step_of_part : String → CatalogStep → StepInput
step_of_part part_id s = record {
  part_id = part_id;
  stage_id = s.stage_id;
  sub_stage_id = s.sub_stage_id;
  step_order = s.step_order;
}

-- The ids that the database gives: to the requirement of a model, and to the part that is made of a
-- part of a model.
pub record Ids : Type 0 where
  pub project_id : String
  pub requirement_id : String → String
  pub part_id : String → String
  pub parts_list_id : String
  pub lot_id : String

module _ (r : DraftReads) (ids : Ids) (project_id : String) where
  -- The requirements, in the order of the request.
  abbrev pub requirements_of : List RequirementInput → List Requirement
  requirements_of [] = []
  requirements_of (q ∷ qs) =
      record {
        id = ids.requirement_id q.model_id;
        model_id = q.model_id;
        required_quantity = q.required_quantity;
      }
      ∷ requirements_of qs

  abbrev pub part_row : Model → Requirement → ModelPart → PartRow
  part_row m q p = record {
    id = ids.part_id p.id;
    project_id = project_id;
    part_code = p.part_code;
    part_name = p.part_name;
    planned_cycle_times = p.planned_cycle_times;
    source_model_id = m.id;
    source_model_part_id = p.id;
    requirement_id = q.id;
  }

  unfoldable pub steps_of_part : ModelPart → List StepInput
  steps_of_part p =
      map (step_of_part (ids.part_id p.id))
        (keep (is_configured r) (catalog_routing_steps p.routing_steps))

  unfoldable pub steps_of_parts : List ModelPart → List StepInput
  steps_of_parts [] = []
  steps_of_parts (p ∷ ps) = steps_of_part p ++ steps_of_parts ps

  unfoldable pub requirement_for : List Requirement → Model → Option Requirement
  requirement_for requirements m = find (λ q. str_eq q.model_id m.id) requirements

  -- The steps of all parts, `allSteps`, and the parts that are created.
  unfoldable pub all_steps : List Requirement → List Model → List StepInput
  all_steps requirements [] = []
  all_steps requirements (m ∷ ms) = elim (requirement_for requirements m) [
    | none ↦ all_steps requirements ms
    | some q ↦ steps_of_parts m.model_parts ++ all_steps requirements ms
  ]

  unfoldable pub all_parts : List Requirement → List Model → List PartRow
  all_parts requirements [] = []
  all_parts requirements (m ∷ ms) = elim (requirement_for requirements m) [
    | none ↦ all_parts requirements ms
    | some q ↦ map (part_row m q) m.model_parts ++ all_parts requirements ms
  ]

abbrev pub sum_required : List RequirementInput → ℕ
sum_required [] = 0
sum_required (q ∷ qs) = q.required_quantity + sum_required qs

abbrev pub model_ids : List RequirementInput → List String
model_ids qs = map (λ (q : RequirementInput). q.model_id) qs

abbrev pub foreign_to : Option String → Model → Bool
foreign_to none m = false
foreign_to (some product_id) m = not (str_eq m.product_id product_id)

-- The checks of the requirements that both commands make; `product_id` is the product, if one is
-- set.
unfoldable pub check_requirements :
    DraftReads → Option String → List RequirementInput → Work (Logged DraftWrite) (Unit {0})
check_requirements r product_id inputs = do
  refuse_if (not (length (unique (model_ids inputs)) == length (model_ids inputs)))
      (conflict "Each model may appear only once in the requirements.")
  refuse_if (not (length (r.models (model_ids inputs)) == length (model_ids inputs)))
      (not_found "Every requirement model was not found.")
  refuse_if (any (foreign_to product_id) (r.models (model_ids inputs)))
      (conflict "Every requirement model must belong to the project product.")

abbrev pub create_requirements : String → List Requirement → List (Logged DraftWrite)
create_requirements project_id qs = map (λ q. row (requirement_create project_id q)) qs

abbrev pub create_parts : List PartRow → List (Logged DraftWrite)
create_parts ps = map (λ p. row (part_create p)) ps
