-- ===== src/Floor/Sections.antt =====
-- Sections of the floor: `POST /sections`, `PATCH` and `DELETE /sections/:sectionId` of
-- app/pats/command-router.ts. The ids of new rows and JavaScript's `toUpperCase` are arguments.
pub mod Codes
pub mod Board
pub mod Removal
use Prim.Native.String.{◌++◌ as join}
use bnpi_pats_api.Base.{
  ℕ, suc, String, List, [], ◌∷◌, ◌++◌, map, Option, none, some, Bool, true, false, not, ◌&&◌, ◌||◌,
  ◌+◌, ltb, str_eq, any, find, first, is_some, get_or, opt_eq, keep, length, if◌then◌else◌,
}
use bnpi_pats_api.Base.Json.{str, end, field, object}
use bnpi_pats_api.Command.Audit.{opt_str}
use bnpi_pats_api.Command.Problem.{unique_constraint, not_found, conflict}
use bnpi_pats_api.Command.Request.{Request}
use bnpi_pats_api.Command.Idempotency.{CommandResponse}
use bnpi_pats_api.Floor.{
  Floor, Section, StationStep, WorkProcess, Booth, Line, Tx, pure, gets, found, ◌>>=◌, ◌>>◌,
  refuse_if, throw_if, restrict, modify, success, section_of, production_line_of, update_many,
  delete_many, count,
}
use Codes.{free_code, stem, code_taken}

pub record SectionCreateBody : Type 0 where
  pub name : String
  pub section_code : Option String
  pub production_line_id : Option String
  pub stage_id : Option String
  pub screen_type : Option String
  pub scanner_attached : Option Bool
  pub printer_attached : Option Bool
  pub display_order : Option ℕ

pub record SectionPatchBody : Type 0 where
  pub name : Option String
  pub section_code : Option String

unfoldable pub check_production_line : Option String → Tx (Unit {0})
check_production_line none = pure tt
check_production_line (some id) = do
  line ←
      found (λ s. production_line_of s.production_lines id)
        (not_found "The requested production line was not found.")
  pure tt

-- The stage that the body names, or the first one.
unfoldable pub owning_stage : Option String → Tx String
owning_stage (some id) =
    found (λ s. find (λ x. str_eq x id) s.stages)
      (not_found "The requested section stage was not found.")
owning_stage none = found (λ s. first s.stages) (not_found "No stage exists to own the section.")

-- The code that the body gives, if it is free, or the first free one made of the name.
unfoldable pub choose_code : (String → String) → String → Option String → Tx String
choose_code to_upper_case name (some code) = do
  taken ← gets (λ s. code_taken s.sections code)
  refuse_if taken (conflict "The section code is already in use.")
  pure code
choose_code to_upper_case name none = gets (λ s. free_code s.sections (stem to_upper_case name))

abbrev pub section_row : SectionCreateBody → String → String → String → ℕ → Section
section_row body id code stage order = record {
  id = id;
  name = body.name;
  section_code = some code;
  production_line_id = body.production_line_id;
  stage_id = stage;
  screen_type = get_or body.screen_type "COMPUTER";
  scanner_attached = get_or body.scanner_attached true;
  printer_attached = get_or body.printer_attached true;
  display_order = get_or body.display_order order;
}

abbrev is_eligible : Floor → String → String → Bool
is_eligible s stage sub_stage =
    any (λ (e : String × String). str_eq e.0 stage && str_eq e.1 sub_stage) s.eligible

abbrev step_row : (String → String) → String → String → String → StationStep
step_row new_id section_id stage sub_stage = record {
  id = new_id sub_stage;
  section_id = section_id;
  stage_id = stage;
  sub_stage_id = some sub_stage;
}

abbrev same_step : StationStep → StationStep → Bool
same_step a b =
    str_eq a.section_id b.section_id
    && str_eq a.stage_id b.stage_id
    && opt_eq a.sub_stage_id b.sub_stage_id

-- `createMany` with `skipDuplicates`, for the sub-stages that are eligible under the stage.
abbrev bind_steps : (String → String) → String → String → Floor → Floor
bind_steps new_id section_id stage s = record s {
  station_steps =
      s.station_steps
      ++ keep (λ step. not (any (same_step step) s.station_steps))
          (map (step_row new_id section_id stage) (keep (is_eligible s stage) s.sub_stages));
}

unfoldable pub create_section :
    (String → String)
    → Request
    → String
    → (String → String)
    → SectionCreateBody
    → Tx CommandResponse
unfolding check_production_line owning_stage choose_code
create_section to_upper_case req id new_id body = do
  check_production_line body.production_line_id
  stage ← owning_stage body.stage_id
  code ← choose_code to_upper_case body.name body.section_code
  order ← gets (λ s. length s.sections)
  let section = section_row body id code stage order
  modify (λ s. record s { sections = s.sections ++ section ∷ [] })
  modify (bind_steps new_id id stage)
  success req "SECTION_CREATED" "Section" id (field "sectionCode" (str code) end)
  pure (record {
    status = 201;
    body = object (
        field "sectionId" (str id)
          (field "sectionCode" (str code) (field "name" (str body.name) end)));
    headers = ("Location", join "/api/v1/sections/" id) ∷ [];
  })

abbrev pub has_section_id : String → Section → Bool
has_section_id id s = str_eq s.id id

abbrev pub renamed : SectionPatchBody → Section → Section
renamed body s = record s {
  name = get_or body.name s.name;
  section_code = elim body.section_code [ none ↦ s.section_code | some code ↦ some code ];
}

-- Another section has the new code: the unique constraint of the column.
abbrev other_has : Option String → String → Floor → Bool
other_has none id s = false
other_has (some code) id s =
    any (λ (x : Section). opt_eq x.section_code (some code) && not (str_eq x.id id)) s.sections

unfoldable pub patch_section : Request → String → SectionPatchBody → Tx CommandResponse
patch_section req id body = do
  section ← found (λ s. section_of s.sections id) (not_found "The requested section was not found.")
  refuse_if (not (is_some body.name || is_some body.section_code))
      (conflict "At least one field must be provided.")
  taken ← gets (other_has body.section_code id)
  throw_if taken unique_constraint
  modify (λ s. record s { sections = update_many (has_section_id id) (renamed body) s.sections })
  let updated = renamed body section
  success req "SECTION_UPDATED" "Section" id (field "name" (str updated.name) end)
  pure (record {
    status = 200;
    body = object (field "sectionId" (str id) (field "name" (str updated.name) end));
    headers = ("Location", join "/api/v1/sections/" id) ∷ [];
  })
