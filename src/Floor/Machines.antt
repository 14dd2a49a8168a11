-- ===== src/Floor/Machines.antt =====
-- `POST /production-lines` and the machines of a production line, of app/pats/command-router.ts. A new
-- row's id is an argument.
pub mod Codes
use Prim.Native.String.{◌++◌ as join}
use bnpi_pats_api.Base.{
  ℕ, String, [], ◌∷◌, ◌++◌, Option, none, some, Bool, true, false, not, ◌&&◌, ◌+◌, ◌==◌, str_eq,
  any, is_some, get_or, if◌then◌else◌,
}
use bnpi_pats_api.Base.Decimal.{quoted}
use bnpi_pats_api.Base.Json.{Json, bool, str, nat, Fields, end, field, object}
use bnpi_pats_api.Command.Problem.{not_found, conflict, stale_version}
use bnpi_pats_api.Command.Request.{Request}
use bnpi_pats_api.Command.Idempotency.{CommandResponse}
use bnpi_pats_api.Floor.{
  Floor, Machine, ProductionLine, Tx, pure, gets, found, ◌>>=◌, ◌>>◌, refuse_if, refuse_when,
  modify, success, if_match, machine_of, production_line_of, update_many, delete_many, count, named,
  text_of, number_of, flag_of,
}

pub record ProductionLineBody : Type 0 where
  pub line_code : String
  pub name : String
  pub display_order : Option ℕ

pub record MachineCreateBody : Type 0 where
  pub machine_code : String
  pub name : String
  pub display_order : Option ℕ
  pub is_enabled : Option Bool

pub record MachinePatchBody : Type 0 where
  pub name : Option String
  pub machine_code : Option String
  pub display_order : Option ℕ
  pub is_enabled : Option Bool

unfoldable pub create_production_line : Request → String → ProductionLineBody → Tx CommandResponse
create_production_line req id body = do
  refuse_when
      (λ s. any (λ (l : ProductionLine). str_eq l.line_code body.line_code) s.production_lines)
      (conflict "The production line code is already in use.")
  order ← gets (λ s. count (λ (l : ProductionLine). true) s.production_lines)
  let line : ProductionLine = record {
    id = id;
    line_code = body.line_code;
    name = body.name;
    display_order = get_or body.display_order order;
  }
  modify (λ s. record s { production_lines = s.production_lines ++ line ∷ [] })
  success req "PRODUCTION_LINE_CREATED" "ProductionLine" id
      (field "lineCode" (str body.line_code) end)
  pure (record {
    status = 201;
    body = object (
        field "productionLineId" (str id)
          (field "lineCode" (str body.line_code) (field "name" (str body.name) end)));
    headers = ("Location", join "/api/v1/production-lines/" id) ∷ [];
  })

abbrev pub has_code : String → Machine → Bool
has_code code m = str_eq m.machine_code code

abbrev pub has_machine_id : String → Machine → Bool
has_machine_id id m = str_eq m.id id

abbrev pub on_line : String → Machine → Bool
on_line line_id m = str_eq m.production_line_id line_id

abbrev pub machine_row : String → String → MachineCreateBody → ℕ → Machine
machine_row line_id id body order = record {
  id = id;
  production_line_id = line_id;
  machine_code = body.machine_code;
  name = body.name;
  display_order = get_or body.display_order order;
  is_enabled = get_or body.is_enabled true;
  row_version = 1;
}

abbrev machine_body : Machine → Json
machine_body m = object (
    field "machineId" (str m.id) (
      field "productionLineId" (str m.production_line_id) (
        field "machineCode" (str m.machine_code) (
          field "name" (str m.name) (
            field "displayOrder" (nat m.display_order) (
              field "isEnabled" (bool m.is_enabled)
                (field "rowVersion" (nat m.row_version) end)))))))

abbrev machine_location : Machine → String
machine_location m =
    join "/api/v1/production-lines/" (join m.production_line_id (join "/machines/" m.id))

unfoldable pub create_machine : Request → String → String → MachineCreateBody → Tx CommandResponse
create_machine req line_id id body = do
  line ←
      found (λ s. production_line_of s.production_lines line_id)
        (not_found "The requested production line was not found.")
  refuse_when (λ s. any (has_code body.machine_code) s.machines)
      (conflict "The machine code is already in use.")
  order ← gets (λ s. count (on_line line_id) s.machines)
  let machine = machine_row line_id id body order
  modify (λ s. record s { machines = s.machines ++ machine ∷ [] })
  success req "MACHINE_CREATED" "Machine" id
      (field "productionLineId" (str line_id) (field "machineCode" (str body.machine_code) end))
  pure (record {
    status = 201;
    body = machine_body machine;
    headers = ("Location", machine_location machine) ∷ [];
  })

-- The machine, on that production line, at the version that the client read.
unfoldable pub current_machine : Request → String → String → Tx Machine
current_machine req line_id id = do
  machine ← found (λ s. machine_of s.machines id) (not_found "The requested machine was not found.")
  refuse_if (not (on_line line_id machine)) (not_found "The requested machine was not found.")
  version ← if_match req "Machine"
  refuse_if (not (version == machine.row_version)) stale_version
  pure machine

-- Whether a machine has the new code, where the patch changes it.
abbrev pub clashes : Option String → Machine → Floor → Bool
clashes none m s = false
clashes (some code) m s = not (str_eq code m.machine_code) && any (has_code code) s.machines

abbrev pub patched : MachinePatchBody → Machine → Machine
patched body m = record m {
  name = get_or body.name m.name;
  machine_code = get_or body.machine_code m.machine_code;
  display_order = get_or body.display_order m.display_order;
  is_enabled = get_or body.is_enabled m.is_enabled;
  row_version = m.row_version + 1;
}

abbrev patch_detail : String → MachinePatchBody → Fields
patch_detail line_id body = field "productionLineId" (str line_id) (
    named "name" (text_of body.name) (
      named "machineCode" (text_of body.machine_code) (
        named "displayOrder" (number_of body.display_order)
          (named "isEnabled" (flag_of body.is_enabled) end))))

unfoldable pub patch_machine : Request → String → String → MachinePatchBody → Tx CommandResponse
unfolding current_machine
patch_machine req line_id id body = do
  machine ← current_machine req line_id id
  refuse_when (clashes body.machine_code machine) (conflict "The machine code is already in use.")
  modify (λ s. record s { machines = update_many (has_machine_id id) (patched body) s.machines })
  let updated = patched body machine
  success req "MACHINE_UPDATED" "Machine" id (patch_detail line_id body)
  pure (record {
    status = 200;
    body = machine_body updated;
    headers = ("ETag", quoted updated.row_version) ∷ [];
  })

unfoldable pub delete_machine : Request → String → String → Tx CommandResponse
unfolding current_machine
delete_machine req line_id id = do
  machine ← current_machine req line_id id
  modify (λ s. record s { machines = delete_many (has_machine_id id) s.machines })
  success req "MACHINE_DELETED" "Machine" id
      (field "productionLineId" (str line_id) (field "machineCode" (str machine.machine_code) end))
  pure (record {
    status = 200;
    body = object (field "machineId" (str id) (field "machineCode" (str machine.machine_code) end));
    headers = [];
  })
