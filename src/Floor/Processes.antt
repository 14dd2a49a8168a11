-- ===== src/Floor/Processes.antt =====
-- The tree of work processes: `POST /work-processes`, `PATCH /work-processes/:processId` and `DELETE
-- /work-processes/:processId` of app/pats/command-router.ts. A new row's id is an argument.
pub mod Chains
pub mod Climb
pub mod Removal
use Prim.Native.String.{◌++◌ as join}
use bnpi_pats_api.Base.{
  ℕ, zero, suc, String, List, [], ◌∷◌, ◌++◌, Option, none, some, Bool, true, false, not, ◌&&◌, ◌||◌,
  ◌+◌, ◌==◌, ltb, str_eq, find, any, is_some, or_else, includes, get_or, opt_eq, if◌then◌else◌,
}
use bnpi_pats_api.Base.Text
use bnpi_pats_api.Base.Json.{Json, null, bool, str, nat, Fields, end, field, object}
use bnpi_pats_api.Command.Audit.{opt_str}
use bnpi_pats_api.Command.Problem.{not_found, conflict, malformed}
use bnpi_pats_api.Command.Request.{Request}
use bnpi_pats_api.Command.Idempotency.{CommandResponse}
use bnpi_pats_api.Floor.{
  Floor, WorkProcess, Tx, pure, gets, found, ◌>>=◌, ◌>>◌, refuse_if, restrict, modify, success,
  process_of, update_many, count,
}

pub record ProcessCreateBody : Type 0 where
  pub section_id : Option String
  pub station_id : Option String
  pub sub_stage_id : Option String
  pub parent_process_id : Option String
  pub name : String

pub record ProcessPatchBody : Type 0 where
  pub name : Option String
  pub parent_process_id : Option (Option String)

-- `if (resolvedSubStageId)`, on text: the empty text is false.
abbrev pub truthy : Option String → Option String
truthy none = none
truthy (some s) = if Text.is_empty s then none else some s

unfoldable pub check_sub_stage : Option String → Tx (Unit {0})
check_sub_stage none = pure tt
check_sub_stage (some id) = do
  sub_stage ←
      found (λ s. find (λ x. str_eq x id) s.sub_stages)
        (not_found "The requested sub-stage was not found.")
  pure tt

-- The walk up the new parent's chain decides nothing here: it ends without a refusal.
unfoldable pub check_parent : Option String → Tx (Unit {0})
check_parent none = pure tt
check_parent (some id) = do
  refuse_if (Text.is_empty (Text.trim id)) (malformed "parentProcessId must be a valid identifier.")
  parent ←
      found (λ s. process_of s.processes id)
        (not_found "The requested parent process was not found.")
  pure tt

abbrev pub parent_missing : Option String → Floor → Bool
parent_missing none s = false
parent_missing (some id) s = not (is_some (process_of s.processes id))

abbrev pub process_row : ProcessCreateBody → String → ℕ → WorkProcess
process_row body id order = record {
  id = id;
  sub_stage_id = body.sub_stage_id;
  section_id = or_else body.section_id body.station_id;
  parent_process_id = body.parent_process_id;
  name = body.name;
  display_order = order;
  is_enabled = true;
}

abbrev process_detail : WorkProcess → Fields
process_detail p = field "subStageId" (opt_str p.sub_stage_id) (
    field "name" (str p.name) (
      field "sectionId" (opt_str p.section_id)
        (field "parentProcessId" (opt_str p.parent_process_id) end)))

abbrev process_body : WorkProcess → Json
process_body p = object (field "processId" (str p.id) (process_detail p))

abbrev pub in_sub_stage : Option String → WorkProcess → Bool
in_sub_stage id p = opt_eq p.sub_stage_id id

-- The sub-stage and the parent are read before the transaction, which then runs; the database itself
-- refuses a parent that is not there. Nothing asks whether the section is there: the column that holds
-- its id has no foreign key.
unfoldable pub create_process : Request → String → ProcessCreateBody → Tx CommandResponse
unfolding check_sub_stage check_parent
create_process req id body = do
  check_sub_stage (truthy body.sub_stage_id)
  check_parent (truthy body.parent_process_id)
  order ← gets (λ s. count (in_sub_stage body.sub_stage_id) s.processes)
  let process = process_row body id order
  restrict (parent_missing process.parent_process_id)
  modify (λ s. record s { processes = s.processes ++ process ∷ [] })
  success req "WORK_PROCESS_CREATED" "WorkProcess" id (process_detail process)
  pure (record {
    status = 201;
    body = process_body process;
    headers = ("Location", join "/api/v1/work-processes/" id) ∷ [];
  })

-- The hops that the walk makes at most.
abbrev pub maximum_hops : ℕ
maximum_hops = 50

-- The walk up from `cursor`: whether it meets the process that is to be moved.
unfoldable pub climb : ℕ → List WorkProcess → String → List String → Option String → Bool
climb zero ps target seen cursor = false
climb (suc hops) ps target seen none = false
climb (suc hops) ps target seen (some c) =
    if Text.is_empty c
    then false
    else if str_eq c target
    then true
    else if includes seen c
    then false
    else elim (process_of ps c) [
      | none ↦ false
      | some p ↦ climb hops ps target (c ∷ seen) p.parent_process_id
    ]

unfoldable pub check_new_parent : String → Option (Option String) → Tx (Unit {0})
check_new_parent id none = pure tt
check_new_parent id (some none) = pure tt
check_new_parent id (some (some parent_id)) = do
  refuse_if (str_eq parent_id id) (conflict "A process cannot be its own parent.")
  parent ←
      found (λ s. process_of s.processes parent_id)
        (not_found "The requested parent process was not found.")
  circular ← gets (λ s. climb maximum_hops s.processes id (parent.id ∷ []) parent.parent_process_id)
  refuse_if circular (conflict "The requested parent would create a circular reference.")

abbrev has_process_id : String → WorkProcess → Bool
has_process_id id p = str_eq p.id id

abbrev pub renamed : ProcessPatchBody → WorkProcess → WorkProcess
renamed body p = record p {
  name = get_or body.name p.name;
  parent_process_id = get_or body.parent_process_id p.parent_process_id;
}

unfoldable pub patch_process : Request → String → ProcessPatchBody → Tx CommandResponse
unfolding check_new_parent
patch_process req id body = do
  process ←
      found (λ s. process_of s.processes id) (not_found "The requested work process was not found.")
  check_new_parent id body.parent_process_id
  refuse_if (not (is_some body.name || is_some body.parent_process_id))
      (conflict "At least one field must be provided.")
  modify (λ s. record s { processes = update_many (has_process_id id) (renamed body) s.processes })
  let updated = renamed body process
  success req "WORK_PROCESS_UPDATED" "WorkProcess" id (field "name" (str updated.name) end)
  pure (record { status = 200; body = process_body updated; headers = [] })
