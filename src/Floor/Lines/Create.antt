-- ===== src/Floor/Lines/Create.antt =====
-- `POST /lines` of app/pats/command-router.ts. The new row's id is an argument.
use Prim.Native.String.{◌++◌ as join}
use bnpi_pats_api.Base.{ℕ, String, [], ◌∷◌, ◌++◌, Option, some, true, not, ltb, get_or}
use bnpi_pats_api.Base.Json.{Json, str, end, field, object, Headers}
use bnpi_pats_api.Command.Audit.{opt_str}
use bnpi_pats_api.Command.Problem.{unique_constraint, not_found, conflict}
use bnpi_pats_api.Command.Request.{Request}
use bnpi_pats_api.Command.Idempotency.{CommandResponse}
use bnpi_pats_api.Base.Decimal.{quoted}
use bnpi_pats_api.Floor.Lines.{
  active_subject, missing_leader, inactive_leader, is_child_of, code_taken, state_fields,
  in_section,
}
use bnpi_pats_api.Floor.{
  Line, Tx, pure, gets, found, ◌>>=◌, ◌>>◌, refuse_if, refuse_when, throw_if, modify, success,
  section_of, process_of, count,
}

pub record LineCreateBody : Type 0 where
  pub section_id : String
  pub process_id : String
  pub line_code : String
  pub label : Option String
  pub assigned_leader_id : String
  pub display_order : Option ℕ

abbrev pub row_of : LineCreateBody → String → ℕ → Line
row_of body id order = record {
  id = id;
  section_id = body.section_id;
  process_id = body.process_id;
  line_code = body.line_code;
  label = body.label;
  assigned_leader_id = body.assigned_leader_id;
  active_leader_id = some body.assigned_leader_id;
  display_order = order;
  is_enabled = true;
  row_version = 1;
}

abbrev line_headers : Line → Headers
line_headers l = ("Location", join "/api/v1/lines/" l.id) ∷ ("ETag", quoted l.row_version) ∷ []

abbrev created_body : Line → Json
created_body l = object (
    field "lineId" (str l.id) (
      field "lineCode" (str l.line_code) (
        field "sectionId" (str l.section_id) (
          field "processId" (str l.process_id) (
            field "assignedLeaderId" (str l.assigned_leader_id)
              (field "activeLeaderId" (opt_str l.active_leader_id) (state_fields l)))))))

unfoldable pub create_line : Request → String → LineCreateBody → Tx CommandResponse
unfolding active_subject
create_line req id body = do
  section ←
      found (λ s. section_of s.sections body.section_id)
        (not_found "The requested section was not found.")
  process ←
      found (λ s. process_of s.processes body.process_id)
        (not_found "The requested work process was not found.")
  refuse_if (not process.is_enabled) (conflict "The requested work process is disabled.")
  refuse_when (λ s. ltb 0 (count (is_child_of body.process_id) s.processes))
      (conflict "Lines attach to leaf processes only; parent counts roll up.")
  leader ← active_subject body.assigned_leader_id missing_leader inactive_leader
  siblings ← gets (λ s. count (in_section body.section_id) s.lines)
  taken ← gets (code_taken id body.line_code)
  throw_if taken unique_constraint
  let line = row_of body id (get_or body.display_order siblings)
  modify (λ s. record s { lines = s.lines ++ line ∷ [] })
  success req "LINE_CREATED" "Line" line.id (
      field "lineCode" (str line.line_code) (
        field "processId" (str line.process_id)
          (field "assignedLeaderId" (str line.assigned_leader_id) end)))
  pure (record { status = 201; body = created_body line; headers = line_headers line })
