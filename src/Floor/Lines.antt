-- ===== src/Floor/Lines.antt =====
-- Station-screen lines: `PATCH /lines/:lineId`, `DELETE /lines/:lineId` and `DELETE
-- /lines/:lineId/permanent` of app/pats/command-router.ts, with the checks that `POST /lines` shares.
-- The time is an argument.
pub mod Create
pub mod Operators
pub mod Laws
pub mod Assigning
use Prim.Native.String.{◌++◌ as join}
use bnpi_pats_api.Base.{
  ℕ, String, List, [], ◌∷◌, ◌++◌, Option, none, some, Bool, true, false, not, ◌&&◌, ◌||◌, ◌+◌, ◌==◌,
  ltb, str_eq, find, any, is_some, get_or, opt_eq, if◌then◌else◌,
}
use bnpi_pats_api.Base.Json.{Json, null, bool, str, nat, Fields, end, field, object, Headers}
use bnpi_pats_api.Command.Audit.{opt_str}
use bnpi_pats_api.Command.Problem.{
  Problem, unique_constraint, not_found, conflict, stale_version, forbidden,
}
use bnpi_pats_api.Command.Request.{Request, actor_id}
use bnpi_pats_api.Command.Idempotency.{CommandResponse}
use bnpi_pats_api.Base.Decimal.{quoted}
use bnpi_pats_api.Identity.Policy.{Assignment, has_capability}
use bnpi_pats_api.Execution.{Batch}
use bnpi_pats_api.Floor.{
  named, text_of, nullable_of, number_of, flag_of, Floor, Line, OperatorAssignment, WorkProcess,
  FloorSubject, AssignmentStatus, active, ended, is_active, Tx, pure, gets, found, ◌>>=◌, ◌>>◌,
  refuse_if, refuse_when, throw_if, modify, success, if_match, section_of, process_of, line_of,
  assignment_of, subject_of, update_many, delete_many, count,
}

-- A nullable field that is present has an option of its own.
pub record LinePatchBody : Type 0 where
  pub label : Option (Option String)
  pub line_code : Option String
  pub assigned_leader_id : Option String
  pub active_leader_id : Option (Option String)
  pub display_order : Option ℕ
  pub is_enabled : Option Bool

-- `leader.status !== "ACTIVE"`
abbrev pub is_active_subject : FloorSubject → Bool
is_active_subject s = str_eq s.status "ACTIVE"

abbrev pub is_child_of : String → WorkProcess → Bool
is_child_of parent p = opt_eq p.parent_process_id (some parent)

abbrev pub is_active_on : String → OperatorAssignment → Bool
is_active_on line_id a = str_eq a.line_id line_id && is_active a.status

abbrev pub is_active_of : String → OperatorAssignment → Bool
is_active_of subject_id a = str_eq a.subject_id subject_id && is_active a.status

abbrev pub in_section : String → Line → Bool
in_section section_id l = str_eq l.section_id section_id

-- Another line has the code: the unique constraint of the column.
abbrev pub code_taken : String → String → Floor → Bool
code_taken id code s = any (λ (l : Line). str_eq l.line_code code && not (str_eq l.id id)) s.lines

-- The subject exists and is active: the check of a line's leaders and of an operator.
unfoldable pub active_subject : String → Problem → Problem → Tx FloorSubject
active_subject id missing inactive = do
  subject ← found (λ s. subject_of s.subjects id) missing
  refuse_if (not (is_active_subject subject)) inactive
  pure subject

abbrev pub missing_leader : Problem
missing_leader = not_found "The requested assigned leader was not found."

abbrev pub inactive_leader : Problem
inactive_leader = conflict "The requested assigned leader is not an active subject."

abbrev pub version_header : ℕ → Headers
version_header version = ("ETag", quoted version) ∷ []

abbrev pub state_fields : Line → Fields
state_fields l =
    field "displayOrder" (nat l.display_order)
      (field "isEnabled" (bool l.is_enabled) (field "rowVersion" (nat l.row_version) end))

abbrev updated_body : Line → Json
updated_body l = object (
    field "lineId" (str l.id) (
      field "lineCode" (str l.line_code) (
        field "label" (opt_str l.label) (
          field "assignedLeaderId" (str l.assigned_leader_id)
            (field "activeLeaderId" (opt_str l.active_leader_id) (state_fields l))))))

-- `{ rowVersion: { increment: 1 } }` and the fields that the body names.
abbrev pub patched : LinePatchBody → Line → Line
patched body l = record l {
  label = get_or body.label l.label;
  line_code = get_or body.line_code l.line_code;
  assigned_leader_id = get_or body.assigned_leader_id l.assigned_leader_id;
  active_leader_id = get_or body.active_leader_id l.active_leader_id;
  display_order = get_or body.display_order l.display_order;
  is_enabled = get_or body.is_enabled l.is_enabled;
  row_version = l.row_version + 1;
}

abbrev pub has_line_id : String → Line → Bool
has_line_id id l = str_eq l.id id

-- `transaction.line.update({ where: { id }, data })`
abbrev pub update_line : String → (Line → Line) → Floor → Floor
update_line id f s = record s { lines = update_many (has_line_id id) f s.lines }

unfoldable pub check_assigned : Option String → Tx (Unit {0})
unfolding active_subject
check_assigned none = pure tt
check_assigned (some id) = do leader ← active_subject id missing_leader inactive_leader; pure tt

unfoldable pub check_active : Option (Option String) → Tx (Unit {0})
unfolding active_subject
check_active none = pure tt
check_active (some none) = pure tt
check_active (some (some id)) = do
  leader ←
      active_subject id (not_found "The requested active leader was not found.")
        (conflict "The requested active leader is not an active subject.")
  pure tt

-- The audit keeps the fields that the body names, after the code.
abbrev patch_detail : LinePatchBody → Line → Fields
patch_detail body l = field "lineCode" (str l.line_code) (
    named "label" (nullable_of body.label) (
      named "assignedLeaderId" (text_of body.assigned_leader_id) (
        named "activeLeaderId" (nullable_of body.active_leader_id) (
          named "displayOrder" (number_of body.display_order)
            (named "isEnabled" (flag_of body.is_enabled) end)))))

-- The line at the version that the client read.
unfoldable pub current_line : Request → String → Tx Line
current_line req id = do
  line ← found (λ s. line_of s.lines id) (not_found "The requested line was not found.")
  version ← if_match req "Line"
  refuse_if (not (version == line.row_version)) stale_version
  pure line

unfoldable pub patch_line : Request → String → LinePatchBody → Tx CommandResponse
unfolding current_line check_assigned check_active
patch_line req id body = do
  line ← current_line req id
  check_assigned body.assigned_leader_id
  check_active body.active_leader_id
  let updated = patched body line
  taken ← gets (code_taken id updated.line_code)
  throw_if taken unique_constraint
  modify (update_line id (patched body))
  success req "LINE_UPDATED" "Line" id (patch_detail body updated)
  pure (record {
    status = 200;
    body = updated_body updated;
    headers = version_header updated.row_version;
  })

abbrev pub end_at : String → OperatorAssignment → OperatorAssignment
end_at now a = record a { status = ended; ended_at = some now }

abbrev pub disabled : Line → Line
disabled l = record l { is_enabled = false; row_version = l.row_version + 1 }

-- Disabling a line ends the assignments of its operators.
unfoldable pub disable_line : Request → String → String → Tx CommandResponse
unfolding current_line
disable_line req now id = do
  line ← current_line req id
  modify (λ s. record s { assignments = update_many (is_active_on id) (end_at now) s.assignments })
  modify (update_line id disabled)
  success req "LINE_DISABLED" "Line" id (field "lineCode" (str line.line_code) end)
  pure (record {
    status = 200;
    body = object (
        field "lineId" (str id) (
          field "lineCode" (str line.line_code) (
            field "isEnabled" (bool false) (field "rowVersion" (nat (line.row_version + 1)) end))));
    headers = version_header (line.row_version + 1);
  })

abbrev pub is_on : String → OperatorAssignment → Bool
is_on line_id a = str_eq a.line_id line_id

-- The line that a batch is published to. The foreign key clears it when the line goes (`ON DELETE SET
-- NULL`), and leaves the version of the batch as it is.
abbrev pub is_published_to : String → Batch → Bool
is_published_to line_id b = opt_eq b.line_id (some line_id)

abbrev pub unlined : Batch → Batch
unlined b = record b { line_id = none }

unfoldable pub delete_line : Request → String → Tx CommandResponse
unfolding current_line
delete_line req id = do
  line ← current_line req id
  refuse_when (λ s. ltb 0 (count (is_active_on id) s.assignments))
      (conflict "Force disable the line before deleting.")
  refuse_if line.is_enabled (conflict "Disable the line before deleting.")
  modify (λ s. record s { assignments = delete_many (is_on id) s.assignments })
  modify (λ s. record s { lines = delete_many (has_line_id id) s.lines })
  modify (λ s. record s { batches = update_many (is_published_to id) unlined s.batches })
  success req "LINE_DELETED" "Line" id (field "lineCode" (str line.line_code) end)
  pure (record {
    status = 200;
    body = object (field "lineId" (str id) (field "lineCode" (str line.line_code) end));
    headers = [];
  })
