-- ===== src/Floor/Lines/Operators.antt =====
-- `POST /operator-assignments` and `DELETE /operator-assignments/:assignmentId` of
-- app/pats/command-router.ts. The assignments of the caller are those that its token was granted
-- with, `canonicalAssignments` of the request; a new row's id and the time are arguments.
use Prim.Native.String.{◌++◌ as join}
use bnpi_pats_api.Base.{
  String, List, [], ◌∷◌, ◌++◌, Option, none, some, Bool, true, not, ◌||◌, str_eq, find, opt_eq,
  if◌then◌else◌,
}
use bnpi_pats_api.Base.Json.{str, end, field, object}
use bnpi_pats_api.Command.Audit.{opt_str}
use bnpi_pats_api.Command.Problem.{Problem, not_found, conflict, forbidden}
use bnpi_pats_api.Command.Request.{Request, actor_id}
use bnpi_pats_api.Command.Idempotency.{CommandResponse}
use bnpi_pats_api.Identity.Policy.{Assignment, has_capability}
use bnpi_pats_api.Floor.Lines.{active_subject, is_active_of, end_at}
use bnpi_pats_api.Floor.{
  Floor, Line, OperatorAssignment, active, is_active, Tx, pure, gets, found, ◌>>=◌, ◌>>◌, refuse_if,
  modify, success, line_of, assignment_of, update_many,
}

pub record OperatorBody : Type 0 where
  pub subject_id : String
  pub line_id : String
  pub reason : Option String

-- `line.activeLeaderId === caller || line.assignedLeaderId === caller`
abbrev pub leads : Line → String → Bool
leads line caller =
    opt_eq line.active_leader_id (some caller) || str_eq line.assigned_leader_id caller

abbrev pub may_assign : List Assignment → Line → String → Bool
may_assign granted line caller = has_capability granted "operations.manage" || leads line caller

abbrev already_assigned : String → OperatorAssignment → Problem
already_assigned line_id existing = conflict (
    if str_eq existing.line_id line_id
    then "The operator is already assigned to this line."
    else "The operator is still assigned to another line; end that assignment first.")

unfoldable pub refuse_assigned : String → Option OperatorAssignment → Tx (Unit {0})
refuse_assigned line_id none = pure tt
refuse_assigned line_id (some existing) = refuse_if true (already_assigned line_id existing)

abbrev pub assignment_row : Request → String → String → OperatorBody → OperatorAssignment
assignment_row req id now body = record {
  id = id;
  line_id = body.line_id;
  subject_id = body.subject_id;
  reason = body.reason;
  status = active;
  actor_subject_id = actor_id req;
  started_at = now;
  ended_at = none;
}

unfoldable pub assign_operator :
    Request → List Assignment → String → String → OperatorBody → Tx CommandResponse
unfolding active_subject refuse_assigned
assign_operator req granted id now body = do
  line ← found (λ s. line_of s.lines body.line_id) (not_found "The requested line was not found.")
  refuse_if (not line.is_enabled) (conflict "The requested line is disabled.")
  refuse_if (not (may_assign granted line (actor_id req)))
      (forbidden "Only the line's active leader or an admin can assign operators to this line.")
  operator ←
      active_subject body.subject_id (not_found "The requested operator was not found.")
        (conflict "The requested operator is not an active subject.")
  existing ← gets (λ s. find (is_active_of body.subject_id) s.assignments)
  refuse_assigned body.line_id existing
  let row = assignment_row req id now body
  modify (λ s. record s { assignments = s.assignments ++ row ∷ [] })
  success req "OPERATOR_ASSIGNED" "LineOperatorAssignment" id (
      field "lineId" (str body.line_id)
        (field "subjectId" (str body.subject_id) (field "reason" (opt_str body.reason) end)))
  pure (record {
    status = 201;
    body = object (
        field "operatorAssignmentId" (str id) (
          field "lineId" (str body.line_id) (
            field "subjectId" (str body.subject_id)
              (field "status" (str "ACTIVE") (field "startedAt" (str now) end)))));
    headers = ("Location", join "/api/v1/operator-assignments/" id) ∷ [];
  })

abbrev pub has_assignment_id : String → OperatorAssignment → Bool
has_assignment_id id a = str_eq a.id id

-- The assignment with the leaders of its line, as the query includes them.
abbrev pub with_line : String → Floor → Option (OperatorAssignment × Line)
with_line id s = elim (assignment_of s.assignments id) [
  | none ↦ none
  | some a ↦ elim (line_of s.lines a.line_id) [ none ↦ none | some l ↦ some (a, l) ]
]

unfoldable pub end_assignment : Request → List Assignment → String → String → Tx CommandResponse
end_assignment req granted now id = do
  row ← found (with_line id) (not_found "The requested operator assignment was not found.")
  refuse_if (not (is_active row.0.status))
      (conflict "The requested operator assignment is already ended.")
  refuse_if (not (may_assign granted row.1 (actor_id req)))
      (forbidden "Only the line's active leader or an admin can end this assignment.")
  modify (λ s. record s {
    assignments = update_many (has_assignment_id id) (end_at now) s.assignments;
  })
  success req "OPERATOR_ASSIGNMENT_ENDED" "LineOperatorAssignment" id
      (field "lineId" (str row.0.line_id) (field "subjectId" (str row.0.subject_id) end))
  pure (record {
    status = 200;
    body = object (
        field "operatorAssignmentId" (str id) (
          field "lineId" (str row.0.line_id) (
            field "subjectId" (str row.0.subject_id)
              (field "status" (str "ENDED") (field "endedAt" (str now) end)))));
    headers = [];
  })
