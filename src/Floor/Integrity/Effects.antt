-- ===== src/Floor/Integrity/Effects.antt =====
-- What each command of the floor that succeeds leaves of the lines, the assignments, the sections and
-- the processes.
use bnpi_pats_api.Base.{
  String, List, [], ◌∷◌, ◌++◌, Option, none, true, ◌≡◌, arith, find, is_some, get_or,
}
use bnpi_pats_api.Command.Request.{Request}
use bnpi_pats_api.Command.Idempotency.{CommandResponse}
use bnpi_pats_api.Identity.Policy.{Assignment}
use bnpi_pats_api.Floor.{
  Floor, Line, OperatorAssignment, Section, WorkProcess, Database, database, ok, line_of,
  section_of, process_of, update_many, delete_many, count, Keeps,
}
use bnpi_pats_api.Floor.Lines.{
  LinePatchBody, patched, has_line_id, end_at, disabled, is_active_on, is_on, current_line,
  check_assigned, check_active, active_subject, patch_line, disable_line, delete_line, is_active_of,
  in_section,
}
use bnpi_pats_api.Floor.Lines.Create.{LineCreateBody, row_of, create_line}
use bnpi_pats_api.Floor.Lines.Operators.{
  OperatorBody, assignment_row, has_assignment_id, refuse_assigned, assign_operator, end_assignment,
}

-- The four tables as a command left them.
pub record Leaves (t : Floor) (ls : List Line) (rows : List OperatorAssignment) (ss : List Section)
    (ps : List WorkProcess) : Type 0 where
  pub lines : t.lines ≡ ls
  pub assignments : t.assignments ≡ rows
  pub sections : t.sections ≡ ss
  pub processes : t.processes ≡ ps

check_assigned-Keeps : (o : Option String) → Keeps (check_assigned o)
unfolding check_assigned active_subject
check_assigned-Keeps o d x d' h = ground arith

check_active-Keeps : (o : Option (Option String)) → Keeps (check_active o)
unfolding check_active active_subject
check_active-Keeps o d x d' h = ground arith

pub create_line-Leaves :
    (req : Request) (id : String) (body : LineCreateBody) (s : Floor) {r : CommandResponse}
    {t : Floor}
    → create_line req id body (database s) ≡ ok r (database t)
    → (is_some (section_of s.sections body.section_id) ≡ true)
      × (is_some (process_of s.processes body.process_id) ≡ true)
      × Leaves t
          (s.lines
            ++ row_of body id
                (get_or body.display_order (count (in_section body.section_id) s.lines))
              ∷ [])
          s.assignments
          s.sections
          s.processes
unfolding create_line active_subject
create_line-Leaves req id body s done = (
  ground arith,
  ground arith,
  record {
    lines = ground arith;
    assignments = ground arith;
    sections = ground arith;
    processes = ground arith;
  },
)

pub disable_line-Leaves :
    (req : Request) (now id : String) (s : Floor) {r : CommandResponse} {t : Floor}
    → disable_line req now id (database s) ≡ ok r (database t)
    → Leaves t
        (update_many (has_line_id id) disabled s.lines)
        (update_many (is_active_on id) (end_at now) s.assignments)
        s.sections
        s.processes
unfolding disable_line current_line
disable_line-Leaves req now id s done = record {
  lines = ground arith;
  assignments = ground arith;
  sections = ground arith;
  processes = ground arith;
}

pub patch_line-Leaves :
    (req : Request) (id : String) (body : LinePatchBody) (s : Floor) {r : CommandResponse}
    {t : Floor}
    → patch_line req id body (database s) ≡ ok r (database t)
    → Leaves t
        (update_many (has_line_id id) (patched body) s.lines)
        s.assignments
        s.sections
        s.processes
unfolding patch_line current_line
patch_line-Leaves req id body s {r} {t} done = record {
  lines = ground (arith, kept, kept');
  assignments = ground (arith, kept, kept');
  sections = ground (arith, kept, kept');
  processes = ground (arith, kept, kept');
}
  where
    kept :
        (d : Database)
        → check_assigned body.assigned_leader_id (database s) ≡ ok tt d
        → d ≡ database s
    kept d = check_assigned-Keeps body.assigned_leader_id (database s) tt d

    kept' :
        (d : Database) → check_active body.active_leader_id (database s) ≡ ok tt d → d ≡ database s
    kept' d = check_active-Keeps body.active_leader_id (database s) tt d

pub delete_line-Leaves :
    (req : Request) (id : String) (s : Floor) {r : CommandResponse} {t : Floor}
    → delete_line req id (database s) ≡ ok r (database t)
    → Leaves t
        (delete_many (has_line_id id) s.lines)
        (delete_many (is_on id) s.assignments)
        s.sections
        s.processes
unfolding delete_line current_line
delete_line-Leaves req id s done = record {
  lines = ground arith;
  assignments = ground arith;
  sections = ground arith;
  processes = ground arith;
}

pub assign_operator-Leaves :
    (req : Request) (granted : List Assignment) (id now : String) (body : OperatorBody) (s : Floor)
    {r : CommandResponse} {t : Floor}
    → assign_operator req granted id now body (database s) ≡ ok r (database t)
    → (is_some (line_of s.lines body.line_id) ≡ true)
      × (find (is_active_of body.subject_id) s.assignments ≡ none)
      × Leaves t s.lines
          (s.assignments ++ assignment_row req id now body ∷ [])
          s.sections
          s.processes
unfolding assign_operator active_subject refuse_assigned
assign_operator-Leaves req granted id now body s done = (
  ground arith,
  ground arith,
  record {
    lines = ground arith;
    assignments = ground arith;
    sections = ground arith;
    processes = ground arith;
  },
)

pub end_assignment-Leaves :
    (req : Request) (granted : List Assignment) (now id : String) (s : Floor) {r : CommandResponse}
    {t : Floor}
    → end_assignment req granted now id (database s) ≡ ok r (database t)
    → Leaves t s.lines
        (update_many (has_assignment_id id) (end_at now) s.assignments)
        s.sections
        s.processes
unfolding end_assignment
end_assignment-Leaves req granted now id s done = record {
  lines = ground arith;
  assignments = ground arith;
  sections = ground arith;
  processes = ground arith;
}
