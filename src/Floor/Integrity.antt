-- ===== src/Floor/Integrity.antt =====
-- The floor as a state machine: one step for each command that succeeds, and what no sequence of them
-- breaks. The tables are those of prisma/pats/schema.prisma, and commands run one after the other.
pub mod Effects
pub mod Catalogue
pub mod SectionRows
pub mod Rows
pub mod Tree
pub mod Changes
pub mod Steps
use bnpi_pats_api.Base.{
  ℕ, String, List, [], ◌∷◌, ◌++◌, Option, none, some, Bool, true, false, ◌≡◌, ◌+◌, refl, ◌∙◌, ap,
  arith, str_eq, All, All-append, includes, is_some, get_or,
}
use bnpi_pats_api.Base.Text
use bnpi_pats_api.Command.Request.{Request}
use bnpi_pats_api.Command.Idempotency.{CommandResponse}
use bnpi_pats_api.Identity.Policy.{Assignment}
use bnpi_pats_api.Floor.{
  Floor, Line, OperatorAssignment, Section, WorkProcess, database, ok, section_of, process_of,
  line_of, count, count-zero, count-delete_many, All-delete_many, update_many, delete_many,
}
use bnpi_pats_api.Floor.Lines.{
  LinePatchBody, patched, has_line_id, end_at, disabled, is_active_on, is_on, is_active_of,
  patch_line, disable_line, delete_line,
}
use bnpi_pats_api.Floor.Lines.Create.{LineCreateBody, create_line}
use bnpi_pats_api.Floor.Lines.Operators.{
  OperatorBody, assignment_row, has_assignment_id, assign_operator, end_assignment,
}
use bnpi_pats_api.Floor.Processes.{
  ProcessCreateBody, ProcessPatchBody, process_row, truthy, renamed, check_parent, check_new_parent,
  create_process, patch_process,
}
use bnpi_pats_api.Floor.Processes.Removal.{
  Walk, delete_process, detach, descend, maximum_visits, start, descendants, unassigned, detached,
  is_of,
}
use bnpi_pats_api.Floor.Processes.Removal.Laws.{detach-names_parent}
use bnpi_pats_api.Floor.Sections.{
  SectionCreateBody, SectionPatchBody, has_section_id, create_section, patch_section,
}
use bnpi_pats_api.Floor.Sections.Removal.{in_section, process_in, delete_section}
use bnpi_pats_api.Floor.Sections.Board.{number_sections, replace_processes, reorder_sections}
use Effects.*
use Catalogue.*
use Rows.*
use Tree.*

-- A command that succeeds.
pub data Step (s t : Floor) : Type 0 where
  creates_line :
      (req : Request) (id : String) (body : LineCreateBody) (r : CommandResponse)
      → create_line req id body (database s) ≡ ok r (database t)
      → Step s t
  patches_line :
      (req : Request) (id : String) (body : LinePatchBody) (r : CommandResponse)
      → patch_line req id body (database s) ≡ ok r (database t)
      → Step s t
  disables_line :
      (req : Request) (now id : String) (r : CommandResponse)
      → disable_line req now id (database s) ≡ ok r (database t)
      → Step s t
  deletes_line :
      (req : Request) (id : String) (r : CommandResponse)
      → delete_line req id (database s) ≡ ok r (database t)
      → Step s t
  assigns_operator :
      (req : Request) (granted : List Assignment) (id now : String) (body : OperatorBody)
      (r : CommandResponse)
      → assign_operator req granted id now body (database s) ≡ ok r (database t)
      → Step s t
  ends_assignment :
      (req : Request) (granted : List Assignment) (now id : String) (r : CommandResponse)
      → end_assignment req granted now id (database s) ≡ ok r (database t)
      → Step s t
  creates_process :
      (req : Request) (id : String) (body : ProcessCreateBody) (r : CommandResponse)
      → create_process req id body (database s) ≡ ok r (database t)
      → Step s t
  patches_process :
      (req : Request) (id : String) (body : ProcessPatchBody) (r : CommandResponse)
      → patch_process req id body (database s) ≡ ok r (database t)
      → Step s t
  deletes_process :
      (req : Request) (id : String) (r : CommandResponse)
      → delete_process req id (database s) ≡ ok r (database t)
      → Step s t
  creates_section :
      (upper : String → String) (req : Request) (id : String) (new_id : String → String)
      (body : SectionCreateBody) (r : CommandResponse)
      → create_section upper req id new_id body (database s) ≡ ok r (database t)
      → Step s t
  patches_section :
      (req : Request) (id : String) (body : SectionPatchBody) (r : CommandResponse)
      → patch_section req id body (database s) ≡ ok r (database t)
      → Step s t
  deletes_section :
      (req : Request) (id : String) (r : CommandResponse)
      → delete_section req id (database s) ≡ ok r (database t)
      → Step s t
  replaces_processes :
      (req : Request) (id : String) (ids : List String) (r : CommandResponse)
      → replace_processes req id ids (database s) ≡ ok r (database t)
      → Step s t
  reorders_sections :
      (req : Request) (ids : List String) (r : CommandResponse)
      → reorder_sections req ids (database s) ≡ ok r (database t)
      → Step s t

pub data Reach (s : Floor) : Floor → Type 0 where
  here : Reach s s
  next : {t u : Floor} → Reach s t → Step t u → Reach s u

-- No subject has two active assignments, and assignments, lines and processes refer to rows that
-- exist.
pub record AreSound (ls : List Line) (rows : List OperatorAssignment) (ss : List Section)
    (ps : List WorkProcess) : Type 0 where
  pub single : IsSingle rows
  pub staffed : IsStaffed ls rows
  pub housed : IsHoused ss ls
  pub run : IsRun ps ls
  pub rooted : IsRooted ps

abbrev pub IsSound : Floor → Type 0
IsSound s = AreSound s.lines s.assignments s.sections s.processes
