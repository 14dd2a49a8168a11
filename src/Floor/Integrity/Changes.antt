-- ===== src/Floor/Integrity/Changes.antt =====
-- The changes that several commands of the floor make keep the tables sound.
use bnpi_pats_api.Base.{
  ℕ, String, List, [], ◌∷◌, Option, none, some, Bool, ◌≡◌, ◌+◌, refl, str_eq, includes, get_or,
}
use bnpi_pats_api.Floor.{
  Floor, Line, OperatorAssignment, Section, WorkProcess, database, ok, count, count-zero,
  update_many, delete_many,
}
use bnpi_pats_api.Floor.Lines.{LinePatchBody, patched, has_line_id, end_at, disabled}
use bnpi_pats_api.Floor.Processes.{ProcessPatchBody, renamed, check_new_parent}
use bnpi_pats_api.Floor.Processes.Removal.{
  Walk, detach, descend, maximum_visits, start, descendants, unassigned, detached, is_of,
}
use bnpi_pats_api.Floor.Processes.Removal.Laws.{detach-names_parent}
use bnpi_pats_api.Floor.Sections.Board.{number_sections}
use bnpi_pats_api.Floor.Integrity.{AreSound, IsSound}
use bnpi_pats_api.Floor.Integrity.Effects.{Leaves}
use bnpi_pats_api.Floor.Integrity.Catalogue.{HasParent, accepted_new_parent}
use bnpi_pats_api.Floor.Integrity.Rows.{
  KeepsPlace, IsHoused, IsRun, update_lines-IsStaffed, update_lines-IsHoused, update_lines-IsRun,
  end_assignments-IsSingle, end_assignments-IsStaffed, update_sections-IsHoused,
}
use bnpi_pats_api.Floor.Integrity.Tree.{
  IsRooted, update_processes-IsRun, update_processes-IsRooted, delete_process-IsRun,
  delete_process-IsRooted,
}

-- What a command left is sound, if the tables that it wrote are.
pub IsSound-left :
    (t : Floor) (ls : List Line) (rows : List OperatorAssignment) (ss : List Section)
    (ps : List WorkProcess)
    → Leaves t ls rows ss ps
    → AreSound ls rows ss ps
    → IsSound t
IsSound-left t ls rows ss ps e h = rw (e.lines, e.assignments, e.sections, e.processes) h

pub same_place : KeepsPlace disabled
same_place = record { id = λ l. refl; section = λ l. refl; process = λ l. refl }

pub patched-KeepsPlace : (body : LinePatchBody) → KeepsPlace (patched body)
patched-KeepsPlace body = record { id = λ l. refl; section = λ l. refl; process = λ l. refl }

pub number_sections-IsHoused :
    (index : ℕ) (ids : List String) (ss : List Section) (ls : List Line)
    → IsHoused ss ls
    → IsHoused (number_sections index ids ss) ls
unfolding number_sections
number_sections-IsHoused index [] ss ls h = h
number_sections-IsHoused index (id ∷ ids) ss ls h =
    let f = λ (x : Section). record x { display_order = index } in
    number_sections-IsHoused (index + 1) ids (update_many (λ x. str_eq x.id id) f ss) ls
      (update_sections-IsHoused (λ x. str_eq x.id id) f ss ls (λ x. refl) h)

pub update_line-AreSound :
    (f : Line → Line) (id : String) (s : Floor)
    → KeepsPlace f
    → IsSound s
    → AreSound (update_many (has_line_id id) f s.lines) s.assignments s.sections s.processes
update_line-AreSound f id s keeps v = record {
  single = v.single;
  staffed = update_lines-IsStaffed (has_line_id id) f s.lines s.assignments keeps v.staffed;
  housed = update_lines-IsHoused (has_line_id id) f s.sections s.lines keeps v.housed;
  run = update_lines-IsRun (has_line_id id) f s.processes s.lines keeps v.run;
  rooted = v.rooted;
}

pub update_assignments-AreSound :
    (p : OperatorAssignment → Bool) (now : String) (ls : List Line) (rows : List OperatorAssignment)
    (ss : List Section) (ps : List WorkProcess)
    → AreSound ls rows ss ps
    → AreSound ls (update_many p (end_at now) rows) ss ps
update_assignments-AreSound p now ls rows ss ps v = record {
  single = end_assignments-IsSingle p now rows v.single;
  staffed = end_assignments-IsStaffed p now ls rows v.staffed;
  housed = v.housed;
  run = v.run;
  rooted = v.rooted;
}

-- The parent that a patch moves a process below exists.
pub patched_parent :
    (s : Floor) (id : String) (o : Option (Option String)) (old : Option String)
    → check_new_parent id o (database s) ≡ ok tt (database s)
    → HasParent s.processes old
    → HasParent s.processes (get_or o old)
patched_parent s id none old checked h = h
patched_parent s id (some none) old checked h = tt
patched_parent s id (some (some q)) old checked h =
    accepted_new_parent id q (database s) (database s) checked

pub detached-AreSound :
    (id : String) (w : Walk) (s : Floor)
    → IsSound s
    → IsRun (detach id w s).processes s.lines × IsRooted (detach id w s).processes
detached-AreSound id w s v =
    let first = update_many (λ p. includes (descendants id w) p.id) unassigned s.processes in
    (
      update_processes-IsRun (λ p. includes w.direct p.id) detached (λ x. refl) first s.lines
          (update_processes-IsRun (λ p. includes (descendants id w) p.id) unassigned (λ x. refl)
            s.processes s.lines v.run),
      update_processes-IsRooted (λ p. includes w.direct p.id) detached (λ x. refl) first
          (λ x there hit. tt)
          (update_processes-IsRooted (λ p. includes (descendants id w) p.id) unassigned (λ x. refl)
            s.processes (λ x there hit. there) v.rooted),
    )

pub patch_process-AreSound :
    (id : String) (body : ProcessPatchBody) (s : Floor)
    → check_new_parent id body.parent_process_id (database s) ≡ ok tt (database s)
    → IsSound s
    → AreSound s.lines s.assignments s.sections
        (update_many (λ p. str_eq p.id id) (renamed body) s.processes)
patch_process-AreSound id body s checked v = record {
  single = v.single;
  staffed = v.staffed;
  housed = v.housed;
  run =
      update_processes-IsRun (λ p. str_eq p.id id) (renamed body) (λ x. refl) s.processes s.lines
        v.run;
  rooted =
      update_processes-IsRooted (λ p. str_eq p.id id) (renamed body) (λ x. refl) s.processes
        (λ x there hit.
          patched_parent s id body.parent_process_id x.parent_process_id checked there)
        v.rooted;
}

pub delete_process-AreSound :
    (id : String) (s : Floor)
    → count (is_of id) s.lines ≡ 0
    → IsSound s
    → AreSound s.lines s.assignments s.sections (
        delete_many
          (λ p. str_eq p.id id)
          (detach id (descend maximum_visits s.processes id (id ∷ []) (start id)) s).processes)
delete_process-AreSound id s unattached v =
    let w = descend maximum_visits s.processes id (id ∷ []) (start id) in
    let (run, rooted) = detached-AreSound id w s v in
    record {
      single = v.single;
      staffed = v.staffed;
      housed = v.housed;
      run =
          delete_process-IsRun id (detach id w s).processes s.lines
            (count-zero (is_of id) s.lines unattached) run;
      rooted =
          delete_process-IsRooted id (detach id w s).processes (detach-names_parent id s) rooted;
    }
