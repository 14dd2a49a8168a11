-- ===== src/Floor/Integrity/Steps.antt =====
-- No command of the floor, and no sequence of them, breaks the references between its tables.
use bnpi_pats_api.Base.{none, true, ◌≡◌, refl, arith, All-append, is_some}
use bnpi_pats_api.Floor.{
  Floor, WorkProcess, section_of, process_of, line_of, count-zero, count-delete_many,
  All-delete_many,
}
use bnpi_pats_api.Floor.Lines.{patched, has_line_id, disabled, is_active_on, is_on, is_active_of}
use bnpi_pats_api.Floor.Lines.Operators.{assignment_row, has_assignment_id}
use bnpi_pats_api.Floor.Sections.{has_section_id}
use bnpi_pats_api.Floor.Sections.Removal.{in_section, process_in}
use bnpi_pats_api.Floor.Integrity.{
  Step, creates_line, patches_line, disables_line, deletes_line, assigns_operator, ends_assignment,
  creates_process, patches_process, deletes_process, creates_section, patches_section,
  deletes_section, replaces_processes, reorders_sections, Reach, here, next, IsSound,
}
use bnpi_pats_api.Floor.Integrity.Effects.{
  create_line-Leaves, patch_line-Leaves, disable_line-Leaves, delete_line-Leaves,
  assign_operator-Leaves, end_assignment-Leaves,
}
use bnpi_pats_api.Floor.Integrity.Catalogue.{
  create_process-Leaves, patch_process-Leaves, delete_process-Leaves,
}
use bnpi_pats_api.Floor.Integrity.SectionRows.{
  create_section-Leaves, patch_section-Leaves, delete_section-Leaves, replace_processes-Leaves,
  reorder_sections-Leaves,
}
use bnpi_pats_api.Floor.Integrity.Rows.{
  append_line-IsStaffed, delete_line-IsStaffed, append_assignment-IsSingle, append_section-IsHoused,
  update_sections-IsHoused, delete_section-IsHoused,
}
use bnpi_pats_api.Floor.Integrity.Tree.{
  update_processes-IsRun, update_processes-IsRooted, append_process-IsRun, append_process-IsRooted,
  assign_processes-IsRooted, number_processes-IsRooted,
}
use bnpi_pats_api.Floor.Integrity.Changes.{
  IsSound-left, same_place, patched-KeepsPlace, number_sections-IsHoused, update_line-AreSound,
  update_assignments-AreSound, patch_process-AreSound, delete_process-AreSound,
}

-- Every command of the floor that succeeds keeps it sound: no operator is active on two lines, and no
-- assignment, line or process is left with a reference to a line, section or process that is not there.
pub Step-IsSound : {s t : Floor} → Step s t → IsSound s → IsSound t
Step-IsSound {s} {t} (creates_line req id body r done) v =
    let (housed, run, e) = create_line-Leaves req id body s done in
    IsSound-left t _ _ _ _ e (record {
      single = v.single;
      staffed = append_line-IsStaffed _ s.lines s.assignments v.staffed;
      housed =
          All-append (λ l. is_some (section_of s.sections l.section_id) ≡ true) s.lines _ v.housed
            (housed, tt);
      run =
          All-append (λ l. is_some (process_of s.processes l.process_id) ≡ true) s.lines _ v.run
            (run, tt);
      rooted = v.rooted;
    })
Step-IsSound {s} {t} (patches_line req id body r done) v =
    IsSound-left t _ _ _ _ (patch_line-Leaves req id body s done)
      (update_line-AreSound (patched body) id s (patched-KeepsPlace body) v)
Step-IsSound {s} {t} (disables_line req now id r done) v =
    IsSound-left t _ _ _ _ (disable_line-Leaves req now id s done) (
      update_assignments-AreSound (is_active_on id) now _ s.assignments s.sections s.processes
        (update_line-AreSound disabled id s same_place v))
Step-IsSound {s} {t} (deletes_line req id r done) v =
    IsSound-left t _ _ _ _ (delete_line-Leaves req id s done) (record {
      single = λ subject. omega (
        arith,
        v.single subject,
        count-delete_many (is_active_of subject) (is_on id) s.assignments,
      );
      staffed = delete_line-IsStaffed id s.lines s.assignments v.staffed;
      housed = All-delete_many _ _ (has_line_id id) (λ l there _. there) s.lines v.housed;
      run = All-delete_many _ _ (has_line_id id) (λ l there _. there) s.lines v.run;
      rooted = v.rooted;
    })
Step-IsSound {s} {t} (assigns_operator req granted id now body r done) v =
    let (on_line, free, e) = assign_operator-Leaves req granted id now body s done in
    IsSound-left t _ _ _ _ e (record {
      single =
          append_assignment-IsSingle (assignment_row req id now body) s.assignments free v.single;
      staffed =
          All-append (λ a. is_some (line_of s.lines a.line_id) ≡ true) s.assignments _ v.staffed
            (on_line, tt);
      housed = v.housed;
      run = v.run;
      rooted = v.rooted;
    })
Step-IsSound {s} {t} (ends_assignment req granted now id r done) v =
    IsSound-left t _ _ _ _ (end_assignment-Leaves req granted now id s done) (
      update_assignments-AreSound (has_assignment_id id) now s.lines s.assignments s.sections
        s.processes v)
Step-IsSound {s} {t} (creates_process req id body r done) v =
    let (there, e) = create_process-Leaves req id body s done in
    IsSound-left t _ _ _ _ e (record {
      single = v.single;
      staffed = v.staffed;
      housed = v.housed;
      run = append_process-IsRun _ s.processes s.lines v.run;
      rooted = append_process-IsRooted _ s.processes there v.rooted;
    })
Step-IsSound {s} {t} (patches_process req id body r done) v =
    let (checked, e) = patch_process-Leaves req id body s done in
    IsSound-left t _ _ _ _ e (patch_process-AreSound id body s checked v)
Step-IsSound {s} {t} (deletes_process req id r done) v =
    let (unattached, e) = delete_process-Leaves req id s done in
    IsSound-left t _ _ _ _ e (delete_process-AreSound id s unattached v)
Step-IsSound {s} {t} (creates_section upper req id new_id body r done) v =
    let (x, e) = create_section-Leaves upper req id new_id body s done in
    IsSound-left t _ _ _ _ e (record {
      single = v.single;
      staffed = v.staffed;
      housed = append_section-IsHoused x s.sections s.lines v.housed;
      run = v.run;
      rooted = v.rooted;
    })
Step-IsSound {s} {t} (patches_section req id body r done) v =
    IsSound-left t _ _ _ _ (patch_section-Leaves req id body s done) (record {
      single = v.single;
      staffed = v.staffed;
      housed =
          update_sections-IsHoused (has_section_id id) _ s.sections s.lines (λ x. refl) v.housed;
      run = v.run;
      rooted = v.rooted;
    })
Step-IsSound {s} {t} (deletes_section req id r done) v =
    let (unattached, e) = delete_section-Leaves req id s done in
    let f = λ (p : WorkProcess). record p { section_id = none } in
    IsSound-left t _ _ _ _ e (record {
      single = v.single;
      staffed = v.staffed;
      housed =
          delete_section-IsHoused id s.sections s.lines
            (count-zero (in_section id) s.lines unattached) v.housed;
      run = update_processes-IsRun (process_in id) f (λ x. refl) s.processes s.lines v.run;
      rooted =
          update_processes-IsRooted (process_in id) f (λ x. refl) s.processes (λ x there hit. there)
            v.rooted;
    })
Step-IsSound {s} {t} (replaces_processes req id ids r done) v =
    let (run, rooted) =
      number_processes-IsRooted 0 ids _ s.lines
        (assign_processes-IsRooted id ids s.processes s.lines (v.run, v.rooted)) in
    IsSound-left t _ _ _ _ (replace_processes-Leaves req id ids s done) (record {
      single = v.single;
      staffed = v.staffed;
      housed = v.housed;
      run = run;
      rooted = rooted;
    })
Step-IsSound {s} {t} (reorders_sections req ids r done) v =
    IsSound-left t _ _ _ _ (reorder_sections-Leaves req ids s done) (record {
      single = v.single;
      staffed = v.staffed;
      housed = number_sections-IsHoused 0 ids s.sections s.lines v.housed;
      run = v.run;
      rooted = v.rooted;
    })

-- Whatever sequence of commands succeeds, a sound floor stays sound.
pub Reach-IsSound : {s t : Floor} → IsSound s → Reach s t → IsSound t
Reach-IsSound v here = v
Reach-IsSound v (next r step) = Step-IsSound step (Reach-IsSound v r)
