-- ===== src/Floor/Integrity/SectionRows.antt =====
-- What the commands on sections that succeed leave of the tables.
use bnpi_pats_api.Base.{
  String, List, [], ◌∷◌, ◌++◌, Option, ◌≡◌, str_eq, arith, length, ap, ◌∙◌, inl, inr,
}
use bnpi_pats_api.Command.Problem.{Failure}
use bnpi_pats_api.Command.Request.{Request}
use bnpi_pats_api.Command.Idempotency.{CommandResponse}
use bnpi_pats_api.Floor.{
  Floor, Section, WorkProcess, Database, database, floor_of, ok, section_of, process_of,
  update_many, delete_many, count, Keeps, Result, Result-cases, fail,
}
use bnpi_pats_api.Floor.Sections.{
  SectionCreateBody, SectionPatchBody, section_row, has_section_id, check_production_line,
  owning_stage, choose_code, create_section, patch_section,
}
use bnpi_pats_api.Floor.Sections.Removal.{in_section, clear_section, delete_section}
use bnpi_pats_api.Floor.Sections.Board.{
  number_processes, assign_processes, number_sections, replace_processes, reorder_sections,
}
use bnpi_pats_api.Floor.Integrity.Effects.{Leaves}

pub delete_section-Leaves :
    (req : Request) (id : String) (s : Floor) {r : CommandResponse} {t : Floor}
    → delete_section req id (database s) ≡ ok r (database t)
    → (count (in_section id) s.lines ≡ 0)
      × Leaves t s.lines s.assignments
          (delete_many (λ x. str_eq x.id id) s.sections)
          (clear_section id s).processes
unfolding delete_section
delete_section-Leaves req id s done = (
  ground arith,
  record {
    lines = ground arith;
    assignments = ground arith;
    sections = ground arith;
    processes = ground arith;
  },
)

pub replace_processes-Leaves :
    (req : Request) (section_id : String) (ids : List String) (s : Floor) {r : CommandResponse}
    {t : Floor}
    → replace_processes req section_id ids (database s) ≡ ok r (database t)
    → Leaves t s.lines s.assignments s.sections
        (number_processes 0 ids (assign_processes section_id ids s.processes))
unfolding replace_processes
replace_processes-Leaves req section_id ids s done = record {
  lines = ground arith;
  assignments = ground arith;
  sections = ground arith;
  processes = ground arith;
}

pub reorder_sections-Leaves :
    (req : Request) (ids : List String) (s : Floor) {r : CommandResponse} {t : Floor}
    → reorder_sections req ids (database s) ≡ ok r (database t)
    → Leaves t s.lines s.assignments (number_sections 0 ids s.sections) s.processes
unfolding reorder_sections
reorder_sections-Leaves req ids s done = record {
  lines = ground arith;
  assignments = ground arith;
  sections = ground arith;
  processes = ground arith;
}

pub patch_section-Leaves :
    (req : Request) (id : String) (body : SectionPatchBody) (s : Floor) {r : CommandResponse}
    {t : Floor}
    → patch_section req id body (database s) ≡ ok r (database t)
    → Leaves t s.lines s.assignments
        (update_many (has_section_id id) (bnpi_pats_api.Floor.Sections.renamed body) s.sections)
        s.processes
unfolding patch_section
patch_section-Leaves req id body s done = record {
  lines = ground arith;
  assignments = ground arith;
  sections = ground arith;
  processes = ground arith;
}

check_production_line-Keeps : (o : Option String) → Keeps (check_production_line o)
unfolding check_production_line
check_production_line-Keeps o d x d' h = ground arith

owning_stage-Keeps : (o : Option String) → Keeps (owning_stage o)
unfolding owning_stage
owning_stage-Keeps o d x d' h = ground arith

choose_code-Keeps :
    (upper : String → String) (name : String) (o : Option String) → Keeps (choose_code upper name o)
unfolding choose_code
choose_code-Keeps upper name o d x d' h = ground arith

pub create_section-Leaves :
    (upper : String → String) (req : Request) (id : String) (new_id : String → String)
    (body : SectionCreateBody) (s : Floor) {r : CommandResponse} {t : Floor}
    → create_section upper req id new_id body (database s) ≡ ok r (database t)
    → (x : Section) × Leaves t s.lines s.assignments (s.sections ++ x ∷ []) s.processes
unfolding create_section
create_section-Leaves upper req id new_id body s {r} {t} done =
    elim (Result-cases (owning_stage body.stage_id (database s))) [
      | inr (e, refused) ↦ absurd (no_stage e refused)
      | inl (stage, d, owned) ↦
          with_stage stage
            (owned ∙ ap (ok stage) (owning_stage-Keeps body.stage_id (database s) stage d owned))
    ]
  where
    lined :
        (d : Database)
        → check_production_line body.production_line_id (database s) ≡ ok tt d
        → d ≡ database s
    lined d = check_production_line-Keeps body.production_line_id (database s) tt d

    no_stage : (e : Failure) → owning_stage body.stage_id (database s) ≡ fail e → ⊥
    no_stage e refused = ground (arith, lined)

    code_of : Result String
    code_of = choose_code upper body.name body.section_code (database s)

    no_code :
        (stage : String)
        → owning_stage body.stage_id (database s) ≡ ok stage (database s)
        → (e : Failure) → code_of ≡ fail e
        → ⊥
    no_code stage owned e refused = ground (arith, lined)

    written_rows :
        (stage code : String)
        → owning_stage body.stage_id (database s) ≡ ok stage (database s)
        → code_of ≡ ok code (database s)
        → Leaves t s.lines s.assignments
            (s.sections ++ section_row body id code stage (length s.sections) ∷ [])
            s.processes
    written_rows stage code owned coded = record {
      lines = ground (arith, lined);
      assignments = ground (arith, lined);
      sections = ground (arith, lined);
      processes = ground (arith, lined);
    }

    with_stage :
        (stage : String)
        → owning_stage body.stage_id (database s) ≡ ok stage (database s)
        → (x : Section) × Leaves t s.lines s.assignments (s.sections ++ x ∷ []) s.processes
    with_stage stage owned = elim (Result-cases code_of) [
      | inr (e, refused) ↦ absurd (no_code stage owned e refused)
      | inl (code, d, coded) ↦ (
        section_row body id code stage (length s.sections),
        written_rows stage code owned (
            coded
            ∙ ap (ok code)
                (choose_code-Keeps upper body.name body.section_code (database s) code d coded)),
      )
    ]
