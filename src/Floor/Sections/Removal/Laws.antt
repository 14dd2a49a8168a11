-- ===== src/Floor/Sections/Removal/Laws.antt =====
-- When the deletion of a section goes through.
use Prim.Native.String.{◌++◌ as join}
use bnpi_pats_api.Base.{
  String, [], ◌∷◌, some, none, true, false, ◌≡◌, refl, arith, str_eq, includes,
}
use bnpi_pats_api.Base.Json.{str, end, field, object}
use bnpi_pats_api.Command.Audit.{opt_str, record_command_success}
use bnpi_pats_api.Command.Request.{Request}
use bnpi_pats_api.Command.Idempotency.{CommandResponse}
use bnpi_pats_api.Floor.{
  Floor, Section, database, ok, fail, foreign_key, section_of, count, add_log, written, any-count,
  any-deleted, any-updated, delete_many, find-deleted,
}
use bnpi_pats_api.Floor.Sections.Removal.{
  in_section, of_section, booth_in, process_in, clear_section, is_referenced, delete_section,
}

-- All that refers to the section after the command has cleared it are its print jobs.
clear_section-is_referenced :
    (id : String) (s : Floor)
    → count (in_section id) s.lines ≡ 0
    → is_referenced id (clear_section id s) ≡ includes s.print_jobs id
clear_section-is_referenced id s unattached =
    rw
      (
        any-count (in_section id) s.lines unattached,
        any-deleted (of_section id) s.station_steps,
        any-updated (booth_in id) (λ b. record b { section_id = none }) (λ b. refl) s.booths,
        any-updated (process_in id) (λ p. record p { section_id = none }) (λ p. refl) s.processes,
      )
      refl

abbrev after_delete : Request → String → Section → Floor → Floor
after_delete req id x s =
    add_log
      (written (
        record_command_success req "SECTION_DELETED" "Section" id
          (field "sectionCode" (opt_str x.section_code) end)))
      (record (clear_section id s) { sections = delete_many (λ y. str_eq y.id id) s.sections })

-- A section that is found and has no lines: its deletion succeeds, leaving neither the section nor a
-- reference to it, if it has no print job; if it has one, the database refuses the deletion.
pub delete_section-cases :
    (req : Request) (id : String) (s : Floor) {x : Section}
    → section_of s.sections id ≡ some x
    → count (in_section id) s.lines ≡ 0
    → (includes s.print_jobs id ≡ true → delete_section req id (database s) ≡ fail foreign_key)
      × (includes s.print_jobs id ≡ false
          → (r : CommandResponse) × (t : Floor) × (delete_section req id (database s)
              ≡ ok r (database t))
            × (section_of t.sections id ≡ none)
            × (is_referenced id t ≡ false))
unfolding delete_section
delete_section-cases req id s {x} there unattached =
    let left = clear_section-is_referenced id s unattached in
    (
      λ printed. ground arith,
      λ unprinted. (
        record {
          status = 200;
          body = object (field "sectionId" (str id) end);
          headers = ("Location", join "/api/v1/sections/" id) ∷ [];
        },
        after_delete req id x s,
        ground arith,
        find-deleted (λ y. str_eq y.id id) s.sections,
        ground arith,
      ),
    )
