-- ===== src/Floor/Sections/Removal.antt =====
-- `DELETE /sections/:sectionId` of app/pats/command-router.ts. The print jobs of a section are not
-- among what the command clears, and the database keeps them.
pub mod Laws
use Prim.Native.String.{◌++◌ as join}
use bnpi_pats_api.Base.{
  ℕ, String, [], ◌∷◌, Option, none, some, Bool, true, false, not, ◌||◌, ◌≡◌, refl, arith, ltb,
  str_eq, any, includes, opt_eq, eq_iff, List, Option-cases,
}
use bnpi_pats_api.Base.Decimal.{decimal}
use bnpi_pats_api.Base.Json.{str, end, field, object}
use bnpi_pats_api.Command.Audit.{opt_str}
use bnpi_pats_api.Command.Problem.{not_found, conflict}
use bnpi_pats_api.Command.Request.{Request}
use bnpi_pats_api.Command.Idempotency.{CommandResponse}
use bnpi_pats_api.Floor.{
  Floor, Section, StationStep, WorkProcess, Booth, Line, Tx, database, ok, fail, foreign_key, pure,
  gets, found, ◌>>=◌, ◌>>◌, refuse_if, restrict, modify, success, section_of, update_many,
  delete_many, count,
}

abbrev pub in_section : String → Line → Bool
in_section id l = str_eq l.section_id id

abbrev pub of_section : String → StationStep → Bool
of_section id step = str_eq step.section_id id

abbrev pub booth_in : String → Booth → Bool
booth_in id b = opt_eq b.section_id (some id)

abbrev pub process_in : String → WorkProcess → Bool
process_in id p = opt_eq p.section_id (some id)

abbrev pub clear_section : String → Floor → Floor
clear_section id s = record s {
  station_steps = delete_many (of_section id) s.station_steps;
  booths = update_many (booth_in id) (λ b. record b { section_id = none }) s.booths;
  processes = update_many (process_in id) (λ p. record p { section_id = none }) s.processes;
}

-- A row that still refers to the section. The schema refuses the deletion under a line and a print job;
-- here each reference refuses it, so that a deletion that succeeds has cleared the others by the
-- code's own updates.
abbrev pub is_referenced : String → Floor → Bool
is_referenced id s =
    any (in_section id) s.lines
    || any (of_section id) s.station_steps
    || any (booth_in id) s.booths
    || any (process_in id) s.processes
    || includes s.print_jobs id

abbrev attached : ℕ → String
attached n =
    join "Cannot delete: " (
      join (decimal n)
        " line(s) in this section. Disable and permanently delete those lines first.")

unfoldable pub delete_section : Request → String → Tx CommandResponse
delete_section req id = do
  section ← found (λ s. section_of s.sections id) (not_found "The requested section was not found.")
  lines ← gets (λ s. count (in_section id) s.lines)
  refuse_if (ltb 0 lines) (conflict (attached lines))
  modify (clear_section id)
  restrict (is_referenced id)
  modify (λ s. record s { sections = delete_many (λ x. str_eq x.id id) s.sections })
  success req "SECTION_DELETED" "Section" id
      (field "sectionCode" (opt_str section.section_code) end)
  pure (record {
    status = 200;
    body = object (field "sectionId" (str id) end);
    headers = ("Location", join "/api/v1/sections/" id) ∷ [];
  })
