-- ===== src/Floor/Sections/Board.antt =====
-- The board of sections: `PUT /sections/:sectionId/processes` and `PUT /sections/order` of
-- app/pats/command-router.ts.
pub mod Laws
use Prim.Native.String.{◌++◌ as join}
use bnpi_pats_api.Base.{
  ℕ, String, List, [], ◌∷◌, Option, none, some, Bool, true, false, not, ◌&&◌, ◌+◌, ltb, str_eq,
  find, first, get_or, includes, opt_eq, is_some, keep, length, if◌then◌else◌,
}
use bnpi_pats_api.Base.Json.{Json, str, nat, Items, nil, cons, array, end, field, object}
use bnpi_pats_api.Command.Problem.{not_found}
use bnpi_pats_api.Command.Request.{Request}
use bnpi_pats_api.Command.Idempotency.{CommandResponse}
use bnpi_pats_api.Floor.{
  Floor, Section, WorkProcess, Booth, Tx, pure, gets, found, ◌>>=◌, ◌>>◌, refuse_if, modify,
  success, section_of, process_of, update_many,
}

-- `missing.join(", ")`
abbrev commas : List String → String
commas [] = ""
commas (x ∷ []) = x
commas (x ∷ y ∷ xs) = join x (join ", " (commas (y ∷ xs)))

abbrev ids_of : List String → Items
ids_of [] = nil
ids_of (x ∷ xs) = cons (str x) (ids_of xs)

abbrev pub missing_processes : List String → Floor → List String
missing_processes ids s = keep (λ id. not (is_some (process_of s.processes id))) ids

abbrev pub missing_sections : List String → Floor → List String
missing_sections ids s = keep (λ id. not (is_some (section_of s.sections id))) ids

abbrev pub has_any : List String → Bool
has_any xs = ltb 0 (length xs)

-- `workProcessId: { notIn: ids }`, which no missing value passes.
abbrev unlisted : List String → Option String → Bool
unlisted ids none = false
unlisted ids (some id) = not (includes ids id)

abbrev pub in_section : String → Option String → Bool
in_section section_id o = opt_eq o (some section_id)

abbrev vacate : String → List String → Floor → Floor
vacate section_id ids s = record s {
  booths =
      update_many (λ b. in_section section_id b.section_id && unlisted ids b.work_process_id)
        (λ b. record b { work_process_id = none }) s.booths;
}

abbrev is_vacant : String → Booth → Bool
is_vacant section_id b = in_section section_id b.section_id && not (is_some b.work_process_id)

abbrev occupy : String → String → List Booth → List Booth
occupy section_id process_id bs = elim (find (is_vacant section_id) bs) [
  | none ↦ bs
  | some found ↦
      update_many (λ b. str_eq b.id found.id) (λ b. record b { work_process_id = some process_id })
        bs
]

-- Each process of the list takes a vacant booth of the section, while there is one.
unfoldable pub fill_booths : String → List String → List Booth → List Booth
fill_booths section_id [] bs = bs
fill_booths section_id (id ∷ ids) bs = fill_booths section_id ids (occupy section_id id bs)

abbrev pub claimed : String → WorkProcess → WorkProcess
claimed section_id p = record p { section_id = some section_id }

abbrev pub released : WorkProcess → WorkProcess
released p = record p { section_id = none }

-- The listed processes become the section's, and those that it had and are not listed nobody's.
unfoldable pub assign_processes : String → List String → List WorkProcess → List WorkProcess
assign_processes section_id ids ps =
    update_many (λ p. not (includes ids p.id) && in_section section_id p.section_id) released
      (update_many (λ p. includes ids p.id) (claimed section_id) ps)

-- `for (const [index, id] of ids.entries())` with an update of the display order.
unfoldable pub number_processes : ℕ → List String → List WorkProcess → List WorkProcess
number_processes index [] ps = ps
number_processes index (id ∷ ids) ps =
    number_processes (index + 1) ids
      (update_many (λ p. str_eq p.id id) (λ p. record p { display_order = index }) ps)

unfoldable pub number_sections : ℕ → List String → List Section → List Section
number_sections index [] ss = ss
number_sections index (id ∷ ids) ss =
    number_sections (index + 1) ids
      (update_many (λ s. str_eq s.id id) (λ s. record s { display_order = index }) ss)

abbrev pub place_processes : String → List String → Floor → Floor
place_processes section_id ids s = record s {
  booths = fill_booths section_id ids s.booths;
  processes = number_processes 0 ids (assign_processes section_id ids s.processes);
}

unfoldable pub replace_processes : Request → String → List String → Tx CommandResponse
replace_processes req section_id ids = do
  section ←
      found (λ s. section_of s.sections section_id)
        (not_found "The requested section was not found.")
  missing ← gets (missing_processes ids)
  refuse_if (has_any missing)
      (not_found (join "The following work processes were not found: " (commas missing)))
  modify (vacate section_id ids)
  modify (place_processes section_id ids)
  success req "SECTION_PROCESSES_REPLACED" "Section" section_id
      (field "processCount" (nat (length ids)) end)
  pure (record {
    status = 200;
    body =
        object (field "sectionId" (str section_id) (field "processIds" (array (ids_of ids)) end));
    headers = ("Location", join "/api/v1/sections/" section_id) ∷ [];
  })

unfoldable pub reorder_sections : Request → List String → Tx CommandResponse
reorder_sections req ids = do
  missing ← gets (missing_sections ids)
  refuse_if (has_any missing)
      (not_found (join "The following sections were not found: " (commas missing)))
  modify (λ s. record s { sections = number_sections 0 ids s.sections })
  success req "SECTIONS_REORDERED" "Section" (get_or (first ids) "")
      (field "sectionCount" (nat (length ids)) end)
  pure (record {
    status = 200;
    body = object (field "sectionIds" (array (ids_of ids)) end);
    headers = ("Location", "/api/v1/sections") ∷ [];
  })
