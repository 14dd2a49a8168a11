-- ===== src/Floor/Sections/Board/Laws.antt =====
-- What the replacement of a section's processes and the reordering of the sections leave.
use bnpi_pats_api.Base.{
  ℕ, ◌+◌, String, List, [], ◌∷◌, Option, none, some, true, false, not, ◌&&◌, ◌≡◌, refl, arith, ◌∙◌,
  str_eq, eq_iff, includes, is_some, get_or, if◌then◌else◌, inl, inr, Bool-cases, find-passes,
}
use bnpi_pats_api.Command.Request.{Request}
use bnpi_pats_api.Command.Idempotency.{CommandResponse}
use bnpi_pats_api.Floor.{
  Floor, WorkProcess, Database, database, floor_of, ok, process_of, update_many, find-update_many,
}
use bnpi_pats_api.Floor.Sections.Board.{
  missing_processes, has_any, in_section, claimed, released, assign_processes, number_processes,
  replace_processes,
}

-- The place of the last entry of `c` in the list, counted from `index`.
abbrev pub last_index : ℕ → List String → String → Option ℕ
last_index index [] c = none
last_index index (x ∷ xs) c = elim (last_index (index + 1) xs c) [
  | some k ↦ some k
  | none ↦ if str_eq x c then some index else none
]

abbrev ordered_process : ℕ → WorkProcess → WorkProcess
ordered_process index p = record p { display_order = index }

process_id :
    (ps : List WorkProcess) (c : String) (p : WorkProcess) → process_of ps c ≡ some p → p.id ≡ c
process_id ps c p there = (eq_iff p.id c).0 (find-passes (λ q. str_eq q.id c) ps p there)

-- Each listed process is found with the place of its last entry, the others as they were.
number_processes-find :
    (index : ℕ) (ids : List String) (ps : List WorkProcess) (c : String) (p : WorkProcess)
    → process_of ps c ≡ some p
    → process_of (number_processes index ids ps) c
      ≡ some (record p { display_order = get_or (last_index index ids c) p.display_order })
unfolding number_processes
number_processes-find index [] ps c p there = there
number_processes-find index (id ∷ ids) ps c p there =
    let step =
      find-update_many (λ q. str_eq q.id c) (λ q. str_eq q.id id) (ordered_process index)
        (λ q. refl) ps p there in
    let rest =
      number_processes-find (index + 1) ids
        (update_many (λ q. str_eq q.id id) (ordered_process index) ps) c
        (if str_eq p.id id then ordered_process index p else p) step in
    rest ∙ ground (arith, process_id ps c p there, eq_iff p.id id, eq_iff id c, eq_iff id p.id)

-- The owner of a process after the section claimed the listed ones.
abbrev pub owner : String → List String → WorkProcess → Option String
owner section_id ids p =
    if includes ids p.id
    then some section_id
    else if in_section section_id p.section_id
    then none
    else p.section_id

assign_processes-find :
    (section_id : String) (ids : List String) (ps : List WorkProcess) (c : String) (p : WorkProcess)
    → process_of ps c ≡ some p
    → process_of (assign_processes section_id ids ps) c
      ≡ some (record p { section_id = owner section_id ids p })
unfolding assign_processes
assign_processes-find section_id ids ps c p there =
    let first =
      find-update_many (λ q. str_eq q.id c) (λ q. includes ids q.id) (claimed section_id)
        (λ q. refl) ps p there in
    let second =
      find-update_many (λ q. str_eq q.id c)
        (λ q. not (includes ids q.id) && in_section section_id q.section_id) released (λ q. refl)
        (update_many (λ q. includes ids q.id) (claimed section_id) ps)
        (if includes ids p.id then claimed section_id p else p) first in
    second ∙ ground arith

none_missing :
    (ids : List String) (s : Floor) (c : String)
    → has_any (missing_processes ids s) ≡ false
    → includes ids c ≡ true
    → is_some (process_of s.processes c) ≡ true
none_missing [] s c none_left listed = cc
none_missing (id ∷ ids) s c none_left listed =
    elim (Bool-cases (is_some (process_of s.processes id))) [
      | inl there ↦ ground (arith, eq_iff id c, none_missing ids s c)
      | inr absent ↦ ground arith
    ]

replace_processes-effect :
    (req : Request) (section_id : String) (ids : List String) (d : Database) {r : CommandResponse}
    {t : Floor}
    → replace_processes req section_id ids d ≡ ok r (database t)
    → (has_any (missing_processes ids (floor_of d)) ≡ false)
      × (t.processes
          ≡ number_processes 0 ids (assign_processes section_id ids (floor_of d).processes))
unfolding replace_processes
replace_processes-effect req section_id ids d done = (ground arith, ground arith)

-- A replacement that succeeds leaves the section with exactly the listed processes, each of which
-- exists: a listed process is the section's, at the place of its last entry in the list; an unlisted
-- one that was the section's is nobody's; any other process keeps its section and its place, and
-- nothing else of a process changes.
pub replace_processes-owners :
    (req : Request) (section_id : String) (ids : List String) (s : Floor) {r : CommandResponse}
    {t : Floor}
    → replace_processes req section_id ids (database s) ≡ ok r (database t)
    → ((c : String) → includes ids c ≡ true → is_some (process_of s.processes c) ≡ true)
      × ((c : String) (p : WorkProcess)
          → process_of s.processes c ≡ some p
          → process_of t.processes c
            ≡ some (record p {
              section_id = owner section_id ids p;
              display_order = get_or (last_index 0 ids c) p.display_order;
            }))
replace_processes-owners req section_id ids s done =
    let (complete, wrote) = replace_processes-effect req section_id ids (database s) done in
    (
      λ c listed. none_missing ids s c complete listed,
      λ c p there. rw wrote (
          number_processes-find 0 ids (assign_processes section_id ids s.processes) c
            (record p { section_id = owner section_id ids p })
            (assign_processes-find section_id ids s.processes c p there)),
    )
