-- ===== src/Floor/Tests.antt =====
-- A floor with two sections, three processes, a line and two machines, and commands on it.
use bnpi_pats_api.Base.{
  ℕ, suc, String, List, [], ◌∷◌, Option, none, some, Bool, true, false, ◌≡◌, ◌+◌, ◌≤◌, refl, arith,
  str_eq, find, eq_iff, neq_of_str_eq, Bool-cases, inl, inr, includes, get_or, is_some,
}
use bnpi_pats_api.Base.Decimal.{quoted, decimal}
use bnpi_pats_api.Command.Request.{
  Request, actor_id, require_if_match, parse_if_match, digits_quote,
}
use bnpi_pats_api.Command.Idempotency.{CommandResponse}
use bnpi_pats_api.Identity.Policy.{
  has_capability, effective_capabilities, sort, imply_all, grant_all,
}
use bnpi_pats_api.Floor.{
  Floor, Line, Machine, Section, WorkProcess, OperatorAssignment, FloorSubject, Database, database,
  floor_of, Result, ok, fail, foreign_key, line_of, section_of, process_of, subject_of, count,
}
use bnpi_pats_api.Floor.Lines.{disable_line, delete_line, is_on}
use bnpi_pats_api.Floor.Lines.Laws.{retire_line}
use bnpi_pats_api.Floor.Lines.Operators.{OperatorBody, assign_operator}
use bnpi_pats_api.Floor.Processes.{ProcessPatchBody, patch_process, check_new_parent, climb}
use bnpi_pats_api.Floor.Processes.Climb.{IsAcyclic, patch_process-IsAcyclic}
use bnpi_pats_api.Floor.Processes.Chains.{Chain}
use bnpi_pats_api.Floor.Processes.Removal.{delete_process, is_referenced}
use bnpi_pats_api.Floor.Processes.Removal.Laws.{delete_process-total}
use bnpi_pats_api.Floor.Sections.Codes.{free_code, code_taken, next_free, stem}
use bnpi_pats_api.Floor.Sections.Codes.Laws.{free_code-free}
use bnpi_pats_api.Floor.Sections.Removal.{delete_section}
use bnpi_pats_api.Floor.Sections.Removal.Laws.{delete_section-cases}
use bnpi_pats_api.Floor.Sections.Board.{replace_processes}
use bnpi_pats_api.Floor.Sections.Board.Laws.{owner, last_index, replace_processes-owners}
use bnpi_pats_api.Command.Request.EntityTag.{parse_if_match-quoted}
use bnpi_pats_api.Floor.Machines.{current_machine, MachinePatchBody, patch_machine}
use bnpi_pats_api.Floor.Machines.Codes.{IsUnique, patches, Change-IsUnique}
use bnpi_pats_api.Floor.Integrity.{IsSound, here, next, assigns_operator}
use bnpi_pats_api.Floor.Integrity.Steps.{Reach-IsSound}

abbrev section : String → String → Section
section id code = record {
  id = id;
  name = code;
  section_code = some code;
  production_line_id = none;
  stage_id = "STG-1";
  screen_type = "COMPUTER";
  scanner_attached = true;
  printer_attached = true;
  display_order = 0;
}

abbrev process : String → Option String → WorkProcess
process id parent = record {
  id = id;
  sub_stage_id = none;
  section_id = some "S1";
  parent_process_id = parent;
  name = id;
  display_order = 0;
  is_enabled = true;
}

abbrev line : Line
line = record {
  id = "L1";
  section_id = "S1";
  process_id = "P3";
  line_code = "LINE-1";
  label = none;
  assigned_leader_id = "lead";
  active_leader_id = none;
  display_order = 0;
  is_enabled = true;
  row_version = 1;
}

abbrev machine : String → String → Machine
machine id code = record {
  id = id;
  production_line_id = "PL1";
  machine_code = code;
  name = code;
  display_order = 0;
  is_enabled = true;
  row_version = 1;
}

-- `P2` hangs below `P1`; the line runs `P3`.
abbrev floor : Floor
floor = record {
  production_lines = [];
  machines = machine "M1" "A" ∷ machine "M2" "B" ∷ [];
  sections = section "S1" "SEC-A" ∷ section "S2" "SEC-A-2" ∷ [];
  station_steps = [];
  processes = process "P1" none ∷ process "P2" (some "P1") ∷ process "P3" none ∷ [];
  lines = line ∷ [];
  assignments = [];
  booths = [];
  daily_sheets = record { id = "D1"; work_process_id = some "P1" } ∷ [];
  station_boards = [];
  print_jobs = "S2" ∷ [];
  batches = [];
  stages = "STG-1" ∷ [];
  sub_stages = [];
  eligible = [];
  subjects = record { id = "op"; status = "ACTIVE" } ∷ [];
  log = [];
}

abbrev request : Option String → Request
request tag = record {
  canonical_subject = some (record { id = some "lead"; display_name_snapshot = none });
  idempotency_key = some "key";
  if_match = tag;
  correlation_id = none;
}

abbrev left_by : {A : Type 0} → Result A → Floor
left_by (ok a d) = floor_of d
left_by (fail e) = floor

abbrev no_answer : CommandResponse
no_answer = record { status = 0; body = bnpi_pats_api.Base.Json.null; headers = [] }

abbrev answer_of : Result CommandResponse → CommandResponse
answer_of (ok r d) = r
answer_of (fail e) = no_answer

abbrev operator : OperatorBody
operator = record { subject_id = "op"; line_id = "L1"; reason = none }

abbrev assigned : Result CommandResponse
assigned = assign_operator (request none) [] "A1" "now" operator (database floor)

abbrev staffed_floor : Floor
staffed_floor = left_by assigned

assigned_lem : assigned ≡ ok (answer_of assigned) (database staffed_floor)
unfolding assign_operator has_capability effective_capabilities sort imply_all grant_all actor_id
assigned_lem = refl

floor-IsSound : IsSound floor
floor-IsSound = record {
  single = λ subject. omega arith;
  staffed = tt;
  housed = (refl, tt);
  run = (refl, tt);
  rooted = (tt, (refl, (tt, tt)));
}

Reach-IsSound_example : IsSound staffed_floor
Reach-IsSound_example = Reach-IsSound floor-IsSound (
    next here
      (assigns_operator (request none) [] "A1" "now" operator (answer_of assigned) assigned_lem))

retire_line_example :
    (r r' : CommandResponse) × (t u : Floor) × (disable_line
        (request (some (quoted 1)))
        "now"
        "L1"
        (database staffed_floor)
      ≡ ok r (database t))
    × (delete_line (request (some (quoted 2))) "L1" (database t) ≡ ok r' (database u))
    × (line_of u.lines "L1" ≡ none)
    × (count (is_on "L1") u.assignments ≡ 0)
unfolding assign_operator has_capability effective_capabilities sort imply_all grant_all actor_id
retire_line_example =
    retire_line (request (some (quoted 1))) (request (some (quoted 2))) "now" "L1" staffed_floor
      refl (parse_if_match-quoted 1) (parse_if_match-quoted 2)

-- `P1` moves below `P3`.
abbrev move : ProcessPatchBody
move = record { name = none; parent_process_id = some (some "P3") }

abbrev moved : Result CommandResponse
moved = patch_process (request none) "P1" move (database floor)

moved_lem : moved ≡ ok (answer_of moved) (database (left_by moved))
unfolding patch_process check_new_parent climb
moved_lem = refl

chains : (c : String) → (n : ℕ) × Chain n floor.processes (some c) × (n ≤ 51)
chains c = elim (Bool-cases (str_eq "P2" c)) [
  | inl same ↦ (2, rw (← (eq_iff "P2" c).0 same) refl, omega arith)
  | inr other ↦ (1, ground arith, omega arith)
]

patch_process-IsAcyclic_example : IsAcyclic (left_by moved)
patch_process-IsAcyclic_example =
    patch_process-IsAcyclic (request none) "P1" move floor refl chains moved_lem

delete_process-total_example :
    (r : CommandResponse) × (t : Floor) × (delete_process (request none) "P1" (database floor)
      ≡ ok r (database t))
    × (process_of t.processes "P1" ≡ none)
    × (is_referenced "P1" t ≡ false)
delete_process-total_example = delete_process-total (request none) "P1" floor refl refl

delete_section-cases_example :
    (includes floor.print_jobs "S2" ≡ true
      → delete_section (request none) "S2" (database floor) ≡ fail foreign_key)
    × (includes floor.print_jobs "S2" ≡ false
        → (r : CommandResponse) × (t : Floor) × (delete_section (request none) "S2" (database floor)
            ≡ ok r (database t))
          × (section_of t.sections "S2" ≡ none)
          × (bnpi_pats_api.Floor.Sections.Removal.is_referenced "S2" t ≡ false))
delete_section-cases_example = delete_section-cases (request none) "S2" floor refl refl

free_code-free_example : code_taken floor.sections (free_code floor.sections "SEC-A") ≡ false
free_code-free_example = free_code-free floor.sections "SEC-A"

-- The two sections have the first two codes.
free_code_third : free_code floor.sections "SEC-A" ≡ "SEC-A-3"
unfolding free_code next_free decimal
free_code_third = refl

-- The code of a name.
stem_of_name : stem (λ s. s) "LINE 7 / A" ≡ "SEC-LINE-7-A"
unfolding stem
stem_of_name = refl

abbrev board : Result CommandResponse
board = replace_processes (request none) "S2" ("P3" ∷ "P1" ∷ []) (database floor)

board_lem : board ≡ ok (answer_of board) (database (left_by board))
unfolding replace_processes
board_lem = refl

replace_processes-owners_example :
    ((c : String)
      → includes ("P3" ∷ "P1" ∷ []) c ≡ true
      → is_some (process_of floor.processes c) ≡ true)
    × ((c : String) (p : WorkProcess)
        → process_of floor.processes c ≡ some p
        → process_of (left_by board).processes c
          ≡ some (record p {
            section_id = owner "S2" ("P3" ∷ "P1" ∷ []) p;
            display_order = get_or (last_index 0 ("P3" ∷ "P1" ∷ []) c) p.display_order;
          }))
replace_processes-owners_example =
    replace_processes-owners (request none) "S2" ("P3" ∷ "P1" ∷ []) floor board_lem

abbrev recode : MachinePatchBody
recode = record { name = none; machine_code = some "C"; display_order = none; is_enabled = none }

abbrev recoded : Result CommandResponse
recoded = patch_machine (request (some (quoted 1))) "PL1" "M1" recode (database floor)

recoded_lem : recoded ≡ ok (answer_of recoded) (database (left_by recoded))
unfolding patch_machine current_machine require_if_match parse_if_match digits_quote quoted
recoded_lem = refl

floor-IsUnique : IsUnique floor
floor-IsUnique = record {
  codes = λ code. ground (arith, eq_iff "A" code, eq_iff "B" code, neq_of_str_eq "A" "B" refl);
  ids = λ id. ground (arith, eq_iff "M1" id, eq_iff "M2" id, neq_of_str_eq "M1" "M2" refl);
}

Change-IsUnique_example : IsUnique (left_by recoded)
Change-IsUnique_example =
    Change-IsUnique
      (patches (request (some (quoted 1))) "PL1" "M1" recode (answer_of recoded) recoded_lem)
      floor-IsUnique
