-- ===== src/Floor/Processes/Removal.antt =====
-- `DELETE /work-processes/:processId` of app/pats/command-router.ts: the subtree is unassigned, the
-- direct children and the other references are detached, and the process goes.
pub mod Laws
use bnpi_pats_api.Base.{
  ℕ, zero, suc, String, List, [], ◌∷◌, ◌++◌, map, Option, none, some, Bool, true, false, not, ◌&&◌,
  ◌||◌, ltb, str_eq, any, includes, opt_eq, keep, if◌then◌else◌,
}
use bnpi_pats_api.Base.Json.{str, end, field, object}
use bnpi_pats_api.Command.Problem.{not_found, conflict}
use bnpi_pats_api.Command.Request.{Request}
use bnpi_pats_api.Command.Idempotency.{CommandResponse}
use bnpi_pats_api.Floor.{
  Floor, WorkProcess, Line, Booth, Sheet, Tx, pure, gets, found, ◌>>=◌, ◌>>◌, refuse_if,
  refuse_when, restrict, modify, success, process_of, update_many, delete_many, count,
}
use bnpi_pats_api.Base.Decimal.{decimal}
use Prim.Native.String.{◌++◌ as join}

-- `toUnassign`, `queue` behind the current entry, and `directChildIds`.
pub record Walk : Type 0 where
  pub seen : List String
  pub queue : List String
  pub direct : List String

abbrev pub child_ids : List WorkProcess → String → List String
child_ids ps parent =
    map (λ (p : WorkProcess). p.id) (keep (λ p. opt_eq p.parent_process_id (some parent)) ps)

abbrev pub visited : String → String → String → Walk → Walk
visited root current child w = if includes w.seen child then w else record {
  seen = w.seen ++ child ∷ [];
  queue = w.queue ++ child ∷ [];
  direct = if str_eq current root then w.direct ++ child ∷ [] else w.direct;
}

unfoldable pub visit_children : String → String → List String → Walk → Walk
visit_children root current [] w = w
visit_children root current (child ∷ children) w =
    visit_children root current children (visited root current child w)

-- The entries of the queue that are read at most.
abbrev pub maximum_visits : ℕ
maximum_visits = 100

unfoldable pub descend : ℕ → List WorkProcess → String → List String → Walk → Walk
unfolding visit_children
descend zero ps root queue w = w
descend (suc n) ps root [] w = w
descend (suc n) ps root (current ∷ queue) w =
    let next = visit_children root current (child_ids ps current) (record w { queue = queue }) in
    descend n ps root next.queue next

abbrev pub start : String → Walk
start root = record { seen = root ∷ []; queue = []; direct = [] }

abbrev pub is_of : String → Line → Bool
is_of id l = str_eq l.process_id id

abbrev pub refers : String → Option String → Bool
refers id reference = opt_eq reference (some id)

-- A row that still refers to the process. The schema refuses the deletion under a line and clears the
-- other references; here each of them refuses it, so that a deletion that succeeds has cleared them
-- by the code's own updates.
abbrev pub is_referenced : String → Floor → Bool
is_referenced id s =
    any (is_of id) s.lines
    || any (λ (p : WorkProcess). refers id p.parent_process_id && not (str_eq p.id id)) s.processes
    || any (λ (b : Booth). refers id b.work_process_id) s.booths
    || any (λ (d : Sheet). refers id d.work_process_id) s.daily_sheets
    || any (λ (d : Sheet). refers id d.work_process_id) s.station_boards

abbrev pub descendants : String → Walk → List String
descendants root w = keep (λ id. not (str_eq id root)) w.seen

abbrev pub unassigned : WorkProcess → WorkProcess
unassigned p = record p { section_id = none }

abbrev pub detached : WorkProcess → WorkProcess
detached p = record p { parent_process_id = none }

abbrev pub freed_booth : Booth → Booth
freed_booth b = record b { work_process_id = none }

abbrev pub freed_sheet : Sheet → Sheet
freed_sheet d = record d { work_process_id = none }

abbrev pub detach : String → Walk → Floor → Floor
detach id w s = record s {
  processes =
      update_many (λ p. includes w.direct p.id) detached
        (update_many (λ p. includes (descendants id w) p.id) unassigned s.processes);
  booths = update_many (λ b. refers id b.work_process_id) freed_booth s.booths;
  daily_sheets = update_many (λ d. refers id d.work_process_id) freed_sheet s.daily_sheets;
  station_boards = update_many (λ d. refers id d.work_process_id) freed_sheet s.station_boards;
}

abbrev attached : ℕ → String
attached n =
    join "Cannot delete: "
      (join (decimal n) " line(s) attached. Disable and permanently delete those lines first.")

unfoldable pub delete_process : Request → String → Tx CommandResponse
delete_process req id = do
  process ←
      found (λ s. process_of s.processes id) (not_found "The requested work process was not found.")
  lines ← gets (λ s. count (is_of id) s.lines)
  refuse_if (ltb 0 lines) (conflict (attached lines))
  walk ← gets (λ s. descend maximum_visits s.processes id (id ∷ []) (start id))
  modify (detach id walk)
  restrict (is_referenced id)
  modify (λ s. record s { processes = delete_many (λ p. str_eq p.id id) s.processes })
  success req "WORK_PROCESS_DELETED" "WorkProcess" id (field "name" (str process.name) end)
  pure (record { status = 200; body = object (field "processId" (str id) end); headers = [] })
