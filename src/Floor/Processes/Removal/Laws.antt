-- ===== src/Floor/Processes/Removal/Laws.antt =====
-- The deletion of a process leaves no reference to it, whatever the tree looks like: the database never
-- refuses it.
use bnpi_pats_api.Base.{
  ℕ, zero, suc, String, List, [], ◌∷◌, ◌++◌, none, some, Bool, true, false, not, ◌&&◌, ◌||◌, ◌≡◌,
  refl, arith, str_eq, eq_iff, any, includes, All,
}
use bnpi_pats_api.Base.Json.{str, end, field, object}
use bnpi_pats_api.Command.Audit.{record_command_success}
use bnpi_pats_api.Command.Request.{Request}
use bnpi_pats_api.Command.Idempotency.{CommandResponse}
use bnpi_pats_api.Floor.{
  Floor, WorkProcess, Booth, Sheet, database, ok, process_of, update_many, delete_many, count,
  All-map, add_log, written, any-count, any-delete_many, any-updated, find-deleted,
}
use bnpi_pats_api.Floor.Processes.Removal.{
  Walk, child_ids, visited, visit_children, descend, start, maximum_visits, is_of, refers,
  is_referenced, descendants, unassigned, detached, freed_booth, freed_sheet, detach,
  delete_process,
}

includes-append :
    (xs ys : List String) (z : String) → includes (xs ++ ys) z ≡ (includes xs z || includes ys z)
includes-append [] ys z = refl
includes-append (x ∷ xs) ys z = ground (arith, includes-append xs ys z)

visited-direct :
    (root current child z : String) (w : Walk)
    → includes w.direct z ≡ true
    → includes (visited root current child w).direct z ≡ true
visited-direct root current child z w h = ground (arith, includes-append w.direct (child ∷ []) z)

visit-direct :
    (root current : String) (children : List String) (z : String) (w : Walk)
    → includes w.direct z ≡ true
    → includes (visit_children root current children w).direct z ≡ true
unfolding visit_children
visit-direct root current [] z w h = h
visit-direct root current (child ∷ children) z w h =
    visit-direct root current children z (visited root current child w)
      (visited-direct root current child z w h)

descend-direct :
    (n : ℕ) (ps : List WorkProcess) (root : String) (queue : List String) (z : String) (w : Walk)
    → includes w.direct z ≡ true
    → includes (descend n ps root queue w).direct z ≡ true
unfolding descend
descend-direct zero ps root queue z w h = h
descend-direct (suc n) ps root [] z w h = h
descend-direct (suc n) ps root (current ∷ queue) z w h =
    let next = visit_children root current (child_ids ps current) (record w { queue = queue }) in
    descend-direct n ps root next.queue z next
      (visit-direct root current (child_ids ps current) z (record w { queue = queue }) h)

-- While the root's children are visited, what was seen is the root or a direct child.
abbrev Covers : String → Walk → Type 0
Covers root w =
    (z : String) → includes w.seen z ≡ true → str_eq z root ≡ false → includes w.direct z ≡ true

visited-Covers :
    (root child : String) (w : Walk) → Covers root w → Covers root (visited root root child w)
visited-Covers root child w covers z seen apart = ground (
  arith,
  covers z,
  includes-append w.direct (child ∷ []) z,
  includes-append w.seen (child ∷ []) z,
  eq_iff root root,
  eq_iff child z,
)

visited-child :
    (root child : String) (w : Walk)
    → Covers root w
    → str_eq child root ≡ false
    → includes (visited root root child w).direct child ≡ true
visited-child root child w covers apart = ground (
  arith,
  covers child,
  includes-append w.direct (child ∷ []) child,
  eq_iff root root,
  eq_iff child child,
)

visit-root :
    (root : String) (children : List String) (c : String) (w : Walk)
    → Covers root w
    → includes children c ≡ true
    → str_eq c root ≡ false
    → includes (visit_children root root children w).direct c ≡ true
unfolding visit_children
visit-root root [] c w covers listed apart = cc
visit-root root (child ∷ children) c w covers listed apart = ground (
  arith,
  eq_iff child c,
  visited-child root child w covers,
  visit-direct root root children c (visited root root child w),
  visit-root root children c (visited root root child w) (visited-Covers root child w covers),
)

descend-children :
    (n : ℕ) (ps : List WorkProcess) (root c : String)
    → includes (child_ids ps root) c ≡ true
    → str_eq c root ≡ false
    → includes (descend (suc n) ps root (root ∷ []) (start root)).direct c ≡ true
unfolding descend
descend-children n ps root c listed apart =
    let next = visit_children root root (child_ids ps root) (start root) in
    descend-direct n ps root next.queue c next (
      visit-root root (child_ids ps root) c (start root)
        (λ z seen other. ground (arith, eq_iff root z, eq_iff z root)) listed apart)

-- Every child of the process is among its child ids.
abbrev IsListed : String → List WorkProcess → WorkProcess → Type 0
IsListed id ps p = refers id p.parent_process_id ≡ true → includes (child_ids ps id) p.id ≡ true

IsListed-more :
    (id : String) (q : WorkProcess) (ps : List WorkProcess) (p : WorkProcess)
    → IsListed id ps p
    → IsListed id (q ∷ ps) p
IsListed-more id q ps p h = ground arith

children-IsListed : (id : String) (ps : List WorkProcess) → All (IsListed id ps) ps
children-IsListed id [] = tt
children-IsListed id (p ∷ ps) = (
  λ h. ground (arith, eq_iff p.id p.id),
  All-map (IsListed id ps) (IsListed id (p ∷ ps)) (IsListed-more id p ps) ps
      (children-IsListed id ps),
)

-- Once the direct children are detached, no process but the deleted one names it as its parent.
abbrev pub names_parent : String → WorkProcess → Bool
names_parent id p = refers id p.parent_process_id && not (str_eq p.id id)

detached_children :
    (id : String) (w : Walk) (far : WorkProcess → Bool) (ps : List WorkProcess)
    → All (λ p. names_parent id p ≡ true → includes w.direct p.id ≡ true) ps
    → any
        (names_parent id)
        (update_many (λ p. includes w.direct p.id) detached (update_many far unassigned ps))
      ≡ false
detached_children id w far [] h = refl
detached_children id w far (p ∷ ps) (h, hs) = ground (arith, h, detached_children id w far ps hs)

-- No process but the deleted one names it as its parent when it goes.
pub detach-names_parent :
    (id : String) (s : Floor)
    → any
        (names_parent id)
        (detach id (descend maximum_visits s.processes id (id ∷ []) (start id)) s).processes
      ≡ false
detach-names_parent id s =
    let w = descend maximum_visits s.processes id (id ∷ []) (start id) in
    let listed : All (λ p. names_parent id p ≡ true → includes w.direct p.id ≡ true) s.processes =
      All-map (IsListed id s.processes)
        (λ p. names_parent id p ≡ true → includes w.direct p.id ≡ true)
        (λ p there names.
          descend-children 99 s.processes id p.id (there (ground arith)) (ground arith))
        s.processes (children-IsListed id s.processes) in
    detached_children id w (λ p. includes (descendants id w) p.id) s.processes listed

-- No reference is left when the process goes.
detach-is_referenced :
    (id : String) (s : Floor)
    → count (is_of id) s.lines ≡ 0
    → is_referenced id (detach id (descend maximum_visits s.processes id (id ∷ []) (start id)) s)
      ≡ false
detach-is_referenced id s unattached =
    rw
      (
        any-count (is_of id) s.lines unattached,
        detach-names_parent id s,
        any-updated (λ (b : Booth). refers id b.work_process_id) freed_booth (λ b. refl) s.booths,
        any-updated (λ (d : Sheet). refers id d.work_process_id) freed_sheet (λ d. refl)
            s.daily_sheets,
        any-updated (λ (d : Sheet). refers id d.work_process_id) freed_sheet (λ d. refl)
            s.station_boards,
      )
      refl

-- The tables that a deletion leaves.
abbrev after_delete : Request → String → WorkProcess → Floor → Floor
after_delete req id p s =
    let w = descend maximum_visits s.processes id (id ∷ []) (start id) in
    add_log
      (written (
        record_command_success req "WORK_PROCESS_DELETED" "WorkProcess" id
          (field "name" (str p.name) end)))
      (record (detach id w s) {
        processes = delete_many (λ p. str_eq p.id id) (detach id w s).processes;
      })

-- A process that is found and has no lines is deleted, whatever its subtree: the command succeeds,
-- the process is gone, and no line, process, booth, sheet or board refers to it: the code's own updates
-- clear every reference before the row goes.
pub delete_process-total :
    (req : Request) (id : String) (s : Floor) {p : WorkProcess}
    → process_of s.processes id ≡ some p
    → count (is_of id) s.lines ≡ 0
    → (r : CommandResponse) × (t : Floor) × (delete_process req id (database s) ≡ ok r (database t))
      × (process_of t.processes id ≡ none)
      × (is_referenced id t ≡ false)
unfolding delete_process
delete_process-total req id s {p} there unattached =
    let w = descend maximum_visits s.processes id (id ∷ []) (start id) in
    let free = detach-is_referenced id s unattached in
    (
      record { status = 200; body = object (field "processId" (str id) end); headers = [] },
      after_delete req id p s,
      ground arith,
      find-deleted (λ p. str_eq p.id id) (detach id w s).processes,
      ground (
        arith,
        any-delete_many (names_parent id) (λ p. str_eq p.id id) (detach id w s).processes,
      ),
    )
