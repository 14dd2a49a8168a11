-- ===== src/Planning/Draft/Removal/Laws.antt =====
-- Which drafts and which parts can be removed.
use bnpi_pats_api.Base.{ℕ, String, List, Option, some, true, false, ◌≡◌, arith}
use bnpi_pats_api.Command.Work.{done}
use bnpi_pats_api.Command.Request.{Request}
use bnpi_pats_api.Command.Audit.{Logged}
use bnpi_pats_api.Command.Idempotency.{CommandResponse}
use bnpi_pats_api.Planning.{Project}
use bnpi_pats_api.Planning.Draft.{
  DraftReads, DraftWrite, is_draft, editable_project, ensure_project_editable, PartRef,
}
use bnpi_pats_api.Planning.Draft.Removal.{is_stale, remove_lot, delete_project, remove_part}

-- A project that is deleted was a draft, at the version that the client read if it sent one, and its
-- lot, if it had one, had no batches.
pub delete_project-guards :
    (r : DraftReads) (req : Request) (target_id : String) (version : Option ℕ)
    (ws : List (Logged DraftWrite)) (resp : CommandResponse) {p : Project}
    → r.project target_id ≡ some p
    → delete_project r req target_id version ≡ done ws resp
    → (is_draft p.status ≡ true)
      × (is_stale version p ≡ false)
      × ((lot_id : String) → r.lot_of p.id ≡ some lot_id → r.batches_of_lot lot_id ≡ 0)
unfolding delete_project
delete_project-guards r req target_id version ws resp {p} found ok =
    (ground arith, ground arith, λ lot_id with_lot. unfold remove_lot in ground arith)

-- A part that is removed is of a draft at the version that the client read, and no batch is of it.
pub remove_part-guards :
    (r : DraftReads) (req : Request) (target_id part_id : String) (version : ℕ)
    (ws : List (Logged DraftWrite)) (resp : CommandResponse) {p : Project} {part : PartRef}
    → r.project target_id ≡ some p
    → r.part part_id target_id ≡ some part
    → remove_part r req target_id part_id version ≡ done ws resp
    → (is_draft p.status ≡ true) × (p.row_version ≡ version) × (r.batches_of_part part.id ≡ 0)
unfolding remove_part editable_project ensure_project_editable
remove_part-guards r req target_id part_id version ws resp found of_project ok =
    (ground arith, ground arith, ground arith)
