-- ===== src/Planning/Release/Outcome.antt =====
-- The release of a project: when it succeeds, and what it plans when it does.
use bnpi_pats_api.Base.{
  ℕ, String, List, [], map, length, Option, none, some, Bool, ◌+◌, ◌*◌, ◌≤◌, max, ◌≡◌, ◌∙◌, sym, ap,
  Any, arith,
}
use bnpi_pats_api.Command.Work.{done}
use bnpi_pats_api.Command.Request.{Request}
use bnpi_pats_api.Command.Audit.{Logged}
use bnpi_pats_api.Command.Idempotency.{CommandResponse}
use bnpi_pats_api.Planning.{Project, Requirement, Part, Lot, PlanReads, PlanWrite, BatchRow}
use bnpi_pats_api.Planning.Mint.{requirement_of}
use bnpi_pats_api.Planning.Mint.Laws.{numbers_after}
use bnpi_pats_api.Planning.Mint.Coverage.{HasPartIds, mint_all-covers, mint_all-numbers}
use bnpi_pats_api.Planning.Release.{
  release_batch_size, sort_parts, batch_code, minted_row, release_trays, release_project,
}
use bnpi_pats_api.Planning.Release.Ledger.{rows_after, activated-codes, minted-codes, length-minted}
use bnpi_pats_api.Planning.Release.Plans.{planned_in, HasPartIds-sort_parts, Any-sort_parts}
use bnpi_pats_api.Planning.Release.Returns.{release-inv}

release_batch_size-positive : (n : Option ℕ) → 1 ≤ release_batch_size n
unfolding release_batch_size
release_batch_size-positive none = omega arith
release_batch_size-positive (some n) = ground arith

same_lot : {o : Option Lot} {a b : Lot} → o ≡ some a → o ≡ some b → a ≡ b
same_lot e f = cc

-- A release that succeeded numbers the batches that it creates without a gap or a repetition from the
-- number of batches that the lot already has: the codes of the batches that it leaves are the lot's
-- code with the numbers that follow that count, one each, in order.
pub release-numbers :
    (r : PlanReads) (locale_le : String → String → Bool) (req : Request) (batch_id : ℕ → String)
    (now target_id : String) (version : ℕ) {p : Project} (ws : List (Logged PlanWrite))
    (resp : CommandResponse) {lot : Lot}
    → r.project target_id ≡ some p
    → release_project r locale_le req batch_id now target_id version ≡ done ws resp
    → r.lot_of p.id ≡ some lot
    → map (λ (b : BatchRow). b.batch_code) (rows_after r ws [])
      ≡ map (batch_code lot.lot_code) (numbers_after lot.batch_count (length (rows_after r ws [])))
unfolding release_trays
release-numbers r locale_le req batch_id now target_id version {p} ws resp {lot} found ok
      of_project =
    let (own, of_own, _, _, _, batch_rows) =
      release-inv r locale_le req batch_id now target_id version ws resp found ok in
    let same : own ≡ lot = same_lot of_own of_project in
    let size = release_batch_size (r.tray_standard p.id) in
    let trays = release_trays r locale_le req batch_id now target_id version p lot in
    rw (batch_rows, same)
      (activated-codes (r.lot_of p.id) (map (minted_row req lot size batch_id) trays)
        ∙ minted-codes req lot size batch_id trays
        ∙ ap (map (batch_code lot.lot_code)) (
            mint_all-numbers r lot.id (r.requirements p.id) size
              (release_batch_size-positive (r.tray_standard p.id)) lot.batch_count
              (sort_parts locale_le (r.parts p.id))
            ∙ ap (numbers_after lot.batch_count)
                (sym (length-minted req lot size batch_id trays (r.lot_of p.id)))))

-- A release that succeeded plans each part in full, once: for a part of the project that belongs to
-- the requirement `q`, the pieces of the batches that the release writes for it and the pieces that
-- were planned before add up to the required quantity, or to those planned before where they are
-- more. The batches that the lot had for the part held a full tray each, or more, and the parts' ids
-- differ.
pub release-covers :
    (r : PlanReads) (locale_le : String → String → Bool) (req : Request) (batch_id : ℕ → String)
    (now target_id : String) (version : ℕ) {p : Project} (ws : List (Logged PlanWrite))
    (resp : CommandResponse) {lot : Lot} (part : Part) (q : Requirement)
    → r.project target_id ≡ some p
    → release_project r locale_le req batch_id now target_id version ≡ done ws resp
    → r.lot_of p.id ≡ some lot
    → HasPartIds (r.parts p.id)
    → Any (λ x. x ≡ part) (r.parts p.id)
    → requirement_of (r.requirements p.id) part ≡ some q
    → r.batch_count lot.id part.id * release_batch_size (r.tray_standard p.id)
      ≤ r.planned_sum lot.id part.id
    → planned_in ws part.id + r.planned_sum lot.id part.id
      ≡ max q.required_quantity (r.planned_sum lot.id part.id)
unfolding release_trays
release-covers r locale_le req batch_id now target_id version {p} ws resp {lot} part q found ok
      of_project ids m of_part full =
    let (own, of_own, _, plans, _, _) =
      release-inv r locale_le req batch_id now target_id version ws resp found ok in
    let same : own ≡ lot = same_lot of_own of_project in
    ap (λ (n : ℕ). n + r.planned_sum lot.id part.id) (plans part.id)
    ∙ rw same (
        mint_all-covers r lot.id (r.requirements p.id) (release_batch_size (r.tray_standard p.id))
          (release_batch_size-positive (r.tray_standard p.id)) lot.batch_count
          (sort_parts locale_le (r.parts p.id)) part q
          (HasPartIds-sort_parts locale_le (r.parts p.id) ids)
          (Any-sort_parts locale_le (r.parts p.id) part m) of_part full)
