-- ===== src/Planning/Mint.antt =====
-- The minting of tray-sized batches when a project is released (`PATCH /projects/:projectId` of
-- app/pats/command-router.ts): for each part in the order of its code, the series numbers that
-- the lot does not have yet, each for a tray of the quantity that is still to be planned.
pub mod Laws
pub mod Coverage
use bnpi_pats_api.Base.{
  ℕ, zero, suc, String, List, [], ◌∷◌, ◌++◌, Option, none, some, Bool, true, false, ◌+◌, ◌-◌, ◌/◌,
  ◌==◌, min, max, find, str_eq, length, if◌then◌else◌,
}
use bnpi_pats_api.Planning.{Part, Requirement, Lot, PlanReads}

-- A batch that the release mints, before its code and its row are written.
pub record Tray : Type 0 where
  pub sequence : ℕ
  pub series_number : ℕ
  pub series_count : ℕ
  pub planned_quantity : ℕ
  pub part_id : String
  pub requirement_id : String

-- `Math.max(1, Math.ceil(required / batchSize))`, for a batch size that is not 0. The quotient of
-- two integers below 2^53 has the ceiling of the exact one.
unfoldable pub series_count : ℕ → ℕ → ℕ
series_count required batch_size = max 1 ((required + (batch_size - 1)) / batch_size)

module _ (part_id requirement_id : String) (batch_size count : ℕ) where
  -- The loop over the series numbers: `slots` of them are left up to the count.
  unfoldable pub mint_series : ℕ → ℕ → ℕ → ℕ → List Tray
  mint_series zero series sequence left = []
  mint_series (suc slots) series sequence left =
      let quantity = min batch_size left in
      let rest = mint_series slots (suc series) (suc sequence) (left - quantity) in
      if left == 0
      then []
      else record {
        sequence = suc sequence;
        series_number = series;
        series_count = count;
        planned_quantity = quantity;
        part_id = part_id;
        requirement_id = requirement_id;
      }
        ∷ rest

unfoldable pub requirement_of : List Requirement → Part → Option Requirement
requirement_of requirements part = elim part.requirement_id [
  | none ↦ none
  | some id ↦ find (λ r. str_eq r.id id) requirements
]

module _ (r : PlanReads) (lot_id : String) (requirements : List Requirement) (batch_size : ℕ) where
  -- The series of one part, after `sequence` batches of the lot. The counts that the code reads for
  -- a part are not changed by the batches that it mints for another.
  unfoldable pub mint_part : ℕ → Part → List Tray
  mint_part sequence part = elim (requirement_of requirements part) [
    | none ↦ []
    | some requirement ↦
        let existing = r.batch_count lot_id part.id in
        let count = series_count requirement.required_quantity batch_size in
        let left = requirement.required_quantity - r.planned_sum lot_id part.id in
        mint_series part.id requirement.id batch_size count (count - existing) (suc existing)
          sequence left
  ]

  unfoldable pub mint_all : ℕ → List Part → List Tray
  mint_all sequence [] = []
  mint_all sequence (part ∷ parts) =
      let trays = mint_part sequence part in trays ++ mint_all (sequence + length trays) parts
