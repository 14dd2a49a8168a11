-- ===== src/Planning/Release/Ledger.antt =====
-- What the writes of a release leave: of the project's row, and of the batches that they create.
use mathlib.Core.List.{append-nil, append_assoc}
use bnpi_pats_api.Base.{
  ℕ, suc, String, List, [], ◌∷◌, ◌++◌, map, Option, none, some, Bool, true, false, ◌&&◌, ◌≡◌, refl,
  str_eq, ap, ◌∙◌, sym, length, if◌then◌else◌, arith, All, Bool-cases, inl, inr, ◌+◌, eq_refl,
}
use bnpi_pats_api.Command.Request.{Request}
use bnpi_pats_api.Command.Audit.{Logged, row, audit_record, outbox_message}
use bnpi_pats_api.Execution.{BatchStatus, planned, active}
use bnpi_pats_api.Planning.{
  Project, Lot, PlanReads, PlanWrite, BatchRow, batch_create, project_release, project_complete,
  batches_activate, released_project, completed_project,
}
use bnpi_pats_api.Planning.Mint.{Tray}
use bnpi_pats_api.Planning.Release.{batch_code, minted_row, mint_writes}

-- The project's row after a write: a release and a completion set its status and count its version.
abbrev pub project_step : PlanWrite → Project → Project
project_step (project_release id now actor) p =
    if str_eq p.id id
    then record p { status = released_project; row_version = p.row_version + 1 }
    else p
project_step (project_complete id now actor) p =
    if str_eq p.id id
    then record p {
      status = completed_project;
      row_version = p.row_version + 1;
      completed_at = some now;
    }
    else p
project_step _ p = p

abbrev pub project_after : List (Logged PlanWrite) → Project → Project
project_after [] p = p
project_after (row w ∷ ws) p = project_after ws (project_step w p)
project_after (audit_record _ ∷ ws) p = project_after ws p
project_after (outbox_message _ ∷ ws) p = project_after ws p

abbrev pub is_planned : BatchStatus → Bool
is_planned planned = true
is_planned _ = false

-- `where: { lot: { projectId }, status: "PLANNED" }`, for the lot of the project.
abbrev pub activated_row : Option Lot → BatchRow → BatchRow
activated_row none b = b
activated_row (some lot) b =
    if str_eq b.lot_id lot.id && is_planned b.status then record b { status = active } else b

-- The batches after a write.
abbrev pub rows_step : PlanReads → PlanWrite → List BatchRow → List BatchRow
rows_step r (batch_create b) rows = rows ++ b ∷ []
rows_step r (batches_activate id) rows = map (activated_row (r.lot_of id)) rows
rows_step r _ rows = rows

abbrev pub rows_after : PlanReads → List (Logged PlanWrite) → List BatchRow → List BatchRow
rows_after r [] rows = rows
rows_after r (row w ∷ ws) rows = rows_after r ws (rows_step r w rows)
rows_after r (audit_record _ ∷ ws) rows = rows_after r ws rows
rows_after r (outbox_message _ ∷ ws) rows = rows_after r ws rows

module _ (r : PlanReads) (req : Request) (lot : Lot) (batch_size : ℕ) (batch_id : ℕ → String) where
  pub project_after-mint_writes :
      (ts : List Tray) (rest : List (Logged PlanWrite)) (p : Project)
      → project_after (mint_writes req lot batch_size batch_id ts ++ rest) p ≡ project_after rest p
  unfolding mint_writes
  project_after-mint_writes [] rest p = refl
  project_after-mint_writes (t ∷ ts) rest p = project_after-mint_writes ts rest p

  pub rows_after-mint_writes :
      (ts : List Tray) (rest : List (Logged PlanWrite)) (rows : List BatchRow)
      → rows_after r (mint_writes req lot batch_size batch_id ts ++ rest) rows
        ≡ rows_after r rest (rows ++ map (minted_row req lot batch_size batch_id) ts)
  unfolding mint_writes
  rows_after-mint_writes [] rest rows = ap (rows_after r rest) (sym (append-nil rows))
  rows_after-mint_writes (t ∷ ts) rest rows =
      rows_after-mint_writes ts rest (rows ++ minted_row req lot batch_size batch_id t ∷ [])
      ∙ ap (rows_after r rest) (
          append_assoc rows (minted_row req lot batch_size batch_id t ∷ [])
            (map (minted_row req lot batch_size batch_id) ts))

  -- The minted batches are of the lot and planned, so the activation turns each active.
  pub activated-active :
      (ts : List Tray)
      → All
          (λ (b : BatchRow). b.status ≡ active)
          (map (activated_row (some lot)) (map (minted_row req lot batch_size batch_id) ts))
  activated-active [] = tt
  activated-active (t ∷ ts) = (ground (arith, eq_refl lot.id), activated-active ts)

pub activated-codes :
    (o : Option Lot) (rows : List BatchRow)
    → map (λ (b : BatchRow). b.batch_code) (map (activated_row o) rows)
      ≡ map (λ (b : BatchRow). b.batch_code) rows
activated-codes o [] = refl
activated-codes none (b ∷ rows) =
    ap (λ (xs : List String). b.batch_code ∷ xs) (activated-codes none rows)
activated-codes (some lot) (b ∷ rows) =
    elim (Bool-cases (str_eq b.lot_id lot.id && is_planned b.status)) [
      | inl own ↦
          rw own (ap (λ (xs : List String). b.batch_code ∷ xs) (activated-codes (some lot) rows))
      | inr other ↦
          rw other (ap (λ (xs : List String). b.batch_code ∷ xs) (activated-codes (some lot) rows))
    ]

-- The length and the codes of the batches that a mint creates.
pub minted-codes :
    (req : Request) (lot : Lot) (batch_size : ℕ) (batch_id : ℕ → String) (ts : List Tray)
    → map (λ (b : BatchRow). b.batch_code) (map (minted_row req lot batch_size batch_id) ts)
      ≡ map (batch_code lot.lot_code) (map (λ (t : Tray). t.sequence) ts)
minted-codes req lot batch_size batch_id [] = refl
minted-codes req lot batch_size batch_id (t ∷ ts) =
    ap (λ (xs : List String). batch_code lot.lot_code t.sequence ∷ xs)
      (minted-codes req lot batch_size batch_id ts)

pub length-minted :
    (req : Request) (lot : Lot) (batch_size : ℕ) (batch_id : ℕ → String) (ts : List Tray)
    (o : Option Lot)
    → length (map (activated_row o) (map (minted_row req lot batch_size batch_id) ts)) ≡ length ts
length-minted req lot batch_size batch_id [] o = refl
length-minted req lot batch_size batch_id (t ∷ ts) o =
    ap (λ (n : ℕ). suc n) (length-minted req lot batch_size batch_id ts o)
