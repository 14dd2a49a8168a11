-- ===== src/Planning/Release/Returns.antt =====
-- When a release returns, and what its writes leave.
use bnpi_pats_api.Base.{
  ℕ, String, List, [], ◌++◌, map, eq_refl, some, Bool, ◌+◌, ◌≡◌, refl, ◌∙◌, sym, ap, arith,
}
use bnpi_pats_api.Command.Work.{Work, done, ◌>>=◌, >>=-eq-done, pure_lem}
use bnpi_pats_api.Command.Request.{Request}
use bnpi_pats_api.Command.Audit.{Logged, record_command_success}
use bnpi_pats_api.Command.Idempotency.{CommandResponse}
use bnpi_pats_api.Planning.{Project, Lot, PlanReads, PlanWrite, BatchRow, released_project}
use bnpi_pats_api.Planning.Mint.Laws.{total_of}
use bnpi_pats_api.Planning.Release.{
  release_batch_size, minted_row, mint_writes, release_trays, release_gate, publish,
  release_project,
}
use bnpi_pats_api.Planning.Release.Laws.{gate-inv, gate-done}
use bnpi_pats_api.Planning.Release.Readiness.{
  IsReleasable, Passes-IsReleasable, IsReleasable-Passes,
}
use bnpi_pats_api.Planning.Release.Ledger.{
  project_after, rows_after, activated_row, project_after-mint_writes, rows_after-mint_writes,
}
use bnpi_pats_api.Planning.Release.Plans.{planned_in, planned_in-mint_writes}

-- The row of a project after its release.
abbrev pub published : Project → Project
published p = record p { status = released_project; row_version = p.row_version + 1 }

module _ (r : PlanReads) (locale_le : String → String → Bool) (req : Request)
    (batch_id : ℕ → String) (now target_id : String) (version : ℕ) where
  publish-done :
      (p : Project) (lot : Lot)
      → (rest : List (Logged PlanWrite)) × (resp : CommandResponse) × (publish r locale_le req
            batch_id now target_id version p lot
          ≡ done
              (mint_writes req lot
                  (release_batch_size (r.tray_standard p.id))
                  batch_id
                  (release_trays r locale_le req batch_id now target_id version p lot)
                ++ rest)
              resp)
        × ((id : String) → planned_in rest id ≡ 0)
        × (project_after rest p ≡ published p)
        × ((rows : List BatchRow)
            → rows_after r rest rows ≡ map (activated_row (r.lot_of p.id)) rows)
  unfolding publish record_command_success
  publish-done p lot = (_, _, refl, (λ id. refl), ground (arith, eq_refl p.id), λ rows. refl)

  release_project-found :
      {p : Project}
      → r.project target_id ≡ some p
      → release_project r locale_le req batch_id now target_id version ≡ (
          release_gate r locale_le req batch_id now target_id version p
          >>= publish r locale_le req batch_id now target_id version p)
  unfolding release_project
  release_project-found {p} found = rw found (
      pure_lem p (λ c.
        release_gate r locale_le req batch_id now target_id version c
        >>= publish r locale_le req batch_id now target_id version c))

  pub release-returns :
      {p : Project}
      → r.project target_id ≡ some p
      → IsReleasable r p version
      → (ws : List (Logged PlanWrite)) × (resp : CommandResponse) × (release_project r locale_le req
            batch_id now target_id version
          ≡ done ws resp)
  release-returns {p} found h =
      let passes = IsReleasable-Passes r p version h in
      let (rest, resp, writes, _, _, _) = publish-done p passes.lot in
      (
        _,
        resp,
        release_project-found found
            ∙ ap
                (λ (m : Work (Logged PlanWrite) Lot).
                  m >>= publish r locale_le req batch_id now target_id version p)
                (gate-done r locale_le req batch_id now target_id version found passes)
            ∙ pure_lem passes.lot (publish r locale_le req batch_id now target_id version p)
            ∙ writes,
      )

  -- The batches that the release of a project creates, as it leaves them.
  abbrev pub minted_by : Project → Lot → List BatchRow
  minted_by p lot = map (activated_row (r.lot_of p.id)) (
      map (minted_row req lot (release_batch_size (r.tray_standard p.id)) batch_id)
        (release_trays r locale_le req batch_id now target_id version p lot))

  -- A release that succeeded passed the gate, planned the trays of its mint and nothing else, wrote
  -- the project's row and left the batches of its mint.
  pub release-inv :
      {p : Project} (ws : List (Logged PlanWrite)) (resp : CommandResponse)
      → r.project target_id ≡ some p
      → release_project r locale_le req batch_id now target_id version ≡ done ws resp
      → (lot : Lot) × (r.lot_of p.id ≡ some lot)
        × IsReleasable r p version
        × ((id : String)
            → planned_in ws id
              ≡ total_of id (release_trays r locale_le req batch_id now target_id version p lot))
        × (project_after ws p ≡ published p)
        × (rows_after r ws [] ≡ minted_by p lot)
  release-inv {p} ws resp found ok =
      let (vs, lot, us, gate, published, joined) =
        >>=-eq-done (release_gate r locale_le req batch_id now target_id version p)
          (publish r locale_le req batch_id now target_id version p)
          (sym (release_project-found found) ∙ ok) in
      let (nothing, of_project, passes) =
        gate-inv r locale_le req batch_id now target_id version found vs lot gate in
      let (rest, answer, writes, unplanned, project_row, batch_rows) = publish-done p lot in
      let same : ws
          ≡ mint_writes req lot (release_batch_size (r.tray_standard p.id)) batch_id
              (release_trays r locale_le req batch_id now target_id version p lot)
            ++ rest =
        written vs us nothing joined (sym writes ∙ published) in
      (
        lot,
        of_project,
        Passes-IsReleasable r p version passes,
        (λ id.
            ap (λ (xs : List (Logged PlanWrite)). planned_in xs id) same
            ∙ planned_in-mint_writes req lot (release_batch_size (r.tray_standard p.id)) batch_id
                (release_trays r locale_le req batch_id now target_id version p lot) rest id
            ∙ no_more (unplanned id)),
        ap (λ (xs : List (Logged PlanWrite)). project_after xs p) same
            ∙ project_after-mint_writes r req lot (release_batch_size (r.tray_standard p.id))
                batch_id (release_trays r locale_le req batch_id now target_id version p lot) rest p
            ∙ project_row,
        ap (λ (xs : List (Logged PlanWrite)). rows_after r xs []) same
            ∙ rows_after-mint_writes r req lot (release_batch_size (r.tray_standard p.id)) batch_id
                (release_trays r locale_le req batch_id now target_id version p lot) rest []
            ∙ batch_rows _,
      )
    where
      written :
          (vs us : List (Logged PlanWrite)) {ws xs : List (Logged PlanWrite)}
          {a b : CommandResponse}
          → vs ≡ []
          → vs ++ us ≡ ws
          → done xs a ≡ done us b
          → ws ≡ xs
      written vs us e joined same = cc

      no_more : {a b : ℕ} → b ≡ 0 → a + b ≡ a
      no_more e = omega arith
