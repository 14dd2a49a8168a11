-- ===== src/Planning/Release/Completion.antt =====
-- The completion of a project.
use bnpi_pats_api.Base.{
  ℕ, String, List, [], ◌∷◌, some, true, false, ◌≡◌, ◌≢◌, ◌↔◌, refl, inl, inr, All, arith, ◌==◌,
  ==_iff,
}
use bnpi_pats_api.Command.Problem.{Failure}
use bnpi_pats_api.Command.Work.{done, thrown, Work-cases}
use bnpi_pats_api.Command.Request.{Request}
use bnpi_pats_api.Command.Audit.{Logged, record_command_success}
use bnpi_pats_api.Command.Idempotency.{CommandResponse}
use bnpi_pats_api.Planning.{Project, PlannedBatch, PlanReads, PlanWrite, is_released}
use bnpi_pats_api.Planning.Release.{is_nil, is_resolved, has_unresolved, complete_project}

none_unresolved :
    (bs : List PlannedBatch) → has_unresolved bs ≡ false → All (λ b. is_resolved b ≡ true) bs
unfolding has_unresolved
none_unresolved [] h = tt
none_unresolved (b ∷ bs) h = (ground arith, none_unresolved bs (ground arith))

every_resolved :
    (bs : List PlannedBatch) → All (λ b. is_resolved b ≡ true) bs → has_unresolved bs ≡ false
unfolding has_unresolved
every_resolved [] h = refl
every_resolved (b ∷ bs) (h, hs) = ground (arith, every_resolved bs hs)

module _ (r : PlanReads) (req : Request) (now target_id : String) (version : ℕ) {p : Project}
    (found : r.project target_id ≡ some p) where
  complete-inv :
      (ws : List (Logged PlanWrite)) (resp : CommandResponse)
      → complete_project r req now target_id version ≡ done ws resp
      → ((p.row_version == version) ≡ true)
        × (is_released p.status ≡ true)
        × (is_nil (r.batches p.id) ≡ false)
        × (has_unresolved (r.batches p.id) ≡ false)
  unfolding complete_project
  complete-inv ws resp ok = ground arith

  complete-not_thrown :
      (e : Failure)
      → (p.row_version == version) ≡ true
      → is_released p.status ≡ true
      → is_nil (r.batches p.id) ≡ false
      → has_unresolved (r.batches p.id) ≡ false
      → complete_project r req now target_id version ≢ thrown e
  unfolding complete_project record_command_success
  complete-not_thrown e current released some_batch resolved refused = ground arith

  -- A project that is found is completed exactly when it is at the version that the client read, is
  -- released, has a batch, and each of its batches was closed, or was scrapped by an analysis whose
  -- latest disposition is SCRAP.
  pub complete_iff :
      ((ws : List (Logged PlanWrite)) × (resp : CommandResponse) × (complete_project r req now
            target_id version
          ≡ done ws resp))
      ↔ ((p.row_version ≡ version)
          × (is_released p.status ≡ true)
          × (is_nil (r.batches p.id) ≡ false)
          × All (λ b. is_resolved b ≡ true) (r.batches p.id))
  complete_iff = (
    (λ completed.
        let (ws, resp, ok) = completed in
        let (current, released, some_batch, resolved) = complete-inv ws resp ok in
        (
          (==_iff p.row_version version).0 current,
          released,
          some_batch,
          none_unresolved (r.batches p.id) resolved,
        )),
    (λ h.
        let (current, released, some_batch, resolved) = h in
        elim (Work-cases (complete_project r req now target_id version)) [
          | inl returned ↦ returned
          | inr (e, refused) ↦ absurd (
              complete-not_thrown e ((==_iff p.row_version version).1 current) released some_batch
                (every_resolved (r.batches p.id) resolved) refused)
        ]),
  )
