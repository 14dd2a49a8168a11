-- ===== src/Execution/Defects/Laws.antt =====
-- What a defect analysis does to the inspected batch and when it is refused.
use bnpi_pats_api.Base.{String, some, false, ◌≡◌, arith, List, ◌+◌, eq_iff}
use bnpi_pats_api.Command.Work.{done}
use bnpi_pats_api.Command.Request.{Request}
use bnpi_pats_api.Command.Audit.{Logged}
use bnpi_pats_api.Command.Idempotency.{CommandResponse}
use bnpi_pats_api.Execution.{Batch, Reads, Write, Inspection, Disposition, is_closed, is_scrapped}
use bnpi_pats_api.Execution.Effects.{apply_all}
use bnpi_pats_api.Execution.Defects.{
  AnalysisBody, not_defective, status_of_disposition, analyse_defect,
}

-- A batch under a disposition.
abbrev pub disposed : Batch → Disposition → Batch
disposed b d = record b { status = status_of_disposition d; row_version = b.row_version + 1 }

module _ (r : Reads) (req : Request) (fresh_id : String) (body : AnalysisBody)
    (ws : List (Logged Write)) (resp : CommandResponse) {i : Inspection} {b : Batch}
    (found : r.inspection body.inspection_id ≡ some i) (batch : r.batch i.batch_id ≡ some b)
    (ok : analyse_defect r req fresh_id body ≡ done ws resp) where
  pub analyse-effect : i.batch_id ≡ b.id → apply_all ws b ≡ disposed b body.disposition
  unfolding analyse_defect
  analyse-effect own = ground (arith, eq_iff i.batch_id b.id)

  -- An analysis was recorded for an inspection whose latest verdict is there and is not PASSED,
  -- that had no analysis yet, and whose batch was not terminal.
  pub analyse-guards :
      (not_defective i.latest_decision ≡ false)
      × (r.has_analysis i.id ≡ false)
      × (is_closed b.status ≡ false)
      × (is_scrapped b.status ≡ false)
  unfolding analyse_defect
  analyse-guards = ground arith
