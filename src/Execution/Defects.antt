-- ===== src/Execution/Defects.antt =====
-- `POST /defect-analyses` of app/pats/command-router.ts: production's disposition of a batch that
-- did not pass.
pub mod Laws
use Prim.Native.String.{◌++◌ as join}
use bnpi_pats_api.Base.{String, Option, none, some, Bool, true, false, ◌||◌, List, [], ◌∷◌}
use bnpi_pats_api.Base.Json.{str, nat, field, end, object}
use bnpi_pats_api.Base.Decimal.{quoted}
use bnpi_pats_api.Command.Problem.{not_found, conflict}
use bnpi_pats_api.Command.Work.{Work, pure, ◌>>=◌, ◌>>◌, require, refuse_if, write}
use bnpi_pats_api.Command.Request.{Request, actor_id}
use bnpi_pats_api.Command.Audit.{Logged, row, record_command_success}
use bnpi_pats_api.Command.Idempotency.{CommandResponse}
use bnpi_pats_api.Execution.{
  Reads, Write, Disposition, rework, scrap, waive, BatchStatus, planned, active, held, closed,
  scrapped, Decision, passed, analysis_create, batch_status, is_closed, is_scrapped,
}

pub record AnalysisBody : Type 0 where
  pub inspection_id : String
  pub reason_code : String
  pub reason_note : Option String
  pub disposition : Disposition

-- `!latest || latest.decision === "PASSED"`
abbrev pub not_defective : Option Decision → Bool
not_defective none = true
not_defective (some passed) = true
not_defective (some _) = false

abbrev pub status_of_disposition : Disposition → BatchStatus
status_of_disposition scrap = scrapped
status_of_disposition waive = active
status_of_disposition rework = held

abbrev disposition_name : Disposition → String
disposition_name rework = "REWORK"
disposition_name scrap = "SCRAP"
disposition_name waive = "WAIVE"

abbrev pub batch_status_name : BatchStatus → String
batch_status_name planned = "PLANNED"
batch_status_name active = "ACTIVE"
batch_status_name held = "HELD"
batch_status_name closed = "CLOSED"
batch_status_name scrapped = "SCRAPPED"

unfoldable pub analyse_defect :
    Reads → Request → String → AnalysisBody → Work (Logged Write) CommandResponse
unfolding record_command_success
analyse_defect r req fresh_id body = do
  inspection ←
      require (r.inspection body.inspection_id)
        (not_found "The requested quality inspection was not found.")
  refuse_if (not_defective inspection.latest_decision)
      (conflict "Defect analysis applies only to a non-passing QC verdict.")
  refuse_if (r.has_analysis inspection.id)
      (conflict "This inspection already has a defect analysis.")
  batch ← require (r.batch inspection.batch_id) (not_found "The inspected batch was not found.")
  refuse_if (is_closed batch.status || is_scrapped batch.status)
      (conflict "A terminal batch cannot take a new defect analysis.")
  write (
      row (
        analysis_create (record {
          id = fresh_id;
          inspection_id = inspection.id;
          batch_id = inspection.batch_id;
          reason_code = body.reason_code;
          reason_note = body.reason_note;
          disposition = body.disposition;
          decided_by_subject_id = actor_id req;
        })))
  let status = status_of_disposition body.disposition
  write (row (batch_status inspection.batch_id status))
  record_command_success req "DEFECT_ANALYSIS_RECORDED" "DefectAnalysis" fresh_id (
      field "inspectionId" (str inspection.id) (
        field "batchId" (str inspection.batch_id) (
          field "disposition" (str (disposition_name body.disposition))
            (field "batchStatus" (str (batch_status_name status)) end))))
  pure (record {
    status = 201;
    body = object (
        field "defectAnalysisId" (str fresh_id) (
          field "inspectionId" (str inspection.id) (
            field "batchId" (str inspection.batch_id) (
              field "disposition" (str (disposition_name body.disposition)) (
                field "batchStatus" (str (batch_status_name status))
                  (field "rowVersion" (nat 1) end))))));
    headers = ("Location", join "/api/v1/defect-analyses/" fresh_id) ∷ ("ETag", quoted 1) ∷ [];
  })
