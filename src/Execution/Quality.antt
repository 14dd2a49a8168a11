-- ===== src/Execution/Quality.antt =====
-- `POST /quality-inspections` and `POST /quality-inspections/:inspectionId/decisions` of
-- app/pats/command-router.ts, with the stage scope of app/pats/quality-stage-scope.ts.
pub mod Laws
pub mod Scan
use Prim.Native.String.{◌++◌ as join}
use bnpi_pats_api.Base.{
  ℕ, String, Option, none, some, Bool, true, false, not, ◌||◌, List, [], ◌∷◌, ◌+◌, ◌==◌, includes,
  is_some, if◌then◌else◌,
}
use bnpi_pats_api.Base.Json.{Json, str, nat, field, end, object}
use bnpi_pats_api.Base.Decimal.{quoted}
use bnpi_pats_api.Command.Problem.{not_found, conflict, stale_version, not_allowed_stage}
use bnpi_pats_api.Command.Work.{Work, pure, ◌>>=◌, ◌>>◌, require, refuse_if, write}
use bnpi_pats_api.Command.Request.{Request, actor_id, require_if_match}
use bnpi_pats_api.Command.Audit.{Logged, row, record_command_success}
use bnpi_pats_api.Command.Idempotency.{CommandResponse}
use bnpi_pats_api.Execution.{
  Reads, Write, InspectionStatus, open_inspection, in_progress, completed, cancelled, Decision,
  passed, failed, hold, held, Inspection, inspection_create, inspection_update, decision_create,
  batch_status, is_passed,
}

-- `assertQualityStageAllowed`, on the stages of the subject's active assignments.
unfoldable pub assert_quality_stage_allowed :
    Reads → String → String → Work (Logged Write) (Unit {0})
assert_quality_stage_allowed r subject_id stage_id =
    refuse_if (not (includes (r.allowed_stages subject_id) stage_id)) not_allowed_stage

pub record InspectionBody : Type 0 where
  pub batch_id : String
  pub stage_id : String
  pub sub_stage_id : Option String
  pub section_id : Option String
  pub inspected_quantity : Option String
  pub quantity_uom : Option String
  pub evidence : Option Json

abbrev versioned : String → ℕ → List (String × String)
versioned location row_version = ("Location", location) ∷ ("ETag", quoted row_version) ∷ []

-- `fresh_id` is the id that the database gives to the new inspection, which is at version 1.
unfoldable pub create_inspection :
    Reads → Request → String → InspectionBody → Work (Logged Write) CommandResponse
unfolding assert_quality_stage_allowed record_command_success
create_inspection r req fresh_id body = do
  assert_quality_stage_allowed r (actor_id req) body.stage_id
  refuse_if (not (is_some (r.batch body.batch_id))) (not_found "The requested batch was not found.")
  write (
      row (
        inspection_create (record {
          id = fresh_id;
          batch_id = body.batch_id;
          stage_id = body.stage_id;
          sub_stage_id = body.sub_stage_id;
          section_id = body.section_id;
          inspected_quantity = body.inspected_quantity;
          quantity_uom = body.quantity_uom;
          status = open_inspection;
          inspected_by_subject_id = actor_id req;
          evidence = body.evidence;
        })))
  record_command_success req "QUALITY_INSPECTION_CREATED" "QualityInspection" fresh_id
      (field "batchId" (str body.batch_id) (field "stageId" (str body.stage_id) end))
  pure (record {
    status = 201;
    body = object (
        field "qualityInspectionId" (str fresh_id)
          (field "status" (str "OPEN") (field "rowVersion" (nat 1) end)));
    headers = versioned (join "/api/v1/quality-inspections/" fresh_id) 1;
  })

abbrev pub is_hold : Decision → Bool
is_hold hold = true
is_hold _ = false

abbrev decision_name : Decision → String
decision_name passed = "PASSED"
decision_name failed = "FAILED"
decision_name hold = "HOLD"

abbrev status_name : InspectionStatus → String
status_name open_inspection = "OPEN"
status_name in_progress = "IN_PROGRESS"
status_name completed = "COMPLETED"
status_name cancelled = "CANCELLED"

abbrev pub is_finished : InspectionStatus → Bool
is_finished completed = true
is_finished cancelled = true
is_finished _ = false

abbrev pub status_after : Decision → InspectionStatus
status_after d = if is_hold d then in_progress else completed

-- A verdict that is not PASSED quarantines the batch.
unfoldable pub quarantine : Inspection → Decision → Work (Logged Write) (Unit {0})
quarantine i d = if is_passed (some d) then pure tt else write (row (batch_status i.batch_id held))

-- `expected_version` is what `requireIfMatch` read, before the command claims its key.
unfoldable pub decide_inspection :
    Reads → Request → String → String → String → ℕ → Decision → Work (Logged Write) CommandResponse
unfolding assert_quality_stage_allowed quarantine record_command_success
decide_inspection r req fresh_id now inspection_id expected_version decision = do
  inspection ←
      require (r.inspection inspection_id)
        (not_found "The requested quality inspection was not found.")
  assert_quality_stage_allowed r (actor_id req) inspection.stage_id
  refuse_if (not (inspection.row_version == expected_version)) stale_version
  refuse_if (is_finished inspection.status)
      (conflict "This quality inspection has already been closed.")
  write (
      row (
        decision_create (record {
          id = fresh_id;
          inspection_id = inspection.id;
          decision = decision;
          decided_by_subject_id = actor_id req;
        })))
  write (
      row (
        inspection_update inspection.id (status_after decision)
          (if is_hold decision then none else some now)))
  quarantine inspection decision
  record_command_success req "QUALITY_DECISION_RECORDED" "QualityInspection" inspection.id (
      field "qualityDecisionId" (str fresh_id)
        (field "decision" (str (decision_name decision)) end))
  pure (record {
    status = 201;
    body = object (
        field "qualityDecisionId" (str fresh_id) (
          field "qualityInspectionId" (str inspection.id) (
            field "decision" (str (decision_name decision)) (
              field "inspectionStatus" (str (status_name (status_after decision)))
                (field "rowVersion" (nat (inspection.row_version + 1)) end)))));
    headers =
        versioned
          (join (join (join "/api/v1/quality-inspections/" inspection.id) "/decisions/") fresh_id)
          (inspection.row_version + 1);
  })
