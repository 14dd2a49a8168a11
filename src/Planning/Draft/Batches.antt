-- ===== src/Planning/Draft/Batches.antt =====
-- `POST /batches` of app/pats/command-router.ts: a batch that a planner adds to a lot by hand.
use Prim.Native.String.{◌++◌ as join}
use bnpi_pats_api.Base.{ℕ, String, [], ◌∷◌, Option, none, some, Bool, false, not, ◌&&◌}
use bnpi_pats_api.Base.Text
use bnpi_pats_api.Base.Json.{str, nat, field, end, object}
use bnpi_pats_api.Base.Decimal.{decimal, quoted}
use bnpi_pats_api.Command.Problem.{not_found}
use bnpi_pats_api.Command.Work.{Work, pure, ◌>>=◌, ◌>>◌, require, refuse_if, write}
use bnpi_pats_api.Command.Request.{Request, actor_id}
use bnpi_pats_api.Command.Audit.{Logged, row, record_command_success}
use bnpi_pats_api.Command.Idempotency.{CommandResponse}
use bnpi_pats_api.Execution.{planned}
use bnpi_pats_api.Planning.Draft.{DraftReads, DraftWrite, batch_create, position_create}

pub record BatchBody : Type 0 where
  pub batch_code : String
  pub barcode_value : String
  pub lot_id : String
  pub part_id : String
  pub line_id : Option String
  pub planned_quantity : ℕ
  pub label_pack_size : ℕ
  pub current_stage_id : String
  pub current_sub_stage_id : Option String

-- `body.lineId` is set and names no line.
abbrev unknown_line : DraftReads → Option String → Bool
unknown_line r none = false
unknown_line r (some id) = not (Text.is_empty id) && not (r.line id)

unfoldable pub create_batch :
    DraftReads → Request → String → BatchBody → Work (Logged DraftWrite) CommandResponse
unfolding record_command_success
create_batch r req fresh_id body = do
  project_id ← require (r.lot_project body.lot_id) (not_found "The requested lot was not found.")
  refuse_if (unknown_line r body.line_id) (not_found "The requested production line was not found.")
  part ←
      require (r.part body.part_id project_id)
        (not_found "The batch part must belong to the lot's project.")
  write (
      row (
        batch_create (record {
          id = fresh_id;
          batch_code = body.batch_code;
          barcode_value = body.barcode_value;
          lot_id = body.lot_id;
          line_id = body.line_id;
          planned_quantity = body.planned_quantity;
          label_pack_size = body.label_pack_size;
          requirement_id = part.requirement_id;
          series_number = none;
          series_count = none;
          part_id = part.id;
          current_stage_id = body.current_stage_id;
          current_sub_stage_id = body.current_sub_stage_id;
          status = planned;
          created_by_subject_id = actor_id req;
        })))
  write (
      row (
        position_create (record {
          batch_id = fresh_id;
          stage_id = body.current_stage_id;
          sub_stage_id = body.current_sub_stage_id;
          quantity_magnitude = decimal body.planned_quantity;
          quantity_uom = "EA";
        })))
  record_command_success req "BATCH_CREATED" "Batch" fresh_id
      (field "lotId" (str body.lot_id) (field "batchCode" (str body.batch_code) end))
  pure (record {
    status = 201;
    body = object (
        field "batchId" (str fresh_id) (
          field "batchCode" (str body.batch_code) (
            field "barcodeValue" (str body.barcode_value)
              (field "status" (str "PLANNED") (field "rowVersion" (nat 1) end)))));
    headers = ("Location", join "/api/v1/batches/" fresh_id) ∷ ("ETag", quoted 1) ∷ [];
  })
