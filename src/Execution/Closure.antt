-- ===== src/Execution/Closure.antt =====
-- `POST /batches/:batchId/closure` of app/pats/command-router.ts: production closes a batch into
-- Finish Goods.
pub mod Laws
use Prim.Native.String.{◌++◌ as join}
use bnpi_pats_api.Base.{
  String, Option, none, some, Bool, true, false, not, ◌||◌, List, [], ◌∷◌, ◌+◌,
}
use bnpi_pats_api.Base.Json.{str, nat, field, end, object}
use bnpi_pats_api.Command.Problem.{not_found, conflict}
use bnpi_pats_api.Command.Work.{Work, pure, ◌>>=◌, ◌>>◌, require, refuse_if, write}
use bnpi_pats_api.Command.Request.{Request}
use bnpi_pats_api.Command.Audit.{Logged, row, record_command_success}
use bnpi_pats_api.Command.Idempotency.{CommandResponse}
use bnpi_pats_api.Route.{RouteStep, current_step, route_remains}
use bnpi_pats_api.Execution.{
  Reads, Write, Batch, Inspection, closed, batch_status, is_closed, is_scrapped, is_active,
  is_passed, verdict, step_of,
}

abbrev pub is_nil : List RouteStep → Bool
is_nil [] = true
is_nil (_ ∷ _) = false

-- The newest inspection at a step that may be missing.
abbrev pub inspection_at : Reads → String → Option RouteStep → Option Inspection
inspection_at r batch_id none = none
inspection_at r batch_id (some s) = r.newest_inspection batch_id s.stage_id s.sub_stage_id

unfoldable pub close_batch : Reads → Request → String → Work (Logged Write) CommandResponse
unfolding record_command_success
close_batch r req batch_id = do
  batch ← require (r.batch batch_id) (not_found "The requested batch was not found.")
  refuse_if (is_closed batch.status || is_scrapped batch.status)
      (conflict "A terminal batch cannot be closed again.")
  refuse_if (not (is_active batch.status))
      (conflict "Only an active batch can be closed into Finish Goods.")
  let steps = r.routing_steps batch.parts_list_id batch.part_id
  refuse_if (is_nil steps) (conflict "The batch does not have an ordered route step for execution.")
  refuse_if (route_remains steps (step_of batch))
      (conflict "The batch has not completed its route.")
  refuse_if
      (not (is_passed (verdict (inspection_at r batch.id (current_step steps (step_of batch))))))
      (conflict "Closing requires a passing QC verdict for the final hop.")
  write (row (batch_status batch.id closed))
  record_command_success req "BATCH_CLOSED" "Batch" batch.id
      (field "lotId" (str batch.lot_id) (field "batchCode" (str batch.batch_code) end))
  pure (record {
    status = 201;
    body = object (
        field "batchId" (str batch.id)
          (field "status" (str "CLOSED") (field "rowVersion" (nat (batch.row_version + 1)) end)));
    headers = ("Location", join (join "/api/v1/batches/" batch.id) "/closure") ∷ [];
  })
