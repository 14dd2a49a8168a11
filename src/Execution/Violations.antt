-- ===== src/Execution/Violations.antt =====
-- `POST /routing-violations/:violationId/resolve` of app/pats/command-router.ts.
use bnpi_pats_api.Base.{String, Bool, true, false, []}
use bnpi_pats_api.Base.Json.{str, field, end, object}
use bnpi_pats_api.Command.Problem.{not_found, conflict}
use bnpi_pats_api.Command.Work.{Work, pure, ◌>>=◌, ◌>>◌, require, refuse_if, write}
use bnpi_pats_api.Command.Request.{Request, actor_id, actor_display}
use bnpi_pats_api.Command.Audit.{Logged, row, record_command_success}
use bnpi_pats_api.Command.Idempotency.{CommandResponse}
use bnpi_pats_api.Execution.{Reads, Write, ViolationStatus, resolved, waived, violation_resolve}

abbrev pub is_settled : ViolationStatus → Bool
is_settled resolved = true
is_settled waived = true
is_settled _ = false

unfoldable pub resolve_violation :
    Reads → Request → String → String → String → Work (Logged Write) CommandResponse
unfolding record_command_success actor_display
resolve_violation r req now violation_id resolution_note = do
  violation ←
      require (r.violation violation_id)
        (not_found "The requested routing violation was not found.")
  refuse_if (is_settled violation.status) (conflict "This routing violation is already closed.")
  write
      (row (violation_resolve violation.id now (actor_display req) (actor_id req) resolution_note))
  record_command_success req "ROUTING_VIOLATION_RESOLVED" "RoutingViolation" violation.id
      (field "batchId" (str violation.batch_id) end)
  pure (record {
    status = 200;
    body = object (
        field "routingViolationId" (str violation.id)
          (field "status" (str "RESOLVED") (field "resolvedAt" (str now) end)));
    headers = [];
  })
