-- ===== src/Execution/StageEvent.antt =====
-- `POST /stage-events` of app/pats/command-router.ts: a scan of a batch at a stage. A scan at the
-- expected step releases the batch or, further down the route, passes the quality gate of the step
-- that it leaves, and moves it; any other scan is recorded as a routing violation.
pub mod Laws
use Prim.Native.String.{◌++◌ as join}
use bnpi_pats_api.Base.{
  ℕ, String, Option, none, some, Bool, true, false, not, ◌&&◌, ◌||◌, List, [], ◌∷◌, str_eq, opt_eq,
  find, get_or, or_else, if◌then◌else◌,
}
use bnpi_pats_api.Base.Json.{null, str, field, end, object}
use bnpi_pats_api.Command.Problem.{not_found, conflict, other_error}
use bnpi_pats_api.Command.Work.{Work, thrown, pure, ◌>>=◌, ◌>>◌, require, refuse_if, write}
use bnpi_pats_api.Command.Request.{Request, actor_id, actor_display}
use bnpi_pats_api.Command.Audit.{Logged, row, record_command_success, opt_str}
use bnpi_pats_api.Command.Idempotency.{CommandResponse}
use bnpi_pats_api.Route.{RouteStep, next_step, of_part, has_id}
use bnpi_pats_api.Execution.{
  Batch, Position, Reads, Write, accepted, blocked, open_violation, issuance, accepted_transaction,
  pieces, is_closed, is_scrapped, is_held, is_passed, verdict, stage_of, sub_stage_of, step_of,
  Inspection, stage_event_create, inventory_create, batch_move, projection_update, violation_create,
}

pub record StageEventBody : Type 0 where
  pub batch_id : String
  pub stage_id : String
  pub sub_stage_id : Option String
  pub part_id : Option String
  pub event_type : String
  pub quantity : Option ℕ
  pub quantity_magnitude : Option String
  pub quantity_uom : Option String
  pub usage_basis : Option String
  pub source_representation : Option String

-- The ids that the database gives to the rows of this command, and the time.
pub record Fresh : Type 0 where
  pub event_id : String
  pub violation_id : String
  pub inventory_id : String
  pub now : String

pub record RouteContext : Type 0 where
  pub batch : Batch
  pub route_steps : List RouteStep
  pub expected : RouteStep

abbrev is_nil : List RouteStep → Bool
is_nil [] = true
is_nil (_ ∷ _) = false

unfoldable pub batch_route_context : Reads → String → Work (Logged Write) RouteContext
batch_route_context r batch_id = do
  batch ← require (r.batch batch_id) (not_found "The requested batch was not found.")
  steps ←
      require (r.parts_list batch.parts_list_id)
        (conflict "The batch does not have a readable published route version.")
  let route_steps = of_part batch.part_id steps
  refuse_if (is_nil route_steps)
      (conflict "The batch does not have an ordered route step for execution.")
  expected ←
      require (next_step route_steps (step_of batch))
        (conflict "The batch has no remaining forward route step.")
  pure (record { batch = batch; route_steps = route_steps; expected = expected })

-- The stage that a batch stands at before its route begins.
abbrev pub pre_route_stage : String
pre_route_stage = "STG-PROJECTS"

abbrev pub is_expected : RouteStep → StageEventBody → Bool
is_expected expected body =
    str_eq expected.stage_id body.stage_id && opt_eq expected.sub_stage_id body.sub_stage_id

-- `body.partId !== undefined && body.partId !== null && body.partId !== context.defaultPartId`
abbrev pub other_part : Option String → String → Bool
other_part none part_id = false
other_part (some p) part_id = not (str_eq p part_id)

-- The step that the batch leaves: the one of its position, else the one at its stage.
abbrev pub leaving_step : RouteContext → Option RouteStep
leaving_step c = or_else (find (has_id (step_of c.batch)) c.route_steps) (
    find (λ s. str_eq s.stage_id (stage_of c.batch) && opt_eq s.sub_stage_id (sub_stage_of c.batch))
      c.route_steps)

abbrev pub inspection_at : Reads → String → Option RouteStep → Option Inspection
inspection_at r batch_id none = none
inspection_at r batch_id (some s) = r.newest_inspection batch_id s.stage_id s.sub_stage_id

abbrev pub gate_passed : Reads → RouteContext → Bool
gate_passed r c = is_passed (verdict (inspection_at r c.batch.id (leaving_step c)))

module _ (r : Reads) (req : Request) (fresh : Fresh) (body : StageEventBody) where
  abbrev event_row : RouteContext → Bool → Write
  event_row c ok = stage_event_create (record {
    id = fresh.event_id;
    stage_id = body.stage_id;
    sub_stage_id = body.sub_stage_id;
    event_type = body.event_type;
    batch_id = body.batch_id;
    lot_id = c.batch.lot_id;
    part_id = c.batch.part_id;
    quantity = body.quantity;
    occurred_at = fresh.now;
    actor = actor_display req;
    is_routing_violation = not ok;
    status = if ok then accepted else blocked;
    route_step_id = if ok then some c.expected.id else none;
    actor_subject_id = actor_id req;
    quantity_magnitude = body.quantity_magnitude;
    quantity_uom = body.quantity_uom;
    usage_basis = body.usage_basis;
    source_representation = body.source_representation;
  })

  -- The ISSUANCE of a scan-out: `releaseQty` pieces, or the planned quantity.
  abbrev release : RouteContext → Write
  release c =
      let quantity = get_or body.quantity c.batch.planned_quantity in
      inventory_create (record {
        id = fresh.inventory_id;
        transaction_type = issuance;
        batch_id = c.batch.id;
        part_id = c.batch.part_id;
        lot_id = c.batch.lot_id;
        from_stage_id = some pre_route_stage;
        from_sub_stage_id = none;
        to_stage_id = c.expected.stage_id;
        to_sub_stage_id = c.expected.sub_stage_id;
        expected_quantity = quantity;
        actual_quantity = quantity;
        withdrawal_form_ref = none;
        recorded_at = fresh.now;
        recorded_by = actor_display req;
        recorded_by_subject_id = actor_id req;
        status = accepted_transaction;
        expected_quantity_magnitude = pieces quantity;
        actual_quantity_magnitude = pieces quantity;
        quantity_uom = some (get_or body.quantity_uom "EA");
        usage_basis = body.usage_basis;
      })

  -- The release of a batch before its route, the quality gate of one on its route.
  unfoldable pub pass_gate : RouteContext → Work (Logged Write) (Unit {0})
  unfolding actor_id actor_display
  pass_gate c =
      if str_eq (stage_of c.batch) pre_route_stage
      then write (row (release c))
      else refuse_if (not (gate_passed r c))
          (conflict "Receiving requires a passing QC verdict for this hop.")

  abbrev projection_write : RouteContext → Write
  projection_write c = projection_update c.batch.id (record {
    stage_id = body.stage_id;
    sub_stage_id = body.sub_stage_id;
    route_step_id = c.expected.id;
    last_event_id = fresh.event_id;
    position_status = accepted;
    quantity_magnitude = body.quantity_magnitude;
    quantity_uom = body.quantity_uom;
  })

  abbrev violation_write : RouteContext → Write
  violation_write c = violation_create (record {
    id = fresh.violation_id;
    stage_event_id = fresh.event_id;
    batch_id = c.batch.id;
    lot_id = c.batch.lot_id;
    part_id = c.batch.part_id;
    attempted_stage_id = body.stage_id;
    attempted_sub_stage_id = body.sub_stage_id;
    expected_steps = c.route_steps;
    detected_at = fresh.now;
    status = open_violation;
  })

  abbrev response : String → Option String → CommandResponse
  response status violation_id = record {
    status = 201;
    body = object (
        field "stageEventId" (str fresh.event_id)
          (field "status" (str status) (field "routingViolationId" (opt_str violation_id) end)));
    headers = ("Location", join "/api/v1/stage-events/" fresh.event_id) ∷ [];
  }

  -- The update of a projection that has no row throws.
  abbrev pub projection_row : Option Position → Work (Logged Write) (Unit {0})
  projection_row none = thrown (other_error "No record was found for an update.")
  projection_row (some p) = pure tt

  -- The writes for a scan at the expected step.
  unfoldable pub accept_event : RouteContext → Work (Logged Write) CommandResponse
  unfolding pass_gate record_command_success
  accept_event c = do
    pass_gate c
    write (row (batch_move c.batch.id body.stage_id body.sub_stage_id))
    projection_row c.batch.position
    write (row (projection_write c))
    record_command_success req "STAGE_EVENT_ACCEPTED" "StageEvent" fresh.event_id (
        field "batchId" (str body.batch_id)
          (field "status" (str "ACCEPTED") (field "routingViolationId" null end)))
    pure (response "ACCEPTED" none)

  -- The writes for a scan anywhere else.
  unfoldable pub block_event : RouteContext → Work (Logged Write) CommandResponse
  unfolding record_command_success
  block_event c = do
    write (row (violation_write c))
    record_command_success req "ROUTING_VIOLATION_DETECTED" "StageEvent" fresh.event_id (
        field "batchId" (str body.batch_id) (
          field "status" (str "BLOCKED") (field "routingViolationId" (str fresh.violation_id) end)))
    pure (response "BLOCKED" (some fresh.violation_id))

  unfoldable pub record_event : RouteContext → Work (Logged Write) CommandResponse
  unfolding accept_event block_event actor_id actor_display
  record_event c = do
    refuse_if (is_closed c.batch.status || is_scrapped c.batch.status)
        (conflict "A terminal batch cannot take another scan.")
    refuse_if (is_held c.batch.status)
        (conflict "This pack is quarantined awaiting its production defect analysis.")
    refuse_if (other_part body.part_id c.batch.part_id)
        (conflict "A stage event Part must match the Batch's assigned Project Part.")
    let ok = is_expected c.expected body
    write (row (event_row c ok))
    if ok then accept_event c else block_event c

  unfoldable pub stage_event : Work (Logged Write) CommandResponse
  stage_event = do context ← batch_route_context r body.batch_id; record_event context
