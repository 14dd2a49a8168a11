-- ===== src/Planning/Release/Tests.antt =====
-- A draft with one part of 500 pieces in trays of 200, and its release and completion.
use bnpi_pats_api.Base.{
  ℕ, String, List, [], ◌∷◌, map, none, some, Bool, true, ◌+◌, ◌*◌, ◌-◌, ◌≤◌, min, max, ◌≡◌, refl,
  inl, arith, length,
}
use bnpi_pats_api.Base.Json.{null, nat, object, field, end}
use bnpi_pats_api.Command.Work.{Work, done, thrown}
use bnpi_pats_api.Command.Request.{Request}
use bnpi_pats_api.Command.Audit.{Logged, record_command_success}
use bnpi_pats_api.Command.Idempotency.{CommandResponse}
use bnpi_pats_api.Route.{RouteStep}
use bnpi_pats_api.Execution.{closed, scrapped, scrap}
use bnpi_pats_api.Planning.{
  Project, ProjectStatus, draft_project, BatchRow, Requirement, Part, Lot, PlannedBatch, PlanReads,
  PlanWrite,
}
use bnpi_pats_api.Planning.CycleTimes.{
  step_cycle_time_value, resolve_step_cycle_time, misses_cycle_time, missing_cycle_times,
}
use bnpi_pats_api.Planning.Mint.{series_count, requirement_of, mint_part}
use bnpi_pats_api.Planning.Mint.Laws.{total, numbers_after}
use bnpi_pats_api.Planning.Mint.Coverage.{mint_part-total}
use bnpi_pats_api.Planning.Release.{
  batch_code, release_batch_size, release_gate, publish, release_project,
}
use bnpi_pats_api.Planning.Release.Plans.{planned_in}
use bnpi_pats_api.Planning.Release.Ledger.{rows_after}
use bnpi_pats_api.Planning.Release.Outcome.{release-numbers, release-covers}

abbrev project : ProjectStatus → Project
project status = record {
  id = "PRJ-1";
  project_code = "RX78";
  name = "Front armour";
  status = status;
  product_id = none;
  row_version = 3;
  completed_at = none;
  planned_start = none;
  planned_end = none;
}

abbrev part : Part
part = record {
  id = "P-1";
  part_code = "A-01";
  requirement_id = some "RQ-1";
  cycle_times = object (field "STG-INJECTION::" (nat 45) end);
  cycle_times_override = null;
}

abbrev requirement : Requirement
requirement = record { id = "RQ-1"; model_id = "M-1"; required_quantity = 500 }

abbrev injection : RouteStep
injection = record {
  id = "R-1";
  part_id = "P-1";
  stage_id = "STG-INJECTION";
  sub_stage_id = none;
  step_order = 1;
}

abbrev lot : Lot
lot = record { id = "L-1"; lot_code = "RX78-L1"; parts_list_id = "PL-1"; batch_count = 0 }

abbrev closed_batch : PlannedBatch
closed_batch = record { status = closed; latest_disposition = none }

abbrev scrapped_batch : PlannedBatch
scrapped_batch = record { status = scrapped; latest_disposition = some scrap }

abbrev reads : ProjectStatus → ℕ → ℕ → PlanReads
reads status batches pieces = record {
  project = λ id. some (project status);
  requirements = λ id. requirement ∷ [];
  parts = λ id. part ∷ [];
  lot_of = λ id. some lot;
  route_steps = λ id. injection ∷ [];
  tray_standard = λ id. some 200;
  batch_count = λ lot_id part_id. batches;
  planned_sum = λ lot_id part_id. pieces;
  batches = λ id. closed_batch ∷ scrapped_batch ∷ [];
}

abbrev request : Request
request = record {
  canonical_subject = none;
  idempotency_key = some "key-1";
  if_match = some "\"3\"";
  correlation_id = none;
}

abbrev before : String → String → Bool
before a b = true

abbrev batch_id : ℕ → String
batch_id n = "B"

abbrev draft_reads : PlanReads
draft_reads = reads draft_project 0 0

abbrev release_work : Work (Logged PlanWrite) CommandResponse
release_work = release_project draft_reads before request batch_id "2026-01-01" "PRJ-1" 3

abbrev writes_of : Work (Logged PlanWrite) CommandResponse → List (Logged PlanWrite)
writes_of (done ws resp) = ws
writes_of (thrown e) = []

abbrev no_response : CommandResponse
no_response = record { status = 0; body = object end; headers = [] }

abbrev response_of : Work (Logged PlanWrite) CommandResponse → CommandResponse
response_of (done ws resp) = resp
response_of (thrown e) = no_response

release_work-returns : release_work ≡ done (writes_of release_work) (response_of release_work)
unfolding release_project release_gate publish missing_cycle_times misses_cycle_time
    resolve_step_cycle_time step_cycle_time_value record_command_success
release_work-returns = refl

requirement_of-part : requirement_of (requirement ∷ []) part ≡ some requirement
unfolding requirement_of
requirement_of-part = refl

nothing_planned : 0 * release_batch_size (some 200) ≤ 0
nothing_planned = omega arith

release-covers_example : planned_in (writes_of release_work) "P-1" + 0 ≡ max 500 0
release-covers_example =
    release-covers draft_reads before request batch_id "2026-01-01" "PRJ-1" 3
      {p = project draft_project} (writes_of release_work) (response_of release_work) {lot = lot}
      part requirement refl release_work-returns refl (tt, tt) (inl refl) requirement_of-part
      nothing_planned

-- One batch of 50 pieces before the release: two trays of 200 follow it, and 50 pieces of the 500
-- are left unplanned.
mint_part-total_example :
    total (mint_part (reads draft_project 1 50) "L-1" (requirement ∷ []) 200 1 part)
    ≡ min (500 - 50) ((series_count 500 200 - 1) * 200)
mint_part-total_example =
    mint_part-total (reads draft_project 1 50) "L-1" (requirement ∷ []) 200 (omega arith) 1 part
      requirement requirement_of-part

release-numbers_example :
    let batches = rows_after draft_reads (writes_of release_work) [] in
    map (λ (b : BatchRow). b.batch_code) batches
    ≡ map (batch_code "RX78-L1") (numbers_after 0 (length batches))
release-numbers_example =
    release-numbers draft_reads before request batch_id "2026-01-01" "PRJ-1" 3
      {p = project draft_project} (writes_of release_work) (response_of release_work) {lot = lot}
      refl release_work-returns refl
