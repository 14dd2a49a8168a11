-- ===== src/Execution/Lifecycle/Tests.antt =====
-- A batch on the second of two steps, and the theorems on its commands.
use bnpi_pats_api.Base.{
  ℕ, String, List, [], ◌∷◌, Option, none, some, true, false, ◌≡◌, ◌≢◌, ◌↔◌, ◌⊎◌, inl, ◌<◌, refl,
  sym, ◌∙◌, neq_of_str_eq,
}
use bnpi_pats_api.Base.Json.{object, end}
use bnpi_pats_api.Command.Work.{Work, done, thrown}
use bnpi_pats_api.Command.Request.{
  Request, actor_id, actor_display, header_version, parse_if_match, digits_quote,
}
use bnpi_pats_api.Command.Audit.{Logged, record_command_success}
use bnpi_pats_api.Command.Idempotency.{CommandResponse}
use bnpi_pats_api.Route.{RouteStep, next_step, current_step, route_remains, of_part}
use bnpi_pats_api.Route.Progress.{HasKeys, remaining}
use bnpi_pats_api.Execution.{
  Batch, Reads, Write, Inspection, BatchStatus, active, held, closed, scrapped, in_progress,
  Decision, passed, failed, Disposition, scrap, waive, is_active, is_passed, verdict, step_of,
}
use bnpi_pats_api.Execution.Effects.{apply_all}
use bnpi_pats_api.Execution.StageEvent.{
  StageEventBody, Fresh, RouteContext, stage_event, batch_route_context, record_event, accept_event,
  block_event, pass_gate,
}
use bnpi_pats_api.Execution.StageEvent.Laws.{Scanned, stage_event-Scanned}
use bnpi_pats_api.Execution.Defects.{AnalysisBody, analyse_defect}
use bnpi_pats_api.Execution.Closure.{close_batch, inspection_at, is_nil}
use bnpi_pats_api.Execution.Closure.Laws.{finished, close_iff}
use bnpi_pats_api.Execution.Quality.{decide_inspection}
use bnpi_pats_api.Floor.{Floor, Line, database, ok}
use bnpi_pats_api.Floor.Lines.{unlined, delete_line}
use bnpi_pats_api.Floor.Lines.Laws.{after_delete, delete_line-found}
use bnpi_pats_api.Execution.Lifecycle.{
  Step, Change, scan, analyse, remove_line, relist, listed, here, next,
}
use bnpi_pats_api.Execution.Lifecycle.Refinement.{Step-Change}
use bnpi_pats_api.Execution.Lifecycle.Invariants.{IsPlaced, Reach-IsPlaced, Reach-eq_of_version}
use bnpi_pats_api.Execution.Lifecycle.Holds.{disposition_of, held-exit, decide-reopens}
use bnpi_pats_api.Execution.Lifecycle.Progress.{stage_event-progress}

abbrev step : String → String → ℕ → RouteStep
step id stage_id step_order = record {
  id = id;
  part_id = "P-1";
  stage_id = stage_id;
  sub_stage_id = none;
  step_order = step_order;
}

abbrev steps : List RouteStep
steps = step "R-1" "STG-INJECTION" 1 ∷ step "R-2" "STG-PAINTING" 2 ∷ []

abbrev batch_at : String → String → BatchStatus → Batch
batch_at stage_id step_id status = record {
  id = "B-1";
  batch_code = "LOT-L1-B001";
  lot_id = "L-1";
  line_id = none;
  parts_list_id = "PL-1";
  project_id = "PRJ-1";
  part_id = "P-1";
  planned_quantity = 200;
  current_stage_id = stage_id;
  current_sub_stage_id = none;
  status = status;
  row_version = 4;
  position =
      some (record { stage_id = stage_id; sub_stage_id = none; route_step_id = some step_id });
}

abbrev inspection : Option Decision → Inspection
inspection d = record {
  id = "QI-1";
  batch_id = "B-1";
  stage_id = "STG-INJECTION";
  sub_stage_id = none;
  status = in_progress;
  row_version = 2;
  latest_decision = d;
}

abbrev reads : Batch → Option Decision → Reads
reads b d = record {
  batch = λ id. some b;
  parts_list = λ id. some steps;
  routing_steps = λ list part. steps;
  newest_inspection = λ id stage sub_stage. some (inspection d);
  inspection = λ id. some (inspection d);
  allowed_stages = λ subject. "STG-INJECTION" ∷ [];
  has_analysis = λ id. false;
  violation = λ id. none;
  part_of_project = λ part project. true;
}

abbrev request : Request
request = record {
  canonical_subject =
      some (record { id = some "SUB-1"; display_name_snapshot = some "Line leader" });
  idempotency_key = some "key-1";
  if_match = some "\"2\"";
  correlation_id = none;
}

abbrev fresh : Fresh
fresh = record {
  event_id = "EV-1";
  violation_id = "RV-1";
  inventory_id = "IT-1";
  now = "2026-01-01";
}

abbrev painting_scan : StageEventBody
painting_scan = record {
  batch_id = "B-1";
  stage_id = "STG-PAINTING";
  sub_stage_id = none;
  part_id = none;
  event_type = "SCAN_IN";
  quantity = none;
  quantity_magnitude = none;
  quantity_uom = none;
  usage_basis = none;
  source_representation = none;
}

abbrev at_injection : BatchStatus → Batch
at_injection = batch_at "STG-INJECTION" "R-1"

-- The writes and the response of a command that Returns.
abbrev writes_of : Work (Logged Write) CommandResponse → List (Logged Write)
writes_of (done ws resp) = ws
writes_of (thrown e) = []

abbrev no_response : CommandResponse
no_response = record { status = 0; body = object end; headers = [] }

abbrev response_of : Work (Logged Write) CommandResponse → CommandResponse
response_of (done ws resp) = resp
response_of (thrown e) = no_response

abbrev Returns : Work (Logged Write) CommandResponse → Type 0
Returns m = m ≡ done (writes_of m) (response_of m)

abbrev scanned : Work (Logged Write) CommandResponse
scanned = stage_event (reads (at_injection active) (some passed)) request fresh painting_scan

scanned-Returns : Returns scanned
unfolding stage_event batch_route_context record_event accept_event block_event pass_gate next_step
    current_step record_command_success actor_id actor_display
scanned-Returns = refl

stage_event-Scanned_example :
    (c : RouteContext) × Scanned
      (reads (at_injection active) (some passed))
      painting_scan
      c
      (at_injection active)
      (apply_all (writes_of scanned) (at_injection active))
stage_event-Scanned_example =
    stage_event-Scanned (reads (at_injection active) (some passed)) request fresh painting_scan
      (writes_of scanned) (response_of scanned) refl scanned-Returns

abbrev scan_step : Step (at_injection active) (apply_all (writes_of scanned) (at_injection active))
scan_step =
    scan (reads (at_injection active) (some passed)) request fresh painting_scan (writes_of scanned)
      (response_of scanned) refl scanned-Returns refl

steps-HasKeys : HasKeys (of_part "P-1" steps)
steps-HasKeys = (refl, (neq_of_str_eq "R-2" "R-1" refl, tt), (refl, tt, tt))

stage_event-progress_example :
    let b' = apply_all (writes_of scanned) (at_injection active) in
    (b' ≡ at_injection active)
    ⊎ (remaining (of_part "P-1" steps) (step_of b') < remaining (of_part "P-1" steps) (some "R-1"))
stage_event-progress_example =
    stage_event-progress (reads (at_injection active) (some passed)) request fresh painting_scan
      (writes_of scanned) (response_of scanned) (at_injection active) steps refl refl steps-HasKeys
      scanned-Returns

Step-Change_example :
    Change (at_injection active) (apply_all (writes_of scanned) (at_injection active))
Step-Change_example = Step-Change scan_step

Reach-IsPlaced_example : IsPlaced (apply_all (writes_of scanned) (at_injection active))
Reach-IsPlaced_example = Reach-IsPlaced (record { placed = (refl, refl) }) (next here scan_step)

-- The batch on the line `L1`, which is disabled and has no operators, and the removal of the line.
abbrev on_line : Batch
on_line = record (at_injection active) { line_id = some "L1" }

abbrev line : Line
line = record {
  id = "L1";
  section_id = "S1";
  process_id = "P3";
  line_code = "L1";
  label = none;
  assigned_leader_id = "lead";
  active_leader_id = none;
  display_order = 0;
  is_enabled = false;
  row_version = 2;
}

abbrev floor : Floor
floor = record {
  production_lines = [];
  machines = [];
  sections = [];
  station_steps = [];
  processes = [];
  lines = line ∷ [];
  assignments = [];
  booths = [];
  daily_sheets = [];
  station_boards = [];
  print_jobs = [];
  batches = on_line ∷ [];
  stages = [];
  sub_stages = [];
  eligible = [];
  subjects = [];
  log = [];
}

request-version : header_version request.if_match ≡ some 2
unfolding parse_if_match digits_quote
request-version = refl

abbrev removal :
    (resp : CommandResponse) × (delete_line request "L1" (database floor)
      ≡ ok resp (database (after_delete request "L1" line floor)))
removal = delete_line-found request "L1" floor line refl request-version refl refl

remove_step : Step on_line (unlined on_line)
remove_step =
    remove_line request "L1" floor (after_delete request "L1" line floor) removal.0 removal.1 refl
      refl

Reach-eq_of_version_example :
    let after = listed (unlined on_line) "PL-2" in
    (after ≡ record on_line { line_id = none; parts_list_id = "PL-2" })
    × ((after.line_id ≡ on_line.line_id) ⊎ (after.line_id ≡ none))
Reach-eq_of_version_example =
    Reach-eq_of_version (λ e. cc) (next (next here remove_step) (relist "PL-2" refl)) refl

abbrev analysis : Disposition → AnalysisBody
analysis d = record {
  inspection_id = "QI-1";
  reason_code = "SCRATCH";
  reason_note = none;
  disposition = d;
}

abbrev waived_work : Work (Logged Write) CommandResponse
waived_work =
    analyse_defect (reads (at_injection held) (some failed)) request "DA-1" (analysis waive)

waived_work-Returns : Returns waived_work
unfolding analyse_defect record_command_success actor_id
waived_work-Returns = refl

abbrev waive_step : Step (at_injection held) (apply_all (writes_of waived_work) (at_injection held))
waive_step =
    analyse (reads (at_injection held) (some failed)) request "DA-1" (analysis waive)
      (inspection (some failed)) (writes_of waived_work) (response_of waived_work) refl refl refl
      waived_work-Returns refl

waived-status : (apply_all (writes_of waived_work) (at_injection held)).status ≡ active
unfolding analyse_defect record_command_success actor_id
waived-status = refl

waived-not_held : (apply_all (writes_of waived_work) (at_injection held)).status ≢ held
waived-not_held e = active_held (sym waived-status ∙ e)
  where
    active_held : active ≡ held → ⊥
    active_held e = cc

held-exit_example :
    let b' = apply_all (writes_of waived_work) (at_injection held) in
    ((disposition_of waive_step ≡ some scrap) × (b'.status ≡ scrapped))
    ⊎ ((disposition_of waive_step ≡ some waive) × (b'.status ≡ active))
held-exit_example = held-exit waive_step refl waived-not_held

failed_passed : failed ≢ passed
failed_passed e = cc

decide-reopens_example :
    (ws : List (Logged Write)) × (resp : CommandResponse) × (decide_inspection
        (reads (at_injection closed) (some passed))
        request
        "QD-1"
        "2026-01-01"
        "QI-1"
        2
        failed
      ≡ done ws resp)
    × ((apply_all ws (at_injection closed)).status ≡ held)
    × Step (at_injection closed) (apply_all ws (at_injection closed))
decide-reopens_example =
    decide-reopens {i = inspection (some passed)} (reads (at_injection closed) (some passed))
      request "QD-1" "2026-01-01" "QI-1" failed (inl refl) failed_passed refl refl refl refl

abbrev at_end : Batch
at_end = batch_at "STG-PAINTING" "R-2" active

close_iff_example :
    ((ws : List (Logged Write)) × (resp : CommandResponse) × (close_batch
          (reads at_end (some passed))
          request
          "B-1"
        ≡ done ws resp)
      × (apply_all ws at_end ≡ finished at_end))
    ↔ ((is_active active ≡ true)
        × (is_nil steps ≡ false)
        × (route_remains steps (some "R-2") ≡ false)
        × (is_passed (
              verdict (
                inspection_at (reads at_end (some passed)) "B-1" (current_step steps (some "R-2"))))
            ≡ true))
close_iff_example = close_iff (reads at_end (some passed)) request "B-1" {b = at_end} refl
