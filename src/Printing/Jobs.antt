-- ===== src/Printing/Jobs.antt =====
-- `recordPrintJob` of app/pats/print-job.ts and `POST /print-jobs` of app/pats/command-router.ts, on
-- the table of print jobs. `render` is `renderLabel`, `deliver` the delivery of the selected port.
pub mod Laws
use Prim.Native.String.{◌++◌ as join}
use bnpi_pats_api.Base.{
  ℕ, ◌+◌, String, List, [], ◌∷◌, ◌++◌, Option, none, some, Bool, true, false, not, ◌&&◌, ◌||◌, ◌==◌,
  str_eq, any, get_or, or_else, is_some, if◌then◌else◌,
}
use bnpi_pats_api.Base.Text
use bnpi_pats_api.Command.Problem.{Failure, problem_of, other_error, not_found}
use bnpi_pats_api.Command.Idempotency.{Outcome, returned, failed}
use bnpi_pats_api.Command.Request.{Request, actor_id, actor_display}
use bnpi_pats_api.Route.{RouteStep, next_step, truthy}
use bnpi_pats_api.Execution.{Batch, Magnitude, pieces, decimal, stage_of, sub_stage_of, step_of}
use bnpi_pats_api.Execution.Resolve.{ResolvedBatch, carried_quantity, label_quantity}
use bnpi_pats_api.Floor.{count}
use bnpi_pats_api.Printing.{Station, Environment}
use bnpi_pats_api.Printing.Label.{PrintJobBatch, PrintJobBody, LabelIr, build_label_ir, non_empty}
use bnpi_pats_api.Printing.Binding.{
  Binding, Port, select_print_port, resolve_printer_binding, trimmed,
}

pub data DeliveryStatus : Type 0 where
  sent simulated_delivery failed_delivery : DeliveryStatus

pub record PrintPortResult : Type 0 where
  pub status : DeliveryStatus
  pub failure_reason : Option String

pub record PrintJob : Type 0 where
  pub id : String
  pub batch_id : String
  pub section_id : String
  pub from_stage_id : String
  pub from_sub_stage_id : Option String
  pub to_stage_id : Option String
  pub to_sub_stage_id : Option String
  pub barcode_value : String
  pub quantity : Magnitude
  pub sequence : ℕ
  pub reprint_of : Option String
  pub language : String
  pub rendered_payload : String
  pub status : DeliveryStatus
  pub failure_reason : Option String
  pub actor : String
  pub actor_subject_id : String

-- What the command reads beside the print jobs, and what it calls.
pub record Desk : Type 0 where
  pub environment : Environment
  pub station : String → Option Station
  pub batch : String → Option PrintJobBatch
  pub routing_steps : String → String → List RouteStep
  pub stage_name : String → Option String
  pub sub_stage_name : String → Option String
  pub upper : String → String
  pub render : String → LabelIr → String
  pub deliver : Port → Option String → String → PrintPortResult

-- `[stage, sub?.name].filter(Boolean).join(" · ")`
abbrev join_names : Option String → Option String → String
join_names none none = ""
join_names none (some sub) = sub
join_names (some stage) none = stage
join_names (some stage) (some sub) = join stage (join " · " sub)

-- `stepLabel`
unfoldable pub step_label : Desk → Option String → Option String → String
step_label desk stage_id sub_stage_id = elim (truthy stage_id) [
  | none ↦ "—"
  | some stage ↦
      let name = get_or (desk.stage_name stage) stage in
      elim (truthy sub_stage_id) [
        | none ↦ name
        | some sub ↦ join_names (non_empty name) (truthy (desk.sub_stage_name sub))
      ]
]

abbrev pub step_stage : Option RouteStep → Option String
step_stage none = none
step_stage (some e) = some e.stage_id

abbrev step_sub_stage : Option RouteStep → Option String
step_sub_stage none = none
step_sub_stage (some e) = e.sub_stage_id

abbrev pub is_of : String → String → PrintJob → Bool
is_of batch_id section_id j = str_eq j.batch_id batch_id && str_eq j.section_id section_id

abbrev pub is_original : String → String → PrintJob → Bool
is_original id batch_id j = str_eq j.id id && str_eq j.batch_id batch_id

-- Whether a reprint names no print job of the batch.
unfoldable pub lacks_original : Option String → String → List PrintJob → Bool
lacks_original reprint_of batch_id jobs = elim (truthy reprint_of) [
  | none ↦ false
  | some original ↦ not (any (is_original original batch_id) jobs)
]

unfoldable pub label_quantity_of : PrintJobBatch → PrintJobBody → Magnitude
label_quantity_of b body =
    label_quantity body.reprint_of body.actual_quantity
      (carried_quantity b.found.magnitude b.found.batch.planned_quantity)

-- The step that the pack goes to.
abbrev pub next_of : Desk → PrintJobBatch → Option RouteStep
next_of desk b =
    next_step (desk.routing_steps b.found.batch.parts_list_id b.found.batch.part_id)
      (step_of b.found.batch)

-- The job of a batch at a station: the label rendered and delivered.
unfoldable pub printed :
    Desk
    → Request
    → String
    → String
    → PrintJobBody
    → Station
    → PrintJobBatch
    → List PrintJob
    → PrintJob
printed desk req now id body station b jobs =
    let batch = b.found.batch in
    let next = next_of desk b in
    let sequence = count (is_of batch.id station.id) jobs + 1 in
    let language = desk.upper (get_or station.printer_language "ZPL") in
    let binding = resolve_printer_binding desk.environment station in
    let from = step_label desk (some (stage_of batch)) (sub_stage_of batch) in
    let to = step_label desk (step_stage next) (step_sub_stage next) in
    let ir = build_label_ir b (label_quantity_of b body) from to body sequence binding now in
    let payload = desk.render language ir in
    let delivered = desk.deliver (select_print_port binding.connection) binding.address payload in
    record {
      id = id;
      batch_id = batch.id;
      section_id = station.id;
      from_stage_id = stage_of batch;
      from_sub_stage_id = sub_stage_of batch;
      to_stage_id = step_stage next;
      to_sub_stage_id = step_sub_stage next;
      barcode_value = b.found.barcode_value;
      quantity = ir.quantity;
      sequence = sequence;
      reprint_of = body.reprint_of;
      language = language;
      rendered_payload = payload;
      status = delivered.status;
      failure_reason = delivered.failure_reason;
      actor = actor_display req;
      actor_subject_id = actor_id req;
    }

abbrev zeros : String → Bool
zeros String.[] = true
zeros (String.◌∷◌ c s) = Text.starts_with "0" (String.◌∷◌ c String.[]) && zeros s

-- Whether a quantity is one that the integer column of the print job takes.
unfoldable pub is_whole : Magnitude → Bool
is_whole (pieces n) = true
is_whole (decimal String.[]) = true
is_whole (decimal (String.◌∷◌ c s)) =
    if Text.starts_with "." (String.◌∷◌ c s) then zeros s else is_whole (decimal s)

-- `recordPrintJob`
unfoldable pub record_print_job :
    Desk
    → Request
    → String
    → String
    → PrintJobBody
    → List PrintJob
    → Outcome (PrintJob × List PrintJob)
record_print_job desk req now id body jobs = elim (desk.station body.section_id) [
  | none ↦ failed (other_error "NOT_FOUND_STATION")
  | some station ↦ elim (desk.batch body.batch_id) [
    | none ↦ failed (other_error "NOT_FOUND_BATCH")
    | some b ↦
        let job = printed desk req now id body station b jobs in
        if lacks_original body.reprint_of b.found.batch.id jobs
        then failed (other_error "NOT_FOUND_REPRINT")
        else if not (is_whole job.quantity)
        then failed (other_error "Argument `quantity`: Invalid value provided.")
        else returned (job, jobs ++ job ∷ [])
  ]
]

-- What `POST /print-jobs` makes of the errors.
unfoldable pub print_problem : Failure → Failure
print_problem (other_error message) =
    if str_eq message "NOT_FOUND_STATION"
    then problem_of (not_found "The requested section was not found.")
    else if str_eq message "NOT_FOUND_BATCH"
    then problem_of (not_found "The requested batch was not found.")
    else if str_eq message "NOT_FOUND_REPRINT"
    then problem_of (not_found "The reprint source print job was not found for this batch.")
    else other_error message
print_problem failure = failure
