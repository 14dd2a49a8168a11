-- ===== src/Execution/Lifecycle.antt =====
-- The life of one batch: the commands that touch its row, as a step relation over whatever the
-- other queries of the transaction return, and the diagram of changes that they implement. One of
-- them is a command of the floor: the removal of the line that a batch is published to.
pub mod Refinement
pub mod Invariants
pub mod Holds
pub mod Progress
mod Tests
use bnpi_pats_api.Base.{ℕ, String, Option, some, none, Bool, false, true, List, ◌≡◌, ◌+◌}
use bnpi_pats_api.Command.Work.{done}
use bnpi_pats_api.Command.Request.{Request}
use bnpi_pats_api.Command.Audit.{Logged}
use bnpi_pats_api.Command.Idempotency.{CommandResponse}
use bnpi_pats_api.Route.{RouteStep}
use bnpi_pats_api.Execution.{
  Batch, Reads, Write, Inspection, Decision, Disposition, planned, active, closed, is_closed,
  is_scrapped, is_held, is_passed,
}
use bnpi_pats_api.Execution.Effects.{apply_all}
use bnpi_pats_api.Execution.StageEvent.{StageEventBody, Fresh, stage_event}
use bnpi_pats_api.Execution.StageEvent.Laws.{moved}
use bnpi_pats_api.Execution.Quality.{decide_inspection}
use bnpi_pats_api.Execution.Quality.Laws.{quarantined}
use bnpi_pats_api.Execution.Defects.{AnalysisBody, analyse_defect}
use bnpi_pats_api.Execution.Defects.Laws.{disposed}
use bnpi_pats_api.Execution.Closure.{close_batch}
use bnpi_pats_api.Execution.Closure.Laws.{finished}
use bnpi_pats_api.Floor.{Floor, database, ok, batch_of}
use bnpi_pats_api.Floor.Lines.{unlined, delete_line}

-- A project's release turns its planned batches active, in one `updateMany`.
abbrev pub activated : Batch → Batch
activated b = record b { status = active }

-- A command on the routes of a project gives its lot, and so each batch of the lot, another parts list.
-- Which, and when, is left open here.
abbrev pub listed : Batch → String → Batch
listed b list = record b { parts_list_id = list }

-- A command that succeeds, on the batch that its queries found.
pub data Step (b : Batch) : Batch → Type 0 where
  scan :
      {b' : Batch} (r : Reads) (req : Request) (fresh : Fresh) (body : StageEventBody)
      (ws : List (Logged Write)) (resp : CommandResponse)
      → r.batch body.batch_id ≡ some b
      → stage_event r req fresh body ≡ done ws resp
      → b' ≡ apply_all ws b
      → Step b b'
  decide :
      {b' : Batch} (r : Reads) (req : Request) (fresh_id now inspection_id : String) (version : ℕ)
      (d : Decision) (i : Inspection) (ws : List (Logged Write)) (resp : CommandResponse)
      → r.inspection inspection_id ≡ some i
      → i.batch_id ≡ b.id
      → decide_inspection r req fresh_id now inspection_id version d ≡ done ws resp
      → b' ≡ apply_all ws b
      → Step b b'
  analyse :
      {b' : Batch} (r : Reads) (req : Request) (fresh_id : String) (body : AnalysisBody)
      (i : Inspection) (ws : List (Logged Write)) (resp : CommandResponse)
      → r.inspection body.inspection_id ≡ some i
      → r.batch i.batch_id ≡ some b
      → i.batch_id ≡ b.id
      → analyse_defect r req fresh_id body ≡ done ws resp
      → b' ≡ apply_all ws b
      → Step b b'
  close :
      {b' : Batch} (r : Reads) (req : Request) (batch_id : String) (ws : List (Logged Write))
      (resp : CommandResponse)
      → r.batch batch_id ≡ some b
      → close_batch r req batch_id ≡ done ws resp
      → b' ≡ apply_all ws b
      → Step b b'
  release : {b' : Batch} → b.status ≡ planned → b' ≡ activated b → Step b b'
  remove_line :
      {b' : Batch} (req : Request) (line_id : String) (s t : Floor) (resp : CommandResponse)
      → delete_line req line_id (database s) ≡ ok resp (database t)
      → batch_of s.batches b.id ≡ some b
      → batch_of t.batches b.id ≡ some b'
      → Step b b'
  relist : {b' : Batch} (list : String) → b' ≡ listed b list → Step b b'

pub data Reach (b : Batch) : Batch → Type 0 where
  here : Reach b b
  next : {c d : Batch} → Reach b c → Step c d → Reach b d

-- The diagram: what a command may make of a batch, and from which status.
pub data Change (b : Batch) : Batch → Type 0 where
  stay : {b' : Batch} → b' ≡ b → Change b b'
  advance :
      {b' : Batch} (e : RouteStep) (body : StageEventBody)
      → is_closed b.status ≡ false
      → is_scrapped b.status ≡ false
      → is_held b.status ≡ false
      → b' ≡ moved b e body
      → Change b b'
  quarantine : {b' : Batch} → b' ≡ quarantined b → Change b b'
  dispose :
      {b' : Batch} (d : Disposition)
      → is_closed b.status ≡ false
      → is_scrapped b.status ≡ false
      → b' ≡ disposed b d
      → Change b b'
  finish : {b' : Batch} → b.status ≡ active → b' ≡ finished b → Change b b'
  activate : {b' : Batch} → b.status ≡ planned → b' ≡ activated b → Change b b'
  take_off : {b' : Batch} → b' ≡ unlined b → Change b b'
  list_again : {b' : Batch} (list : String) → b' ≡ listed b list → Change b b'
