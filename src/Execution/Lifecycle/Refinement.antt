-- ===== src/Execution/Lifecycle/Refinement.antt =====
-- The commands implement the diagram.
use bnpi_pats_api.Base.{
  String, List, Option, ap, str_eq, arith, some, true, ◌≡◌, ◌∙◌, inl, inr, Bool-cases,
  if◌then◌else◌, refl,
}
use bnpi_pats_api.Command.Request.{Request}
use bnpi_pats_api.Command.Idempotency.{CommandResponse}
use bnpi_pats_api.Floor.{Floor, database, ok, batch_of, update_many, find-update_many}
use bnpi_pats_api.Floor.Lines.{current_line, is_published_to, unlined, delete_line}
use bnpi_pats_api.Execution.{
  Batch, Reads, Decision, passed, failed, hold, BatchStatus, is_active, active, is_passed, planned,
  held, closed, scrapped,
}
use bnpi_pats_api.Execution.StageEvent.{StageEventBody, RouteContext, is_expected}
use bnpi_pats_api.Execution.StageEvent.Laws.{Scanned, stage_event-Scanned}
use bnpi_pats_api.Execution.Quality.Laws.{decide-effect, quarantined}
use bnpi_pats_api.Execution.Defects.Laws.{analyse-effect, analyse-guards}
use bnpi_pats_api.Execution.Closure.Laws.{close-effect, close-guards}
use bnpi_pats_api.Execution.Lifecycle.{
  Step, scan, decide, analyse, close, release, Change, stay, advance, quarantine, dispose, finish,
  activate, remove_line, take_off, relist, list_again,
}

is_active→active : (s : BatchStatus) → is_active s ≡ true → s ≡ active
is_active→active planned h = cc
is_active→active active h = refl
is_active→active held h = cc
is_active→active closed h = cc
is_active→active scrapped h = cc

scan-Change :
    {b b' : Batch} (r : Reads) (body : StageEventBody) (c : RouteContext) (after : Batch)
    → Scanned r body c b after
    → b' ≡ after
    → Change b b'
scan-Change {b} {b'} r body c after s made = elim (Bool-cases (is_expected c.expected body)) [
  | inl at_step ↦
      advance c.expected body s.not_closed s.not_scrapped s.not_held (made ∙ s.effect ∙ rw at_step)
  | inr elsewhere ↦ stay (made ∙ s.effect ∙ rw elsewhere)
]

decide-Change :
    {b b' : Batch} (d : Decision) (after : Batch)
    → after ≡ (if is_passed (some d) then b else quarantined b)
    → b' ≡ after
    → Change b b'
decide-Change passed after e made = stay (made ∙ e)
decide-Change failed after e made = quarantine (made ∙ e)
decide-Change hold after e made = quarantine (made ∙ e)

delete_line-batches :
    (req : Request) (line_id : String) (s t : Floor) (resp : CommandResponse)
    → delete_line req line_id (database s) ≡ ok resp (database t)
    → t.batches ≡ update_many (is_published_to line_id) unlined s.batches
unfolding delete_line current_line
delete_line-batches req line_id s t resp done = ground arith

removed-row :
    {b b' : Batch} (req : Request) (line_id : String) (s t : Floor) (resp : CommandResponse)
    → delete_line req line_id (database s) ≡ ok resp (database t)
    → batch_of s.batches b.id ≡ some b
    → batch_of t.batches b.id ≡ some b'
    → b' ≡ (if is_published_to line_id b then unlined b else b)
removed-row {b} {b'} req line_id s t resp done before after = same after (
    ap (λ (rows : List Batch). batch_of rows b.id) (delete_line-batches req line_id s t resp done)
    ∙ find-update_many (λ x. str_eq x.id b.id) (is_published_to line_id) unlined (λ x. refl)
        s.batches b before)
  where
    same : {o : Option Batch} {x y : Batch} → o ≡ some x → o ≡ some y → x ≡ y
    same e f = cc

-- The removal of a line leaves the status of every batch.
pub removed-status :
    {b b' : Batch} (req : Request) (line_id : String) (s t : Floor) (resp : CommandResponse)
    → delete_line req line_id (database s) ≡ ok resp (database t)
    → batch_of s.batches b.id ≡ some b
    → batch_of t.batches b.id ≡ some b'
    → b'.status ≡ b.status
removed-status {b} {b'} req line_id s t resp done before after =
    ground (arith, removed-row req line_id s t resp done before after)

removed-Change :
    {b b' : Batch} (req : Request) (line_id : String) (s t : Floor) (resp : CommandResponse)
    → delete_line req line_id (database s) ≡ ok resp (database t)
    → batch_of s.batches b.id ≡ some b
    → batch_of t.batches b.id ≡ some b'
    → Change b b'
removed-Change {b} {b'} req line_id s t resp done before after =
    elim (Bool-cases (is_published_to line_id b)) [
      | inl on ↦ take_off (removed-row req line_id s t resp done before after ∙ rw on refl)
      | inr off ↦ stay (removed-row req line_id s t resp done before after ∙ rw off refl)
    ]

-- Every command that succeeds on a batch makes a change that the diagram has.
pub Step-Change : {b b' : Batch} → Step b b' → Change b b'
Step-Change (scan r req fresh body ws resp found ran made) =
    let (c, s) = stage_event-Scanned r req fresh body ws resp found ran in
    scan-Change r body c _ s made
Step-Change {b} (decide r req fresh_id now inspection_id version d i ws resp found own ran made) =
    decide-Change d _
      (decide-effect r req fresh_id now inspection_id version d ws resp found ran b own) made
Step-Change (analyse r req fresh_id body i ws resp found batch own ran made) =
    let (_, _, not_closed, not_scrapped) =
      analyse-guards r req fresh_id body ws resp found batch ran in
    dispose body.disposition not_closed not_scrapped
      (made ∙ analyse-effect r req fresh_id body ws resp found batch ran own)
Step-Change {b} (close r req batch_id ws resp found ran made) =
    let (is, _, _) = close-guards r req batch_id ws resp found ran in
    finish (is_active→active b.status is) (made ∙ close-effect r req batch_id ws resp found ran)
Step-Change (release was made) = activate was made
Step-Change {b} {b'} (remove_line req line_id s t resp ran before after) =
    removed-Change req line_id s t resp ran before after
Step-Change (relist list made) = list_again list made
