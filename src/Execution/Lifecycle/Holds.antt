-- ===== src/Execution/Lifecycle/Holds.antt =====
-- How a batch leaves quarantine and the terminal statuses.
use bnpi_pats_api.Base.{
  String, List, Option, some, none, false, true, ◌≡◌, ◌≢◌, refl, ap, arith, ◌∙◌, ◌⊎◌, inl, inr,
  includes, if◌then◌else◌,
}
use bnpi_pats_api.Command.Work.{done, Work-cases}
use bnpi_pats_api.Command.Audit.{Logged}
use bnpi_pats_api.Command.Idempotency.{CommandResponse}
use bnpi_pats_api.Command.Request.{Request, actor_id}
use bnpi_pats_api.Execution.{
  Batch, active, held, closed, scrapped, Disposition, rework, scrap, waive, Decision, passed,
  failed, hold, is_passed, Reads, Write, Inspection,
}
use bnpi_pats_api.Execution.Effects.{apply_all}
use bnpi_pats_api.Execution.StageEvent.Laws.{stage_event-Scanned}
use bnpi_pats_api.Execution.Quality.{decide_inspection, is_finished}
use bnpi_pats_api.Execution.Quality.Laws.{quarantined, decide-effect}
use bnpi_pats_api.Execution.Defects.Laws.{disposed, analyse-effect}
use bnpi_pats_api.Execution.Closure.Laws.{close-guards}
use bnpi_pats_api.Execution.Lifecycle.{
  Step, scan, decide, analyse, close, release, remove_line, relist,
}
use bnpi_pats_api.Execution.Lifecycle.Refinement.{removed-status}

-- The disposition of a step that is a defect analysis.
abbrev pub disposition_of : {b b' : Batch} → Step b b' → Option Disposition
disposition_of (analyse r req fresh_id body i ws resp found batch own ok made) =
    some body.disposition
disposition_of _ = none

decide-stays_held :
    (b : Batch) {b' after : Batch} (d : Decision)
    → after ≡ (if is_passed (some d) then b else quarantined b)
    → b' ≡ after
    → b.status ≡ held
    → b'.status ≡ held
decide-stays_held b passed e made was = rw (made ∙ e) was
decide-stays_held b failed e made was = rw (made ∙ e)
decide-stays_held b hold e made was = rw (made ∙ e)

disposed-exit :
    (b : Batch) {b' : Batch} (d : Disposition)
    → b' ≡ disposed b d
    → b'.status ≢ held
    → ((some d ≡ some scrap) × (b'.status ≡ scrapped))
      ⊎ ((some d ≡ some waive) × (b'.status ≡ active))
disposed-exit b rework made left = absurd (left (rw made))
disposed-exit b scrap made left = inl (refl, rw made)
disposed-exit b waive made left = inr (refl, rw made)

-- A held batch leaves quarantine only by a defect analysis that scraps or waives it: no scan, no
-- verdict, not even PASSED, and no closing lifts the hold, nor does the disposition REWORK.
pub held-exit :
    {b b' : Batch} (st : Step b b')
    → b.status ≡ held
    → b'.status ≢ held
    → ((disposition_of st ≡ some scrap) × (b'.status ≡ scrapped))
      ⊎ ((disposition_of st ≡ some waive) × (b'.status ≡ active))
held-exit {b} {b'} (scan r req fresh body ws resp found ok made) was left =
    let (c, s) = stage_event-Scanned r req fresh body ws resp found ok in
    absurd (ground (arith, s.not_held))
held-exit {b} {b'} (decide r req fresh_id now inspection_id version d i ws resp found own ok made)
      was left =
    absurd (
      left (
        decide-stays_held b d
          (decide-effect r req fresh_id now inspection_id version d ws resp found ok b own) made
          was))
held-exit {b} {b'} (analyse r req fresh_id body i ws resp found batch own ok made) was left =
    disposed-exit b body.disposition
      (made ∙ analyse-effect r req fresh_id body ws resp found batch ok own) left
held-exit {b} {b'} (close r req batch_id ws resp found ok made) was left =
    absurd (ground (arith, close-guards r req batch_id ws resp found ok))
held-exit (release begun made) was left = absurd (ground arith)
held-exit {b} {b'} (remove_line req line_id s t resp ok before after) was left =
    absurd (left (removed-status req line_id s t resp ok before after ∙ was))
held-exit (relist list made) was left = absurd (left (ap (λ (x : Batch). x.status) made ∙ was))

not_passed-quarantined :
    (b : Batch) (d : Decision)
    → d ≢ passed
    → (if is_passed (some d) then b else quarantined b) ≡ quarantined b
not_passed-quarantined b passed h = absurd (h refl)
not_passed-quarantined b failed h = refl
not_passed-quarantined b hold h = refl

-- A verdict asks nothing of the batch: one that is not PASSED, by a subject of the stage, at the
-- version of an inspection that is not finished, returns on a closed or scrapped batch, and its writes
-- turn the batch back to HELD, as a step of the batch's life.
pub decide-reopens :
    {b : Batch} {i : Inspection} (r : Reads) (req : Request) (fresh_id now inspection_id : String)
    (d : Decision)
    → (b.status ≡ closed) ⊎ (b.status ≡ scrapped)
    → d ≢ passed
    → r.inspection inspection_id ≡ some i
    → i.batch_id ≡ b.id
    → is_finished i.status ≡ false
    → includes (r.allowed_stages (actor_id req)) i.stage_id ≡ true
    → (ws : List (Logged Write)) × (resp : CommandResponse) × (decide_inspection r req fresh_id now
          inspection_id i.row_version d
        ≡ done ws resp)
      × ((apply_all ws b).status ≡ held)
      × Step b (apply_all ws b)
unfolding decide_inspection
decide-reopens {b} {i} r req fresh_id now inspection_id d terminal defective found own unfinished
      allowed =
    elim (Work-cases (decide_inspection r req fresh_id now inspection_id i.row_version d)) [
      | inl (ws, resp, ok) ↦
          let effect : apply_all ws b ≡ quarantined b =
            decide-effect r req fresh_id now inspection_id i.row_version d ws resp found ok b own
            ∙ not_passed-quarantined b d defective in
          (
            ws,
            resp,
            ok,
            ap (λ (x : Batch). x.status) effect,
            decide r req fresh_id now inspection_id i.row_version d i ws resp found own ok refl,
          )
      | inr (e, refused) ↦ absurd (ground arith)
    ]
