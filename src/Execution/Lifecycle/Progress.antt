-- ===== src/Execution/Lifecycle/Progress.antt =====
-- Scans follow the route: each leaves the batch where it is or brings it nearer to its end.
use bnpi_pats_api.Base.{Option, some, ◌≡◌, ◌<◌, ◌∙◌, ◌⊎◌, inl, inr, List, Bool-cases}
use bnpi_pats_api.Command.Work.{done}
use bnpi_pats_api.Command.Request.{Request}
use bnpi_pats_api.Command.Audit.{Logged}
use bnpi_pats_api.Command.Idempotency.{CommandResponse}
use bnpi_pats_api.Route.{RouteStep, next_step, of_part}
use bnpi_pats_api.Route.Progress.{HasKeys, remaining, remaining-advance}
use bnpi_pats_api.Execution.{Batch, Reads, Write, step_of}
use bnpi_pats_api.Execution.Effects.{apply_all}
use bnpi_pats_api.Execution.StageEvent.{StageEventBody, Fresh, is_expected, stage_event}
use bnpi_pats_api.Execution.StageEvent.Laws.{moved, stage_event-Scanned}

-- A recorded scan of a batch either leaves it alone or leaves strictly fewer steps of its part's
-- route past it; the keys of the route's steps differ.
pub stage_event-progress :
    (r : Reads) (req : Request) (fresh : Fresh) (body : StageEventBody) (ws : List (Logged Write))
    (resp : CommandResponse) (b : Batch) (steps : List RouteStep)
    → r.batch body.batch_id ≡ some b
    → r.parts_list b.parts_list_id ≡ some steps
    → HasKeys (of_part b.part_id steps)
    → stage_event r req fresh body ≡ done ws resp
    → let route = of_part b.part_id steps in
      let b' = apply_all ws b in
      (b' ≡ b) ⊎ (remaining route (step_of b') < remaining route (step_of b))
stage_event-progress r req fresh body ws resp b steps found listed keys ok =
    let (c, s) = stage_event-Scanned r req fresh body ws resp found ok in
    let same : s.steps ≡ steps = same_steps s.listed listed in
    let expects : next_step (of_part b.part_id steps) (step_of b) ≡ some c.expected =
      rw (← same) s.expects in
    elim (Bool-cases (is_expected c.expected body)) [
      | inr elsewhere ↦ inl (s.effect ∙ rw elsewhere)
      | inl at_step ↦
          let arrived : apply_all ws b ≡ moved b c.expected body = s.effect ∙ rw at_step in
          inr (
            rw arrived
              (remaining-advance (of_part b.part_id steps) (step_of b) c.expected keys expects))
    ]
  where
    same_steps :
        {o : Option (List RouteStep)} {a b : List RouteStep} → o ≡ some a → o ≡ some b → a ≡ b
    same_steps p q = cc
