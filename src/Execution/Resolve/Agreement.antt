-- ===== src/Execution/Resolve/Agreement.antt =====
-- What the lookup of a code shows is what a scan of the batch expects.
use bnpi_pats_api.Base.{String, List, [], Option, none, some, true, ◌≡◌, refl, arith, ap, ◌∙◌, sym}
use bnpi_pats_api.Command.Problem.{problem_of, conflict}
use bnpi_pats_api.Command.Work.{done, thrown}
use bnpi_pats_api.Command.Idempotency.{returned}
use bnpi_pats_api.Route.{RouteStep, next_step, route_complete, of_part}
use bnpi_pats_api.Execution.{Batch, Reads, step_of}
use bnpi_pats_api.Execution.StageEvent.{batch_route_context}
use bnpi_pats_api.Execution.Resolve.{ResolvedBatch, ResolveBody, resolve_batch_by_code}

next_step-nil : (current : Option String) → next_step [] current ≡ none
unfolding next_step
next_step-nil current = refl

pub context-expects :
    (r : Reads) (b : Batch) (steps : List RouteStep) (e : RouteStep)
    → r.batch b.id ≡ some b
    → r.parts_list b.parts_list_id ≡ some steps
    → next_step (of_part b.part_id steps) (step_of b) ≡ some e
    → batch_route_context r b.id
      ≡ done [] (record { batch = b; route_steps = of_part b.part_id steps; expected = e })
unfolding batch_route_context
context-expects r b steps e found listed expects = ground (arith, next_step-nil (step_of b))

pub context-ended :
    (r : Reads) (b : Batch) (steps : List RouteStep)
    → r.batch b.id ≡ some b
    → r.parts_list b.parts_list_id ≡ some steps
    → route_complete (of_part b.part_id steps) (step_of b) ≡ true
    → batch_route_context r b.id
      ≡ thrown (problem_of (conflict "The batch has no remaining forward route step."))
unfolding batch_route_context route_complete
context-ended r b steps found listed complete = ground arith

resolved_step :
    (find_batch : String → Option ResolvedBatch) (routing_steps : String → String → List RouteStep)
    (scanned : String) {found : ResolvedBatch} {body : ResolveBody}
    → find_batch scanned ≡ some found
    → resolve_batch_by_code find_batch routing_steps scanned ≡ returned body
    → let b = found.batch in
      let steps = routing_steps b.parts_list_id b.part_id in
      (next_step steps (step_of b) ≡ body.next_expected_step)
      × (route_complete steps (step_of b) ≡ body.is_route_complete)
unfolding resolve_batch_by_code
resolved_step find_batch routing_steps scanned is_found resolved = (ground arith, ground arith)

-- A code that resolves to a batch: if the answer has a next expected step, a scan of the batch runs
-- in a context that expects that step; if it says that the route is complete, a scan is refused as
-- having no step left. The lookup's query of the steps returns those of the batch's part in the
-- parts list that the scan reads.
pub resolve_batch_by_code-agrees :
    (r : Reads) (find_batch : String → Option ResolvedBatch)
    (routing_steps : String → String → List RouteStep) (scanned : String) {found : ResolvedBatch}
    {body : ResolveBody} {steps : List RouteStep}
    → find_batch scanned ≡ some found
    → resolve_batch_by_code find_batch routing_steps scanned ≡ returned body
    → r.batch found.batch.id ≡ some found.batch
    → r.parts_list found.batch.parts_list_id ≡ some steps
    → routing_steps found.batch.parts_list_id found.batch.part_id
      ≡ of_part found.batch.part_id steps
    → ((e : RouteStep)
        → body.next_expected_step ≡ some e
        → batch_route_context r found.batch.id
          ≡ done [] (record {
            batch = found.batch;
            route_steps = of_part found.batch.part_id steps;
            expected = e;
          }))
      × (body.is_route_complete ≡ true
          → batch_route_context r found.batch.id
            ≡ thrown (problem_of (conflict "The batch has no remaining forward route step.")))
resolve_batch_by_code-agrees r find_batch routing_steps scanned {found} {body} {steps} is_found
      resolved stored listed same =
    let (shows, completes) = resolved_step find_batch routing_steps scanned is_found resolved in
    (
      (λ e shown. context-expects r found.batch steps e stored listed (
          ap (λ (xs : List RouteStep). next_step xs (step_of found.batch)) (sym same)
          ∙ shows
          ∙ shown)),
      (λ complete. context-ended r found.batch steps stored listed (
          ap (λ (xs : List RouteStep). route_complete xs (step_of found.batch)) (sym same)
          ∙ completes
          ∙ complete)),
    )
