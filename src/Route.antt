-- ===== src/Route.antt =====
-- The route of a part: the ordered steps of its parts list, and the step that a batch is expected
-- at next. The code finds it in three places that agree: `nextExpectedRouteStep` of
-- app/pats/batch-resolve.ts, `batchRouteContext` of app/pats/command-router.ts and
-- `recordPrintJob` of app/pats/print-job.ts.
pub mod Progress
mod Tests
use bnpi_pats_api.Base.{
  ℕ, String, List, [], ◌∷◌, Option, none, some, Bool, true, false, not, ◌&&◌, ltb, str_eq, find,
  any, keep, if◌then◌else◌,
}
use bnpi_pats_api.Base.Text

pub record RouteStep : Type 0 where
  pub id : String
  pub part_id : String
  pub stage_id : String
  pub sub_stage_id : Option String
  pub step_order : ℕ

-- `step.id === id` where `id` may be missing.
abbrev pub has_id : Option String → RouteStep → Bool
has_id none s = false
has_id (some id) s = str_eq s.id id

-- `id ? … : …` on an id that may be missing: the empty text counts as missing.
abbrev pub truthy : Option String → Option String
truthy none = none
truthy (some id) = if Text.is_empty id then none else some id

-- `steps[currentIndex]`, where an index of -1 stands for no step.
unfoldable pub current_step : List RouteStep → Option String → Option RouteStep
current_step steps current = find (has_id (truthy current)) steps

-- `step.stepOrder > threshold`, with the threshold -1 where there is no current step.
abbrev pub past : Option RouteStep → RouteStep → Bool
past none s = true
past (some c) s = ltb c.step_order s.step_order

-- The expected step: the first whose order passes the current step's.
unfoldable pub next_step : List RouteStep → Option String → Option RouteStep
unfolding current_step
next_step steps current = find (past (current_step steps current)) steps

-- `steps.some((step) => step.stepOrder > threshold)`
unfoldable pub route_remains : List RouteStep → Option String → Bool
unfolding current_step
route_remains steps current = any (past (current_step steps current)) steps

-- `routeComplete` of a resolved batch.
abbrev no_step : Option RouteStep → Bool
no_step none = true
no_step (some _) = false

abbrev pub is_nil : List RouteStep → Bool
is_nil [] = true
is_nil (_ ∷ _) = false

unfoldable pub route_complete : List RouteStep → Option String → Bool
unfolding next_step
route_complete steps current = no_step (next_step steps current) && not (is_nil steps)

-- The steps of one part of a parts list, in the list's order.
abbrev pub of_part : String → List RouteStep → List RouteStep
of_part part_id steps = keep (λ s. str_eq s.part_id part_id) steps
