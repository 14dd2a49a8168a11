-- ===== src/Route/Tests.antt =====
-- A route of three steps, one of them shared by two stages, and the theorems on it.
use bnpi_pats_api.Base.{
  ℕ, String, List, [], ◌∷◌, none, some, ◌≡◌, ◌<◌, ◌≤◌, refl, arith, neq_of_str_eq,
}
use bnpi_pats_api.Route.{RouteStep, next_step, current_step}
use bnpi_pats_api.Route.Progress.{
  IsNext, IsOrdered, HasKeys, remaining, next_step-IsNext, remaining-advance,
}

abbrev step : String → String → ℕ → RouteStep
step id stage_id step_order = record {
  id = id;
  part_id = "P-1";
  stage_id = stage_id;
  sub_stage_id = none;
  step_order = step_order;
}

abbrev injection : RouteStep
injection = step "R-1" "STG-INJECTION" 1

abbrev painting : RouteStep
painting = step "R-2" "STG-PAINTING" 2

abbrev assembly : RouteStep
assembly = step "R-3" "STG-ASSEMBLY" 4

abbrev route : List RouteStep
route = injection ∷ painting ∷ assembly ∷ []

route-IsOrdered : IsOrdered route
route-IsOrdered = ((omega arith, (omega arith, tt)), ((omega arith, tt), (tt, tt)))

route-HasKeys : HasKeys route
route-HasKeys = (
  refl,
  (neq_of_str_eq "R-2" "R-1" refl, (neq_of_str_eq "R-3" "R-1" refl, tt)),
  (refl, (neq_of_str_eq "R-3" "R-2" refl, tt), (refl, tt, tt)),
)

route-next : next_step route (some "R-1") ≡ some painting
unfolding next_step current_step
route-next = refl

next_step-IsNext_example : IsNext route (current_step route (some "R-1")) painting
next_step-IsNext_example = next_step-IsNext route (some "R-1") painting route-IsOrdered route-next

remaining-advance_example : remaining route (some "R-2") < remaining route (some "R-1")
remaining-advance_example = remaining-advance route (some "R-1") painting route-HasKeys route-next

remaining_at_first : remaining route (some "R-1") ≤ 2
unfolding remaining current_step
remaining_at_first = omega arith
