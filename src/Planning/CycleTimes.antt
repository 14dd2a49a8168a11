-- ===== src/Planning/CycleTimes.antt =====
-- The designed cycle time of a part at a step: `stepCycleTimeValue`, `resolveStepCycleTime` and the
-- release gate of app/pats/command-router.ts.
use Prim.Native.String.{◌++◌ as join}
use bnpi_pats_api.Base.{
  ℕ, String, List, Option, none, some, Bool, not, ◌&&◌, leb, any, keep, get_or, or_else, is_some,
  if◌then◌else◌,
}
use bnpi_pats_api.Base.Json.{Json, nat, object, member}
use bnpi_pats_api.Route.{RouteStep, of_part}
use bnpi_pats_api.Planning.{Part}

abbrev maximum_seconds : ℕ
maximum_seconds = 86400

-- `typeof value === "number" && Number.isInteger(value) && value >= 1 && value <= 86400`
abbrev pub cycle_time_value : Option Json → Option ℕ
cycle_time_value (some (nat n)) = if leb 1 n && leb n maximum_seconds then some n else none
cycle_time_value _ = none

unfoldable pub step_cycle_time_value : Json → String → Option String → Option ℕ
step_cycle_time_value (object fields) stage_id sub_stage_id =
    cycle_time_value (member (join (join stage_id "::") (get_or sub_stage_id "")) fields)
step_cycle_time_value _ stage_id sub_stage_id = none

-- The override wins, then the snapshot.
unfoldable pub resolve_step_cycle_time : Part → String → Option String → Option ℕ
resolve_step_cycle_time part stage_id sub_stage_id =
    or_else (step_cycle_time_value part.cycle_times_override stage_id sub_stage_id)
      (step_cycle_time_value part.cycle_times stage_id sub_stage_id)

-- A part with a route step that has no designed time.
unfoldable pub misses_cycle_time : List RouteStep → Part → Bool
misses_cycle_time route part =
    any (λ s. not (is_some (resolve_step_cycle_time part s.stage_id s.sub_stage_id)))
      (of_part part.id route)

unfoldable pub missing_cycle_times : List RouteStep → List Part → List Part
missing_cycle_times route parts = keep (misses_cycle_time route) parts
