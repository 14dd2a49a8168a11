-- ===== src/Planning/Draft/Overrides.antt =====
-- `PATCH /projects/:projectId/parts/:partId` of app/pats/command-router.ts: the designed cycle times
-- of a part that replace those of its snapshot.
use bnpi_pats_api.Base.{ℕ, String, [], ◌∷◌, Option, none, some, not, ◌+◌, ◌==◌}
use bnpi_pats_api.Base.Decimal.{quoted}
use bnpi_pats_api.Base.Json.{Json, null, nat, str, Fields, end, field, object}
use bnpi_pats_api.Command.Problem.{not_found, stale_version}
use bnpi_pats_api.Command.Work.{Work, pure, ◌>>=◌, ◌>>◌, require, refuse_if, write}
use bnpi_pats_api.Command.Request.{Request}
use bnpi_pats_api.Command.Audit.{Logged, row, record_command_success}
use bnpi_pats_api.Command.Idempotency.{CommandResponse}
use bnpi_pats_api.Planning.{Part}
use bnpi_pats_api.Planning.Draft.{
  DraftReads, DraftWrite, cycle_times_override, ensure_project_editable,
}

-- A part with the version of its row.
pub record VersionedPart : Type 0 where
  pub part : Part
  pub row_version : ℕ

-- The override map of the body, or null to fall back to the snapshot.
abbrev cycle_map : Option Fields → Json
cycle_map none = null
cycle_map (some times) = object times

-- `part` finds a part by its id in the project. `expected_version` is what `requireIfMatch` read.
unfoldable pub override_cycle_times :
    (String → String → Option VersionedPart)
    → DraftReads
    → Request
    → String
    → String
    → ℕ
    → Option Fields
    → Work (Logged DraftWrite) CommandResponse
unfolding ensure_project_editable record_command_success
override_cycle_times find_part r req target_id part_id expected_version times = do
  found ←
      require (find_part part_id target_id)
        (not_found "The requested project part was not found in this project.")
  project ← require (r.project target_id) (not_found "The owning production project was not found.")
  ensure_project_editable project
  refuse_if (not (found.row_version == expected_version)) stale_version
  write (row (cycle_times_override found.part.id (cycle_map times)))
  record_command_success req "PLAN_PART_CYCLE_TIME_OVERRIDDEN" "Part" found.part.id
      (field "projectId" (str target_id) (field "rowVersion" (nat (found.row_version + 1)) end))
  pure (record {
    status = 200;
    body = object (
        field "partId" (str found.part.id) (
          field "plannedCycleTimes" found.part.cycle_times
            (field "plannedCycleTimesOverride" (cycle_map times) end)));
    headers = ("ETag", quoted (found.row_version + 1)) ∷ [];
  })
