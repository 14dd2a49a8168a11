-- ===== src/Planning/Draft/Removal.antt =====
-- `DELETE /projects/:projectId` and `DELETE /projects/:projectId/parts/:partId` of
-- app/pats/command-router.ts. What they delete follows the order of the foreign keys.
pub mod Laws
use bnpi_pats_api.Base.{
  ℕ, String, List, [], ◌∷◌, Option, none, some, Bool, true, false, not, ◌&&◌, ◌+◌, ◌==◌, ltb,
  is_some, if◌then◌else◌,
}
use bnpi_pats_api.Base.Json.{null, str, nat, field, end, object}
use bnpi_pats_api.Command.Problem.{not_found, conflict, stale_version}
use bnpi_pats_api.Command.Work.{Work, pure, ◌>>=◌, ◌>>◌, require, refuse_if, write}
use bnpi_pats_api.Command.Request.{Request}
use bnpi_pats_api.Command.Audit.{Logged, row, record_command_success}
use bnpi_pats_api.Command.Idempotency.{CommandResponse}
use bnpi_pats_api.Planning.{Project}
use bnpi_pats_api.Planning.Response.{resource_headers}
use bnpi_pats_api.Planning.Draft.{
  DraftReads, DraftWrite, editable_project, is_draft, routing_steps_delete,
  routing_steps_of_part_delete, parts_lists_of_ids_delete, parts_delete, requirements_delete,
  specifications_delete, workflow_groups_delete, change_logs_delete, allocations_delete,
  part_delete, lot_delete, project_delete, project_touch,
}

-- `If-Match` is optional here: a version that was read must be the current one.
abbrev pub is_stale : Option ℕ → Project → Bool
is_stale none p = false
is_stale (some version) p = not (p.row_version == version)

-- The lot goes first, unless it has batches.
unfoldable pub remove_lot : DraftReads → Option String → Work (Logged DraftWrite) (Unit {0})
remove_lot r none = pure tt
remove_lot r (some lot_id) = do
  refuse_if (ltb 0 (r.batches_of_lot lot_id)) (conflict "Projects with batches cannot be deleted.")
  write (row (lot_delete lot_id))

unfoldable pub remove_parts_lists : List String → Work (Logged DraftWrite) (Unit {0})
remove_parts_lists [] = pure tt
remove_parts_lists (id ∷ ids) = do
  write (row (routing_steps_delete (id ∷ ids)))
  write (row (parts_lists_of_ids_delete (id ∷ ids)))

unfoldable pub delete_project :
    DraftReads → Request → String → Option ℕ → Work (Logged DraftWrite) CommandResponse
unfolding remove_parts_lists record_command_success
delete_project r req target_id expected_version = do
  current ← require (r.project target_id) (not_found "The requested project was not found.")
  refuse_if (is_stale expected_version current) stale_version
  refuse_if (not (is_draft current.status))
      (conflict "Released or completed projects cannot be deleted.")
  remove_lot r (r.lot_of current.id)
  remove_parts_lists (r.parts_lists current.id)
  write (row (parts_delete current.id))
  write (row (requirements_delete current.id))
  write (row (specifications_delete current.id))
  write (row (workflow_groups_delete current.id))
  write (row (change_logs_delete current.id))
  write (row (project_delete current.id))
  record_command_success req "PROJECT_DRAFT_DELETED" "Project" current.id
      (field "projectCode" (str current.project_code) (field "name" (str current.name) end))
  pure (record { status = 204; body = null; headers = [] })

unfoldable pub remove_part :
    DraftReads → Request → String → String → ℕ → Work (Logged DraftWrite) CommandResponse
unfolding record_command_success
remove_part r req target_id part_id expected_version = do
  project ← editable_project r target_id expected_version
  part ←
      require (r.part part_id target_id)
        (not_found "The requested project part was not found in this project.")
  refuse_if (ltb 0 (r.batches_of_part part.id)) (conflict "Parts with batches cannot be removed.")
  write (row (routing_steps_of_part_delete part.id))
  write (row (allocations_delete part.id))
  write (row (part_delete part.id))
  write (row (project_touch project.id))
  record_command_success req "PROJECT_PART_REMOVED" "Part" part.id
      (field "projectId" (str target_id) (field "partCode" (str part.part_code) end))
  pure (record {
    status = 200;
    body = object (
        field "partId" (str part.id)
          (field "projectRowVersion" (nat (project.row_version + 1)) end));
    headers = resource_headers project.id (project.row_version + 1);
  })
