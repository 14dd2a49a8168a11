-- ===== src/Planning/Draft/Edits.antt =====
-- `PATCH /projects/:projectId` without a status, and the planned window of a project
-- (app/pats/command-router.ts). The comparison and the canonical text of dates are `Date`'s: the
-- argument `Calendar`.
pub mod Laws
use bnpi_pats_api.Base.{
  ℕ, String, List, Option, none, some, Bool, true, false, not, ◌&&◌, ◌+◌, ◌==◌, is_some, get_or,
  if◌then◌else◌,
}
use bnpi_pats_api.Base.Text
use bnpi_pats_api.Base.Json.{nat, field, end}
use bnpi_pats_api.Command.Problem.{not_found, conflict, stale_version, malformed}
use bnpi_pats_api.Command.Work.{Work, pure, ◌>>=◌, ◌>>◌, require, refuse_if, write}
use bnpi_pats_api.Command.Request.{Request}
use bnpi_pats_api.Command.Audit.{Logged, row, record_command_success}
use bnpi_pats_api.Command.Idempotency.{CommandResponse}
use bnpi_pats_api.Planning.{Project}
use bnpi_pats_api.Planning.Response.{project_response, resource_headers}
use bnpi_pats_api.Planning.Draft.{
  DraftReads, DraftWrite, specification_tray, lot_label_pack_size, lot_name, project_edit,
  editable_project,
}

-- `new Date(a) < new Date(b)`, and `new Date(a).toISOString()`.
pub record Calendar : Type 0 where
  pub earlier : String → String → Bool
  pub iso : String → String

-- `!value` on a text that may be missing.
abbrev pub is_unset : Option String → Bool
is_unset none = true
is_unset (some s) = Text.is_empty s

-- The test of `requireOrderedPlannedWindow` that refuses.
unfoldable pub inverted_window : Calendar → Option String → Option String → Bool
inverted_window c none finish = false
inverted_window c (some start) none = false
inverted_window c (some start) (some finish) =
    not (Text.is_empty start) && not (Text.is_empty finish) && c.earlier finish start

unfoldable pub require_ordered_window :
    Calendar → Option String → Option String → Work (Logged DraftWrite) (Unit {0})
require_ordered_window c start finish =
    refuse_if (inverted_window c start finish)
      (malformed "plannedEndDate must not be earlier than plannedStartDate.")

-- `value ? new Date(value) : null`, as the ISO text of the date.
abbrev pub stored_date : Calendar → Option String → Option String
stored_date c none = none
stored_date c (some s) = if Text.is_empty s then none else some (c.iso s)

-- A nullable field: left out, `null`, or a value.
pub record PatchBody : Type 0 where
  pub name : Option String
  pub product_id : Option (Option String)
  pub batch_size : Option ℕ
  pub planned_start : Option (Option String)
  pub planned_end : Option (Option String)

-- The value after a patch of a column.
abbrev pub patched {ℓ} : {A : Type ℓ} → Option A → A → A
patched none old = old
patched (some new) old = new

-- `value === undefined ? {} : { column: value ? new Date(value) : null }`
abbrev pub date_edit : Calendar → Option (Option String) → Option (Option String)
date_edit c none = none
date_edit c (some d) = some (stored_date c d)

-- The row that the update leaves.
abbrev pub edited_project : Calendar → PatchBody → Project → Project
edited_project c body p = record p {
  name = get_or body.name p.name;
  product_id = patched body.product_id p.product_id;
  planned_start = patched (date_edit c body.planned_start) p.planned_start;
  planned_end = patched (date_edit c body.planned_end) p.planned_end;
  row_version = p.row_version + 1;
}

-- `body.productId` is set and names no product.
abbrev pub unknown_product : DraftReads → Option (Option String) → Bool
unknown_product r (some (some id)) = not (Text.is_empty id) && not (r.product id)
unknown_product r _ = false

unfoldable pub write_sizes : Project → Option ℕ → Work (Logged DraftWrite) (Unit {0})
write_sizes p none = pure tt
write_sizes p (some n) = do
  write (row (specification_tray p.id n))
  write (row (lot_label_pack_size p.id n))

unfoldable pub write_lot_name : Project → Option String → Work (Logged DraftWrite) (Unit {0})
write_lot_name p none = pure tt
write_lot_name p (some name) = write (row (lot_name p.id name))

-- The checks of the patch; the window is checked with the stored half where one is left out.
unfoldable pub check_patch :
    DraftReads → Calendar → PatchBody → Project → Work (Logged DraftWrite) (Unit {0})
unfolding require_ordered_window
check_patch r c body current = do
  refuse_if (unknown_product r body.product_id)
      (not_found "The requested catalog product was not found.")
  require_ordered_window c (patched body.planned_start current.planned_start)
      (patched body.planned_end current.planned_end)

unfoldable pub write_patch :
    Request → Calendar → PatchBody → Project → Work (Logged DraftWrite) CommandResponse
unfolding write_sizes write_lot_name record_command_success
write_patch req c body current = do
  write_sizes current body.batch_size
  write (
      row (
        project_edit current.id body.name body.product_id (date_edit c body.planned_start)
          (date_edit c body.planned_end)))
  write_lot_name current body.name
  let project = edited_project c body current
  record_command_success req "PROJECT_UPDATED" "Project" project.id
      (field "rowVersion" (nat project.row_version) end)
  pure (record {
    status = 200;
    body = project_response project none;
    headers = resource_headers project.id project.row_version;
  })

unfoldable pub patch_project :
    DraftReads
    → Request
    → Calendar
    → String
    → ℕ
    → PatchBody
    → Work (Logged DraftWrite) CommandResponse
patch_project r req c target_id expected_version body = do
  current ← editable_project r target_id expected_version
  check_patch r c body current
  write_patch req c body current
