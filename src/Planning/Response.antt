-- ===== src/Planning/Response.antt =====
-- `projectResponse` and the headers of app/pats/command-router.ts.
use Prim.Native.String.{◌++◌ as join}
use bnpi_pats_api.Base.{ℕ, String, [], ◌∷◌, Option, get_or}
use bnpi_pats_api.Base.Json.{Json, Headers, str, nat, object, field, end}
use bnpi_pats_api.Base.Decimal.{quoted}
use bnpi_pats_api.Command.Audit.{opt_str}
use bnpi_pats_api.Planning.{
  Project, ProjectStatus, draft_project, released_project, completed_project,
}

abbrev pub project_status_name : ProjectStatus → String
project_status_name draft_project = "DRAFT"
project_status_name released_project = "RELEASED"
project_status_name completed_project = "COMPLETED"

abbrev pub default_batch_size : ℕ
default_batch_size = 200

-- The batch size is not a column of the project: only the caller that has it hands it over.
unfoldable pub project_response : Project → Option ℕ → Json
project_response p batch_size = object (
    field "projectId" (str p.id) (
      field "projectCode" (str p.project_code) (
        field "name" (str p.name) (
          field "status" (str (project_status_name p.status)) (
            field "batchSize" (nat (get_or batch_size default_batch_size)) (
              field "productId" (opt_str p.product_id) (
                field "rowVersion" (nat p.row_version) (
                  field "completedAt" (opt_str p.completed_at) (
                    field "plannedStartDate" (opt_str p.planned_start)
                      (field "plannedEndDate" (opt_str p.planned_end) end))))))))))

abbrev pub resource_headers : String → ℕ → Headers
resource_headers id row_version =
    ("Location", join "/api/v1/projects/" id) ∷ ("ETag", quoted row_version) ∷ []
