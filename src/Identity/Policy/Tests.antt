-- ===== src/Identity/Policy/Tests.antt =====
-- An operator of one station, with a suspended administrator's bundle.
use bnpi_pats_api.Base.{List, [], ◌∷◌, true, ◌&&◌, ◌||◌, ◌≡◌, refl, str_eq}
use bnpi_pats_api.Identity.Policy.{
  Assignment, capability, role_bundle, active, suspended, known_capabilities,
  role_bundle_capabilities, add, add_all, grant, grant_all, imply_all, insert_sorted, sort,
  effective_capabilities, has_capability,
}
use bnpi_pats_api.Identity.Policy.Laws.{granted, has_capability_lem}

abbrev metrics_encoder : Assignment
metrics_encoder = record { kind = capability; key = "daily-metrics.encode"; status = active }

abbrev suspended_admin : Assignment
suspended_admin = record { kind = role_bundle; key = "admin"; status = suspended }

abbrev assignments : List Assignment
assignments = suspended_admin ∷ metrics_encoder ∷ []

encoder_reads : has_capability assignments "monitoring.read" ≡ true
unfolding has_capability effective_capabilities grant_all grant add_all add imply_all sort
    insert_sorted known_capabilities role_bundle_capabilities
encoder_reads = refl

has_capability_lem_example : has_capability assignments "monitoring.read" ≡ (
    granted assignments "monitoring.read"
    || (str_eq "monitoring.read" "monitoring.read"
        && (granted assignments "daily-metrics.encode"
            || granted assignments "monitoring.station.encode")))
has_capability_lem_example = has_capability_lem assignments "monitoring.read"
