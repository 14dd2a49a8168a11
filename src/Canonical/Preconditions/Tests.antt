-- ===== src/Canonical/Preconditions/Tests.antt =====
-- The tag of a version, and what a client sends back.
use bnpi_pats_api.Base.{String, Option, some, ◌≡◌, refl}
use bnpi_pats_api.Canonical.Preconditions.{all_tag_codes, safe_version_token, create_strong_etag}

version_tag : create_strong_etag "v7" ≡ some "\"v7\""
unfolding create_strong_etag safe_version_token all_tag_codes
version_tag = refl

abbrev wildcard : Option String
wildcard = some "*"
