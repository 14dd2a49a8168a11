-- ===== src/Canonical/Preconditions/Laws.antt =====
-- Which `If-Match` a write is let through with.
use Prim.Native.String.{◌++◌ as join}
use text.Mathlib.TextLemmas.{cons-append, nil-append}
use bnpi_pats_api.Base.{
  String, Option, none, some, Bool, true, eq_iff, eq_refl, ◌≡◌, ◌↔◌, ◌⊎◌, refl, arith,
}
use bnpi_pats_api.Canonical.Preconditions.{
  all_tag_codes, safe_version_token, tag_rest, strong_etag, create_strong_etag, validate_if_match,
}

tag_rest-join : (s : String) → all_tag_codes s ≡ true → tag_rest (join s "\"") ≡ true
unfolding all_tag_codes tag_rest
tag_rest-join String.[] h = refl
tag_rest-join (String.◌∷◌ c s) h = ground (arith, cons-append c s "\"", tag_rest-join s)

strong-quoted :
    (token : String) → all_tag_codes token ≡ true → strong_etag (join (join "\"" token) "\"") ≡ true
unfolding strong_etag
strong-quoted token h = rw (cons-append, nil-append, cons-append) (tag_rest-join token h)

-- The tag that is made of a version is a strong entity tag, and lets a write through that sends it
-- back.
pub create_strong_etag-validates :
    (token etag : String) (allow_wildcard : Bool)
    → create_strong_etag token ≡ some etag
    → (strong_etag etag ≡ true) × (validate_if_match (some etag) etag allow_wildcard ≡ true)
unfolding create_strong_etag validate_if_match
create_strong_etag-validates token etag allow_wildcard h =
    let good : all_tag_codes token ≡ true = unfold safe_version_token in ground arith in
    let made : join (join "\"" token) "\"" ≡ etag = ground arith in
    let strong : strong_etag etag ≡ true = rw (← made) (strong-quoted token good) in
    (strong, ground (arith, eq_refl etag))

-- A write is let through exactly when the current tag is a strong entity tag and the client sent
-- that tag, or, where wildcards are allowed, `*`.
pub validate_if_match_iff :
    (if_match : Option String) (current_etag : String) (allow_wildcard : Bool)
    → (validate_if_match if_match current_etag allow_wildcard ≡ true) ↔ (
        (strong_etag current_etag ≡ true)
        × ((if_match ≡ some current_etag) ⊎ ((allow_wildcard ≡ true) × (if_match ≡ some "*"))))
unfolding validate_if_match
validate_if_match_iff none current_etag allow_wildcard = ground arith
validate_if_match_iff (some tag) current_etag allow_wildcard =
    ground (arith, eq_iff tag current_etag, eq_iff tag "*")
