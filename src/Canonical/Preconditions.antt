-- ===== src/Canonical/Preconditions.antt =====
-- Entity tags and `If-Match`: app/canonical/preconditions.ts.
pub mod Laws
mod Tests
use Prim.Native.Char.{code}
use Prim.Native.String.{◌++◌ as join}
use bnpi_pats_api.Base.{
  ℕ, String, Option, none, some, Bool, true, false, not, ◌&&◌, ◌||◌, leb, ◌==◌, str_eq,
  if◌then◌else◌,
}
use bnpi_pats_api.Base.Text

-- `[!#-~]`
abbrev pub is_tag_code : ℕ → Bool
is_tag_code c = c == 33 || (leb 35 c && leb c 126)

-- `/^[!#-~]*$/`
unfoldable pub all_tag_codes : String → Bool
all_tag_codes String.[] = true
all_tag_codes (String.◌∷◌ c s) = is_tag_code (code c) && all_tag_codes s

-- `/^[!#-~]+$/`
unfoldable pub safe_version_token : String → Bool
safe_version_token s = not (Text.is_empty s) && all_tag_codes s

-- The characters of a tag up to the quote that ends the text.
unfoldable pub tag_rest : String → Bool
tag_rest String.[] = false
tag_rest (String.◌∷◌ c s) =
    let rest = tag_rest s in
    if code c == b'"' then Text.is_empty s else is_tag_code (code c) && rest

-- `/^"[!#-~]*"$/`
unfoldable pub strong_etag : String → Bool
unfolding tag_rest
strong_etag String.[] = false
strong_etag (String.◌∷◌ c s) = code c == b'"' && tag_rest s

-- `none` is the `TypeError`.
unfoldable pub create_strong_etag : String → Option String
unfolding safe_version_token
create_strong_etag token =
    if safe_version_token token then some (join (join "\"" token) "\"") else none

abbrev pub matches : Option String → String → Bool
matches none current = false
matches (some tag) current = str_eq tag current

abbrev pub is_wildcard : Option String → Bool
is_wildcard none = false
is_wildcard (some tag) = str_eq tag "*"

-- `true` is `{ ok: true }`, `false` the precondition-failed problem.
unfoldable pub validate_if_match : Option String → String → Bool → Bool
validate_if_match if_match current_etag allow_wildcard =
    if not (strong_etag current_etag)
    then false
    else matches if_match current_etag || (allow_wildcard && is_wildcard if_match)
