-- ===== src/Command/Request.antt =====
-- The request as a command sees it: the signed-in subject, the headers, and the parsing of
-- `If-Match` (app/pats/command-support.ts).
pub mod EntityTag
use Prim.Native.Char.{code}
use Prim.Native.String.{◌++◌ as join}
use bnpi_pats_api.Base.{
  ℕ, String, List, [], ◌∷◌, ◌++◌, Option, none, some, Bool, true, false, ◌&&◌, ◌+◌, ◌*◌, ◌-◌, leb,
  ◌==◌, if◌then◌else◌, get_or,
}
use bnpi_pats_api.Base.Text
use bnpi_pats_api.Base.Decimal.{is_digit}
use bnpi_pats_api.Command.Problem.{Problem}
use bnpi_pats_api.Command.Work.{Work, require}

-- `canonicalSubject` of the request, and the headers that a command reads.
pub record Subject : Type 0 where
  pub id : Option String
  pub display_name_snapshot : Option String

pub record Request : Type 0 where
  pub canonical_subject : Option Subject
  pub idempotency_key : Option String
  pub if_match : Option String
  pub correlation_id : Option String

abbrev subject_id : Option Subject → Option String
subject_id none = none
subject_id (some s) = s.id

abbrev subject_display : Option Subject → Option String
subject_display none = none
subject_display (some s) = s.display_name_snapshot

unfoldable pub actor_id : Request → String
actor_id req = get_or (subject_id req.canonical_subject) "canonical-subject"

unfoldable pub actor_display : Request → String
unfolding actor_id
actor_display req = get_or (subject_display req.canonical_subject) (actor_id req)

-- The digits up to the closing quote, which ends the text: the rest of `/^"(\d+)"$/`. A value
-- past 2^53 is kept exactly; the code rounds it, to a value that is no row version either.
unfoldable pub digits_quote : String → ℕ → Option ℕ
digits_quote String.[] n = none
digits_quote (String.◌∷◌ c s) n =
    let more = digits_quote s (n * 10 + (code c - b'0')) in
    if code c == b'"'
    then (if Text.is_empty s then some n else none)
    else if is_digit c
    then more
    else none

abbrev pub starts_with_digit : String → Bool
starts_with_digit String.[] = false
starts_with_digit (String.◌∷◌ c s) = is_digit c

-- `value?.match(/^"(\d+)"$/)` and `Number(match[1])`.
unfoldable pub parse_if_match : String → Option ℕ
unfolding digits_quote
parse_if_match String.[] = none
parse_if_match (String.◌∷◌ q s) =
    if code q == b'"' && starts_with_digit s then digits_quote s 0 else none

abbrev pub header_version : Option String → Option ℕ
header_version none = none
header_version (some value) = parse_if_match value

abbrev pub if_match_missing : String → Problem
if_match_missing resource_name = record {
  status = 412;
  type = "urn:bandai:pats:problem:precondition-failed";
  title = "Precondition Failed";
  detail = join (join "If-Match must contain the current " resource_name) " row version.";
  errors = none;
}

unfoldable pub require_if_match {ℓ} : {W : Type ℓ} → Request → String → Work W ℕ
unfolding parse_if_match
require_if_match req resource_name =
    require (header_version req.if_match) (if_match_missing resource_name)
