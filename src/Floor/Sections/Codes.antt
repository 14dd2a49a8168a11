-- ===== src/Floor/Sections/Codes.antt =====
-- The code of a new section that gives none: the first of `SEC-NAME`, `SEC-NAME-2`, `SEC-NAME-3` … that
-- no section has (`POST /sections` of app/pats/command-router.ts).
pub mod Laws
use Prim.Native.Char.{code}
use Prim.Native.String.{◌++◌ as join}
use bnpi_pats_api.Base.{
  ℕ, zero, suc, String, List, [], ◌∷◌, Option, none, some, Bool, true, false, ◌&&◌, ◌||◌, ◌+◌, ◌==◌,
  leb, str_eq, any, opt_eq, length, if◌then◌else◌,
}
use bnpi_pats_api.Base.Text
use bnpi_pats_api.Base.Decimal.{decimal, is_digit}
use bnpi_pats_api.Floor.{Section}

-- `[A-Z0-9]`
abbrev is_code_char : ℕ → Bool
is_code_char c = leb b'A' c && leb c b'Z' || leb b'0' c && leb c b'9'

-- `.replace(/[^A-Z0-9]+/g, "-")`: one dash for each run; `in_run` says that the last was one.
unfoldable pub dashed : Bool → String → String
dashed in_run String.[] = String.[]
dashed in_run (String.◌∷◌ c s) =
    let kept = String.◌∷◌ c (dashed false s) in
    let run = dashed true s in
    if is_code_char (code c) then kept else if in_run then run else String.◌∷◌ "-" run

unfoldable pub strip_left : String → String
strip_left String.[] = String.[]
strip_left (String.◌∷◌ c s) =
    let rest = strip_left s in if code c == b'-' then rest else String.◌∷◌ c s

-- `.replace(/^-+|-+$/g, "")`, behind the leading dashes.
unfoldable pub strip_right : String → String
strip_right String.[] = String.[]
strip_right (String.◌∷◌ c s) =
    let rest = strip_right s in
    if code c == b'-' && Text.is_empty rest then String.[] else String.◌∷◌ c rest

-- `.slice(0, n)`
unfoldable pub take : ℕ → String → String
take zero s = String.[]
take (suc n) String.[] = String.[]
take (suc n) (String.◌∷◌ c s) = String.◌∷◌ c (take n s)

abbrev pub maximum_slug : ℕ
maximum_slug = 40

unfoldable pub slug : String → String
unfolding dashed strip_left strip_right take
slug name = take maximum_slug (strip_right (strip_left (dashed false name)))

-- `SEC-${… || "SEC"}`
unfoldable pub stem : (String → String) → String → String
unfolding slug
stem to_upper_case name =
    let s = slug (to_upper_case name) in join "SEC-" (if Text.is_empty s then "SEC" else s)

abbrev pub code_taken : List Section → String → Bool
code_taken ss c = any (λ (s : Section). opt_eq s.section_code (some c)) ss

-- The code of the given attempt.
abbrev pub numbered : String → ℕ → String
numbered base attempt = join base (join "-" (decimal attempt))

-- The loop, for as many codes as there are sections, and one more: not all of them can be taken.
unfoldable pub next_free : ℕ → List Section → String → String → ℕ → String
next_free zero ss base candidate attempt = candidate
next_free (suc n) ss base candidate attempt =
    let next = next_free n ss base (numbered base (attempt + 1)) (attempt + 1) in
    if code_taken ss candidate then next else candidate

unfoldable pub free_code : List Section → String → String
unfolding next_free
free_code ss base = next_free (length ss) ss base base 1
