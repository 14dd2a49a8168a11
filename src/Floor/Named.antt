-- ===== src/Floor/Named.antt =====
-- The fields of a patch body that its audit record keeps: `{ …, ...body }` leaves out what is undefined.
use bnpi_pats_api.Base.{ℕ, String, Option, none, some, Bool}
use bnpi_pats_api.Base.Json.{Json, bool, str, nat, Fields, field}
use bnpi_pats_api.Command.Audit.{opt_str}

abbrev pub named : String → Option Json → Fields → Fields
named k none more = more
named k (some v) more = field k v more

abbrev pub text_of : Option String → Option Json
text_of none = none
text_of (some s) = some (str s)

abbrev pub nullable_of : Option (Option String) → Option Json
nullable_of none = none
nullable_of (some s) = some (opt_str s)

abbrev pub number_of : Option ℕ → Option Json
number_of none = none
number_of (some n) = some (nat n)

abbrev pub flag_of : Option Bool → Option Json
flag_of none = none
flag_of (some b) = some (bool b)
