-- ===== src/Base/Json.antt =====
-- JSON values as the request bodies and the JSON columns hold them. A number that is no natural
-- number (negative or fractional) is kept as its text: the code only tests such a number.
use Prim.Native.Nat.{ℕ}
use Prim.Native.String.{String}
use mathlib.Core.Path.{◌≡◌, refl}
use mathlib.Core.Bool.{Bool}
use mathlib.Core.Option.{Option, none, some}
use mathlib.Core.List.{List, [], ◌∷◌}
use native.Mathlib.Omega.{arith}
use text.Mathlib.Text.{◌==◌ as str_eq}
use bnpi_pats_api.Base.Tests.{if◌then◌else◌}

mutual
  pub data Json : Type 0 where
    null : Json
    bool : Bool → Json
    nat : ℕ → Json
    other_number : String → Json
    str : String → Json
    array : Items → Json
    object : Fields → Json

  pub data Items : Type 0 where
    nil : Items
    cons : Json → Items → Items

  pub data Fields : Type 0 where
    end : Fields
    field : String → Json → Fields → Fields

abbrev pub Headers : Type 0
Headers = List (String × String)

-- `o[k]` on a parsed object, whose keys differ.
abbrev pub member : String → Fields → Option Json
member k end = none
member k (field j v fs) = if str_eq j k then some v else member k fs

abbrev pub header_fields : Headers → Fields
header_fields [] = end
header_fields ((k, v) ∷ hs) = field k (str v) (header_fields hs)

-- An object of strings, as a JSON column stores it.
abbrev pub of_headers : Headers → Json
of_headers hs = object (header_fields hs)

abbrev pub string_entries : Fields → Option Headers
string_entries end = some []
string_entries (field k (str v) fs) = elim (string_entries fs) [
  | none ↦ none
  | some hs ↦ some ((k, v) ∷ hs)
]
string_entries (field k _ fs) = none

pub string_entries-header_fields : (hs : Headers) → string_entries (header_fields hs) ≡ some hs
string_entries-header_fields [] = refl
string_entries-header_fields ((k, v) ∷ hs) = ground (arith, string_entries-header_fields hs)
