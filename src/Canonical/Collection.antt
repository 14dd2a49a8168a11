-- ===== src/Canonical/Collection.antt =====
-- Paging and sorting of collections: app/canonical/collection.ts.
pub mod Laws
mod Tests
use Prim.Native.Char.{code}
use bnpi_pats_api.Base.{
  ℕ, String, List, [], ◌∷◌, ◌++◌, map, Option, none, some, Bool, true, false, not, ◌&&◌, ◌||◌, ◌+◌,
  ◌-◌, ◌*◌, ◌/◌, ◌==◌, ltb, leb, any, every, includes, str_eq, if◌then◌else◌,
}
use bnpi_pats_api.Base.Text
use bnpi_pats_api.Base.Decimal.{is_digit}

-- A query value: one text, or several where the key is repeated.
pub data QueryValue : Type 0 where
  one : String → QueryValue
  several : List String → QueryValue

-- `query[key]`, and its keys.
pub record Query : Type 0 where
  pub keys : List String
  pub value : String → Option QueryValue

pub record OffsetPagination : Type 0 where
  pub page : ℕ
  pub limit : ℕ

pub record CursorPagination : Type 0 where
  pub starting_after : Option String
  pub page_size : ℕ

unfoldable pub has_only_keys : Query → List String → Bool
has_only_keys q allowed = every (includes allowed) q.keys

-- The number of a text of digits; none where another character stands.
unfoldable pub digits_value : String → ℕ → Option ℕ
digits_value String.[] n = some n
digits_value (String.◌∷◌ c s) n =
    let rest = digits_value s (n * 10 + (code c - b'0')) in if is_digit c then rest else none

abbrev maximum_safe_integer : ℕ
maximum_safe_integer = 9007199254740991

-- `Number.isSafeInteger(parsed) ? parsed : undefined`. A number past 2^53 is kept exactly; the code
-- rounds it, to one that is not safe either.
abbrev pub safe : Option ℕ → Option ℕ
safe none = none
safe (some n) = if leb n maximum_safe_integer then some n else none

unfoldable pub parse_bounded_integer : Option QueryValue → ℕ → Option ℕ
unfolding digits_value
parse_bounded_integer none default = some default
parse_bounded_integer (some (several vs)) default = none
parse_bounded_integer (some (one s)) default =
    if Text.is_empty s then none else safe (digits_value s 0)

-- `limit < 1 || limit > 100`
abbrev pub bad_limit : ℕ → Bool
bad_limit n = ltb n 1 || ltb 100 n

-- `none` is the malformed-request problem.
unfoldable pub parse_offset_pagination : Query → Option OffsetPagination
parse_offset_pagination q =
    let page = parse_bounded_integer (q.value "page") 1 in
    let limit = parse_bounded_integer (q.value "limit") 50 in
    if not (has_only_keys q ("page" ∷ "limit" ∷ [])) then none else elim page [
      | none ↦ none
      | some p ↦ elim limit [
        | none ↦ none
        | some l ↦ if ltb p 1 || bad_limit l then none else some (record { page = p; limit = l })
      ]
    ]

-- The cursor that a codec decodes, `none` where it returns `undefined` or throws.
unfoldable pub parse_cursor :
    (String → Option String) → Option QueryValue → ℕ → Option CursorPagination
parse_cursor decode none l = some (record { starting_after = none; page_size = l })
parse_cursor decode (some (several vs)) l = none
parse_cursor decode (some (one s)) l = if Text.is_empty s then none else elim (decode s) [
  | none ↦ none
  | some cursor ↦ some (record { starting_after = some cursor; page_size = l })
]

unfoldable pub parse_cursor_pagination : (String → Option String) → Query → Option CursorPagination
parse_cursor_pagination decode q =
    if not (has_only_keys q ("starting_after" ∷ "limit" ∷ []))
    then none
    else elim (parse_bounded_integer (q.value "limit") 50) [
      | none ↦ none
      | some l ↦ if bad_limit l then none else parse_cursor decode (q.value "starting_after") l
    ]

pub record OffsetPage {ℓ} (A : Type ℓ) : Type ℓ where
  pub data_rows : List A
  pub page_number : ℕ
  pub page_length : ℕ
  pub total_items : ℕ
  pub total_pages : ℕ

-- `Math.ceil(totalItems / limit)`, for a limit that is not 0.
unfoldable pub page_count : ℕ → ℕ → ℕ
page_count total limit = (total + (limit - 1)) / limit

unfoldable pub build_offset_page {ℓ} : {A : Type ℓ} → List A → OffsetPagination → ℕ → OffsetPage A
unfolding page_count
build_offset_page rows p total = record {
  data_rows = rows;
  page_number = p.page;
  page_length = p.limit;
  total_items = total;
  total_pages = page_count total p.limit;
}

pub data Direction : Type 0 where
  ascending descending : Direction

pub record SortField : Type 0 where
  pub field : String
  pub direction : Direction

-- `sort.split(",")`: the first entry up to a comma, and the others.
unfoldable pub split_commas : String → String × List String
split_commas String.[] = (String.[], [])
split_commas (String.◌∷◌ c s) =
    let (entry, others) = split_commas s in
    if code c == b',' then (String.[], entry ∷ others) else (String.◌∷◌ c entry, others)

-- `entry.startsWith("-")` and the field that is left.
unfoldable pub sort_field : String → SortField
sort_field String.[] = record { field = String.[]; direction = ascending }
sort_field (String.◌∷◌ c s) =
    if code c == b'-'
    then record { field = s; direction = descending }
    else record { field = String.◌∷◌ c s; direction = ascending }

abbrev pub bad_field : List String → SortField → Bool
bad_field documented f =
    Text.is_empty f.field || (not (str_eq f.field "id") && not (includes documented f.field))

unfoldable pub parse_fields : List String → List String → Option (List SortField)
parse_fields documented [] = some []
parse_fields documented (entry ∷ entries) =
    let rest = parse_fields documented entries in
    if Text.is_empty entry || bad_field documented (sort_field entry)
    then none
    else elim rest [ none ↦ none | some fs ↦ some (sort_field entry ∷ fs) ]

abbrev pub by_id : SortField
by_id = record { field = "id"; direction = ascending }

abbrev pub is_id : SortField → Bool
is_id f = str_eq f.field "id"

-- The order is made total by the id.
unfoldable pub with_id : List SortField → List SortField
with_id fs = if any is_id fs then fs else fs ++ by_id ∷ []

unfoldable pub parse_sort : Option String → List String → Option (List SortField)
unfolding with_id
parse_sort none documented = some (by_id ∷ [])
parse_sort (some sort) documented =
    let (entry, others) = split_commas sort in
    if Text.is_empty sort
    then some (by_id ∷ [])
    else elim (parse_fields documented (entry ∷ others)) [
      | none ↦ none
      | some fs ↦ some (with_id fs)
    ]
