-- ===== src/Canonical/Collection/Tests.antt =====
-- Queries of a list of 120 items.
use bnpi_pats_api.Base.{String, List, [], ◌∷◌, Option, none, some, ◌≡◌, refl, str_eq, if◌then◌else◌}
use bnpi_pats_api.Canonical.Collection.{
  one, Query, has_only_keys, digits_value, parse_bounded_integer, parse_offset_pagination,
  parse_cursor, parse_cursor_pagination, SortField, ascending, descending, split_commas, sort_field,
  parse_fields, with_id, parse_sort,
}

abbrev third_page : Query
third_page = record {
  keys = "page" ∷ [];
  value = λ k. if str_eq k "page" then some (one "3") else none;
}

third_page-parses : parse_offset_pagination third_page ≡ some (record { page = 3; limit = 50 })
unfolding parse_offset_pagination has_only_keys parse_bounded_integer digits_value
third_page-parses = refl

abbrev after_cursor : Query
after_cursor = record {
  keys = "starting_after" ∷ [];
  value = λ k. if str_eq k "starting_after" then some (one "B-1") else none;
}

abbrev decode : String → Option String
decode s = some s

after_cursor-parses :
    parse_cursor_pagination decode after_cursor
    ≡ some (record { starting_after = some "B-1"; page_size = 50 })
unfolding parse_cursor_pagination parse_cursor has_only_keys parse_bounded_integer
after_cursor-parses = refl

abbrev by_name : List SortField
by_name =
    record { field = "name"; direction = descending }
    ∷ record { field = "id"; direction = ascending }
    ∷ []

by_name-parses : parse_sort (some "-name") ("name" ∷ []) ≡ some by_name
unfolding parse_sort split_commas parse_fields sort_field with_id
by_name-parses = refl
