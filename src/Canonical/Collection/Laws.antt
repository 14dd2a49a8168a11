-- ===== src/Canonical/Collection/Laws.antt =====
-- What the parsing of pages and of sort orders lets through.
use bnpi_pats_api.Base.{
  ℕ, String, List, [], ◌∷◌, ◌++◌, Option, none, some, true, false, ◌+◌, ◌*◌, ◌≤◌, ◌<◌, any,
  includes, ◌≡◌, refl, arith, All, All-append, Bool-cases, Option-cases, ◌⊎◌, inl, inr,
}
use bnpi_pats_api.Base.Text
use bnpi_pats_api.Canonical.Collection.{
  Query, QueryValue, OffsetPagination, CursorPagination, parse_offset_pagination, parse_cursor,
  parse_cursor_pagination, parse_bounded_integer, page_count, SortField, sort_field, bad_field,
  split_commas, parse_fields, by_id, is_id, with_id, parse_sort,
}

-- A page that is accepted starts at 1 and has between 1 and 100 rows.
pub parse_offset_pagination-bounds :
    (q : Query) (p : OffsetPagination)
    → parse_offset_pagination q ≡ some p
    → (1 ≤ p.page) × (1 ≤ p.limit) × (p.limit ≤ 100)
unfolding parse_offset_pagination
parse_offset_pagination-bounds q p h = ground arith

parse_cursor-limit :
    (decode : String → Option String) (v : Option QueryValue) (l : ℕ) (p : CursorPagination)
    → parse_cursor decode v l ≡ some p
    → p.page_size ≡ l
unfolding parse_cursor
parse_cursor-limit decode v l p h = ground arith

-- A cursor page that is accepted has between 1 and 100 rows.
pub parse_cursor_pagination-bounds :
    (decode : String → Option String) (q : Query) (p : CursorPagination)
    → parse_cursor_pagination decode q ≡ some p
    → (1 ≤ p.page_size) × (p.page_size ≤ 100)
unfolding parse_cursor_pagination
parse_cursor_pagination-bounds decode q p h =
    elim (Option-cases (parse_bounded_integer (q.value "limit") 50)) [
      | inl bad ↦ absurd (ground arith)
      | inr (l, good) ↦ ground (arith, parse_cursor-limit decode (q.value "starting_after") l p)
    ]

-- The pages of a collection hold all its items, and one page less does not.
pub page_count-exact :
    (total limit : ℕ)
    → 1 ≤ limit
    → (total ≤ page_count total limit * limit) × (page_count total limit * limit < total + limit)
unfolding page_count
page_count-exact total limit h = (omega arith, omega arith)

-- The field is `id` or a documented one.
abbrev pub IsDocumented : List String → SortField → Type 0
IsDocumented documented f = (is_id f ≡ true) ⊎ (includes documented f.field ≡ true)

IsDocumented-of_good :
    (documented : List String) (f : SortField)
    → bad_field documented f ≡ false
    → IsDocumented documented f
IsDocumented-of_good documented f h = ground arith

parse_fields-head :
    (documented : List String) (e : String) (es : List String) (f : SortField) (fs : List SortField)
    → parse_fields documented (e ∷ es) ≡ some (f ∷ fs)
    → (sort_field e ≡ f)
      × (bad_field documented (sort_field e) ≡ false)
      × (parse_fields documented es ≡ some fs)
unfolding parse_fields
parse_fields-head documented e es f fs h = ground arith

parse_fields-IsDocumented :
    (documented entries : List String) (fs : List SortField)
    → parse_fields documented entries ≡ some fs
    → All (IsDocumented documented) fs
unfolding parse_fields
parse_fields-IsDocumented documented [] [] h = tt
parse_fields-IsDocumented documented [] (f ∷ fs) h = cc
parse_fields-IsDocumented documented (e ∷ es) [] h = tt
parse_fields-IsDocumented documented (e ∷ es) (f ∷ fs) h =
    let (same, good, rest) = parse_fields-head documented e es f fs h in
    (
      rw (← same) (IsDocumented-of_good documented (sort_field e) good),
      parse_fields-IsDocumented documented es fs rest,
    )

any-append_id : (fs : List SortField) → any is_id (fs ++ by_id ∷ []) ≡ true
any-append_id [] = refl
any-append_id (f ∷ fs) = ground (arith, any-append_id fs)

with_id-total : (fs : List SortField) → any is_id (with_id fs) ≡ true
unfolding with_id
with_id-total fs = ground (arith, any-append_id fs)

with_id-IsDocumented :
    (documented : List String) (fs : List SortField)
    → All (IsDocumented documented) fs
    → All (IsDocumented documented) (with_id fs)
unfolding with_id
with_id-IsDocumented documented fs h = elim (Bool-cases (any is_id fs)) [
  | inl total ↦ rw total h
  | inr partial ↦ rw partial (All-append (IsDocumented documented) fs (by_id ∷ []) h (inl refl, tt))
]

-- A sort order that is accepted names documented fields and the id only, and names the id, so that
-- it is total.
pub parse_sort-total :
    (sort : Option String) (documented : List String) (fs : List SortField)
    → parse_sort sort documented ≡ some fs
    → (any is_id fs ≡ true) × All (IsDocumented documented) fs
unfolding parse_sort
parse_sort-total none documented fs h =
    let same : by_id ∷ [] ≡ fs = ground arith in rw (← same) (refl, (inl refl, tt))
parse_sort-total (some s) documented fs h = elim (Bool-cases (Text.is_empty s)) [
  | inl blank ↦ let same : by_id ∷ [] ≡ fs = ground arith in rw (← same) (refl, (inl refl, tt))
  | inr filled ↦
      elim (Option-cases (parse_fields documented ((split_commas s).0 ∷ (split_commas s).1))) [
        | inl bad ↦ absurd (ground arith)
        | inr (gs, good) ↦
            let same : with_id gs ≡ fs = ground arith in
            rw (← same) (
              with_id-total gs,
              with_id-IsDocumented documented gs (
                  parse_fields-IsDocumented documented ((split_commas s).0 ∷ (split_commas s).1) gs
                    good),
            )
      ]
]
