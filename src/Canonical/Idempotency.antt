-- ===== src/Canonical/Idempotency.antt =====
-- `executeIdempotently` of app/canonical/idempotency.ts over the claims of
-- app/canonical/prisma-idempotency-store.ts. The database's table is the interface `CatalogTable`;
-- `S` is what the business write acts on, which runs outside the claim's statements.
pub mod Laws
mod Tests
use bnpi_pats_api.Base.{
  ℕ, String, Option, none, some, Bool, true, false, not, ◌||◌, ◌≡◌, str_eq, is_some, if◌then◌else◌,
}
use bnpi_pats_api.Base.Json.{Json, null, object, of_headers, Headers}
use bnpi_pats_api.Command.Problem.{Failure}
use bnpi_pats_api.Command.Idempotency.{CommandResponse, Scope, valid_key, headers_value, is_null}

pub record CatalogRecord : Type 0 where
  pub id : String
  pub request_hash : String
  pub status : Option ℕ
  pub response_body : Json
  pub response_headers : Json

-- A fresh claim has no response and is found again; the unique key refuses a second one; an update
-- and a deletion act on the row of that id.
pub record CatalogTable : Type 1 where
  pub Table : Type 0
  pub find_unique : Scope → Table → Option CatalogRecord
  pub create : Scope → String → Table → Option (CatalogRecord × Table)
  pub update : String → (CatalogRecord → CatalogRecord) → Table → Table
  pub delete : String → Table → Table
  pub create_taken :
      (s : Scope) (h : String) (t : Table) {r : CatalogRecord}
      → find_unique s t ≡ some r
      → create s h t ≡ none
  pub create_free :
      (s : Scope) (h : String) (t : Table)
      → find_unique s t ≡ none
      → (r : CatalogRecord) × (t' : Table) × (create s h t ≡ some (r, t'))
        × (find_unique s t' ≡ some r)
        × (r.request_hash ≡ h)
        × (r.status ≡ none)
  pub find-update :
      (s : Scope) (f : CatalogRecord → CatalogRecord) (t : Table) {r : CatalogRecord}
      → find_unique s t ≡ some r
      → find_unique s (update r.id f t) ≡ some (f r)
  pub find-delete :
      (s : Scope) (t : Table) {r : CatalogRecord}
      → find_unique s t ≡ some r
      → find_unique s (delete r.id t) ≡ none

pub data Reservation : Type 0 where
  reserved : String → Reservation
  existing : CommandResponse → String → Reservation
  pending conflict : Reservation

-- What `reserve` makes of the row that holds the key.
unfoldable pub reservation_of : Option CatalogRecord → String → Reservation
unfolding headers_value
reservation_of none hash = conflict
reservation_of (some r) hash =
    if not (str_eq r.request_hash hash)
    then conflict
    else if is_null r.response_body || is_null r.response_headers
    then pending
    else elim r.status [
      | none ↦ pending
      | some status ↦ elim (headers_value r.response_headers) [
        | none ↦ pending
        | some headers ↦
            existing (record { status = status; body = r.response_body; headers = headers })
              r.request_hash
      ]
    ]

-- `persist`
abbrev pub persisted : CommandResponse → CatalogRecord → CatalogRecord
persisted response r = record r {
  status = some response.status;
  response_body = response.body;
  response_headers = of_headers response.headers;
}

-- What the business write does: it answers or throws, and leaves its state changed or not.
pub data Attempt : Type 0 where
  answered : CommandResponse → Attempt
  raised : Failure → Attempt

pub data Result : Type 0 where
  replied : CommandResponse → Bool → Result
  malformed_request conflicting : Result
  rethrown : Failure → Result

module _ (T : CatalogTable) where
  open T use {Table, find_unique, create}

  unfoldable pub reserve : Scope → String → Table → Reservation × Table
  unfolding reservation_of
  reserve scope hash t = elim (create scope hash t) [
    | some (r, t') ↦ (reserved r.id, t')
    | none ↦ (reservation_of (find_unique scope t) hash, t)
  ]

module _ (T : CatalogTable) {S : Type 0} where
  open T use {Table, update, delete}

  unfoldable pub finish : String → Attempt × S → Table → Result × (Table × S)
  finish id (answered response, s) t =
      (replied response false, (update id (persisted response) t, s))
  finish id (raised e, s) t = (rethrown e, (delete id t, s))

  unfoldable pub settle :
      String → (S → Attempt × S) → S → Reservation × Table → Result × (Table × S)
  unfolding finish
  settle hash execute s (conflict, t) = (conflicting, (t, s))
  settle hash execute s (pending, t) = (conflicting, (t, s))
  settle hash execute s (existing response stored, t) =
      if str_eq stored hash then (replied response true, (t, s)) else (conflicting, (t, s))
  settle hash execute s (reserved id, t) = finish id (execute s) t

  unfoldable pub execute_idempotently :
      Option String
      → (String → Scope)
      → String
      → (S → Attempt × S)
      → Table × S
      → Result × (Table × S)
  unfolding valid_key
  execute_idempotently none scope hash execute db = (malformed_request, db)
  execute_idempotently (some key) scope hash execute (t, s) =
      if valid_key key
      then settle hash execute s (reserve T (scope key) hash t)
      else (malformed_request, (t, s))
