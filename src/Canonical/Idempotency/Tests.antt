-- ===== src/Canonical/Idempotency/Tests.antt =====
-- A table of one claim, held in memory, and a catalogue write that counts.
use bnpi_pats_api.Base.{
  ℕ, String, [], ◌∷◌, Option, none, some, true, false, ◌+◌, ◌≡◌, ◌≢◌, refl, arith, str_eq, eq_refl,
  if◌then◌else◌,
}
use bnpi_pats_api.Base.Text
use bnpi_pats_api.Base.Json.{null, object, end}
use bnpi_pats_api.Command.Problem.{other_error}
use bnpi_pats_api.Command.Idempotency.{CommandResponse, Scope, valid_key}
use bnpi_pats_api.Canonical.Idempotency.{
  CatalogRecord, CatalogTable, Attempt, answered, raised, replied, execute_idempotently,
}
use bnpi_pats_api.Canonical.Idempotency.Laws.{execute_idempotently-replays}

-- One row, whatever the scope.
abbrev Row : Type 0
Row = Option CatalogRecord

abbrev fresh_record : String → CatalogRecord
fresh_record hash = record {
  id = "CI-1";
  request_hash = hash;
  status = none;
  response_body = null;
  response_headers = null;
}

abbrev alter : String → (CatalogRecord → Option CatalogRecord) → Row → Row
alter id f none = none
alter id f (some r) = if str_eq r.id id then f r else some r

abbrev create_row : String → Row → Option (CatalogRecord × Row)
create_row h none = some (fresh_record h, some (fresh_record h))
create_row h (some r) = none

create_row-taken : (h : String) (t : Row) {r : CatalogRecord} → t ≡ some r → create_row h t ≡ none
create_row-taken h t found = rw found refl

create_row-free :
    (h : String) (t : Row)
    → t ≡ none
    → create_row h t ≡ some (fresh_record h, some (fresh_record h))
create_row-free h t free = rw free refl

alter-own :
    (f : CatalogRecord → Option CatalogRecord) {o : Row} {r : CatalogRecord}
    → o ≡ some r
    → alter r.id f o ≡ f r
alter-own f {o} {r} found = ground (arith, eq_refl r.id)

abbrev memory : CatalogTable
memory = record {
  Table = Row;
  find_unique = λ s t. t;
  create = λ s h t. create_row h t;
  update = λ id f t. alter id (λ r. some (f r)) t;
  delete = λ id t. alter id (λ r. none) t;
  create_taken = λ s h t found. create_row-taken h t found;
  create_free = λ s h t free.
      (fresh_record h, some (fresh_record h), create_row-free h t free, refl, refl, refl);
  find-update = λ s f t found. alter-own (λ r. some (f r)) found;
  find-delete = λ s t found. alter-own (λ r. none) found;
}

abbrev scope_of : String → Scope
scope_of key = record { subject_id = "SUB-1"; operation = "productCreate"; idempotency_key = key }

abbrev created : CommandResponse
created = record { status = 201; body = object end; headers = ("ETag", "\"1\"") ∷ [] }

abbrev count_one : ℕ → Attempt × ℕ
count_one n = (answered created, n + 1)

product_key-valid : valid_key "product-1" ≡ true
unfolding valid_key Text.trim
product_key-valid = refl

created_body : created.body ≢ null
created_body e = cc

execute_idempotently-replays_example :
    let (first, db) =
      execute_idempotently memory (some "product-1") scope_of "hash-1" count_one (none, 0) in
    (first ≡ replied created false)
    × (db.1 ≡ 1)
    × (execute_idempotently memory (some "product-1") scope_of "hash-1" count_one db
        ≡ (replied created true, db))
execute_idempotently-replays_example =
    execute_idempotently-replays memory "product-1" scope_of "hash-1" count_one count_one none 0 1
      created product_key-valid refl refl created_body

abbrev failing : ℕ → Attempt × ℕ
failing n = (raised (other_error "The product code is taken."), n)
