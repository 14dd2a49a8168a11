-- ===== src/Command/Idempotency/Tests.antt =====
-- A table of claims held in memory, and the theorems on `executeCommand` at a batch closure.
use Prim.Native.String.{◌++◌ as join}
use bnpi_pats_api.Base.{
  String, List, [], ◌∷◌, Option, none, some, Bool, true, false, ◌&&◌, ◌≡◌, ◌≢◌, refl, arith, str_eq,
  eq_refl, if◌then◌else◌, inr,
}
use bnpi_pats_api.Base.Text
use bnpi_pats_api.Base.Json.{null, str, object, field, end}
use bnpi_pats_api.Command.Problem.{conflict, problem_of}
use bnpi_pats_api.Command.Work.{Work, done, thrown}
use bnpi_pats_api.Command.Idempotency.{
  CommandResponse, IdempotencyRecord, pending, completed, Scope, IdempotencyTable, returned, failed,
  valid_key, execute_command,
}
use bnpi_pats_api.Command.Idempotency.Laws.{execute-replays, execute-thrown_retry, execute-conflict}
use bnpi_pats_api.Command.Idempotency.Retries.{Request, execute_all, execute_all-once}

abbrev Rows : Type 0
Rows = Scope → Option IdempotencyRecord

abbrev scope_eq : Scope → Scope → Bool
scope_eq a b =
    str_eq a.subject_id b.subject_id
    && str_eq a.operation b.operation
    && str_eq a.idempotency_key b.idempotency_key

scope_eq_refl : (s : Scope) → scope_eq s s ≡ true
scope_eq_refl s = rw (eq_refl s.subject_id, eq_refl s.operation, eq_refl s.idempotency_key) refl

abbrev fresh_record : Scope → String → IdempotencyRecord
fresh_record s hash = record {
  id = join s.operation s.idempotency_key;
  request_hash = hash;
  status = pending;
  response_status = none;
  response_body = null;
  response_headers = null;
}

abbrev insert : Scope → IdempotencyRecord → Rows → Rows
insert s r t k = if scope_eq s k then some r else t k

abbrev alter :
    String
    → (IdempotencyRecord → Option IdempotencyRecord)
    → Option IdempotencyRecord
    → Option IdempotencyRecord
alter id f none = none
alter id f (some r) = if str_eq r.id id then f r else some r

abbrev create_row : Scope → String → Rows → Option (IdempotencyRecord × Rows)
create_row s h t = elim (t s) [
  | none ↦ some (fresh_record s h, insert s (fresh_record s h) t)
  | some r ↦ none
]

create_row-taken :
    (s : Scope) (h : String) (t : Rows) {r : IdempotencyRecord}
    → t s ≡ some r
    → create_row s h t ≡ none
create_row-taken s h t found = ground arith

create_row-free :
    (s : Scope) (h : String) (t : Rows)
    → t s ≡ none
    → create_row s h t ≡ some (fresh_record s h, insert s (fresh_record s h) t)
create_row-free s h t free = ground arith

insert-own : (s : Scope) (r : IdempotencyRecord) (t : Rows) → insert s r t s ≡ some r
insert-own s r t = ground (arith, scope_eq_refl s)

alter-own :
    (f : IdempotencyRecord → Option IdempotencyRecord) {o : Option IdempotencyRecord}
    {r : IdempotencyRecord}
    → o ≡ some r
    → alter r.id f o ≡ f r
alter-own f {o} {r} found = ground (arith, eq_refl r.id)

abbrev memory : IdempotencyTable
memory = record {
  Table = Rows;
  find_unique = λ s t. t s;
  create = create_row;
  update = λ id f t s. alter id (λ r. some (f r)) (t s);
  delete = λ id t s. alter id (λ r. none) (t s);
  create_taken = create_row-taken;
  create_free = λ s h t free. (
    fresh_record s h,
    insert s (fresh_record s h) t,
    create_row-free s h t free,
    insert-own s (fresh_record s h) t,
    refl,
    refl,
  );
  find-update = λ s f t found. alter-own (λ r. some (f r)) found;
  find-delete = λ s t found. alter-own (λ r. none) found;
}

abbrev empty_table : Rows
empty_table s = none

abbrev closure_scope : String → Scope
closure_scope key = record { subject_id = "SUB-1"; operation = "batchClose"; idempotency_key = key }

abbrev closed_response : CommandResponse
closed_response = record {
  status = 201;
  body = object (field "batchId" (str "B-1") (field "status" (str "CLOSED") end));
  headers = ("Location", "/api/v1/batches/B-1/closure") ∷ [];
}

closure_key-valid : valid_key "close-b1" ≡ true
unfolding valid_key Text.trim
closure_key-valid = refl

closed_body : closed_response.body ≢ null
closed_body e = cc

abbrev close_work : Work String CommandResponse
close_work = done ("batch B-1 closed" ∷ []) closed_response

abbrev route_open : Work String CommandResponse
route_open = thrown (problem_of (conflict "The batch has not completed its route."))

execute-replays_example :
    let (first, db) =
      execute_command memory
        (some "close-b1")
        closure_scope
        "hash-1"
        close_work
        (empty_table, []) in
    (first ≡ returned (closed_response, false))
    × (db.1 ≡ "batch B-1 closed" ∷ [])
    × (execute_command memory (some "close-b1") closure_scope "hash-1" close_work db
        ≡ (returned (closed_response, true), db))
execute-replays_example =
    execute-replays memory "close-b1" closure_scope "hash-1" empty_table []
      ("batch B-1 closed" ∷ []) closed_response close_work closure_key-valid refl closed_body

execute-thrown_retry_example :
    let (first, db) =
      execute_command memory
        (some "close-b1")
        closure_scope
        "hash-1"
        route_open
        (empty_table, []) in
    let (second, db') =
      execute_command memory (some "close-b1") closure_scope "hash-2" close_work db in
    (first ≡ failed (problem_of (conflict "The batch has not completed its route.")))
    × (db.1 ≡ [])
    × (second ≡ returned (closed_response, false))
    × (db'.1 ≡ "batch B-1 closed" ∷ [])
execute-thrown_retry_example =
    execute-thrown_retry memory "close-b1" closure_scope "hash-1" "hash-2" empty_table []
      ("batch B-1 closed" ∷ []) (problem_of (conflict "The batch has not completed its route."))
      closed_response closure_key-valid refl

abbrev deleted_record : IdempotencyRecord
deleted_record = record {
  id = "IDM-1";
  request_hash = "hash-1";
  status = completed;
  response_status = some 204;
  response_body = null;
  response_headers = object end;
}

abbrev deleted_table : Rows
deleted_table s = some deleted_record

-- A deletion answers 204 with the body `null`: its key is refused when it comes again.
execute-conflict_example :
    (detail : String) × (execute_command memory
        (some "close-b1")
        closure_scope
        "hash-1"
        close_work
        (deleted_table, [])
      ≡ (failed (problem_of (conflict detail)), (deleted_table, [])))
execute-conflict_example =
    execute-conflict memory "close-b1" closure_scope "hash-1" deleted_table [] close_work
      {r = deleted_record} closure_key-valid refl (inr (inr refl))

abbrev requests : List (Request String)
requests = ("hash-1", route_open) ∷ ("hash-1", close_work) ∷ ("hash-1", close_work) ∷ []

execute_all-once_example :
    (execute_all memory "close-b1" closure_scope requests (empty_table, [])).1
    ≡ "batch B-1 closed" ∷ []
execute_all-once_example =
    execute_all-once memory "close-b1" closure_scope requests empty_table [] closure_key-valid refl
