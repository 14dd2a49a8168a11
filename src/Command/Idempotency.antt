-- ===== src/Command/Idempotency.antt =====
-- `executeCommand` of app/pats/command-support.ts: a command claims its Idempotency-Key, runs its
-- work in one transaction with the completion of the claim, and is answered from the stored
-- response when it comes again. The table of claims is the database's: its operations and their
-- laws are the interface `IdempotencyTable`. `log` holds the writes that were committed.
pub mod Laws
pub mod Retries
mod Tests
use bnpi_pats_api.Base.{
  ℕ, String, List, [], ◌∷◌, ◌++◌, Option, none, some, Bool, true, false, not, ◌||◌, ◌≡◌, ltb,
  str_eq, if◌then◌else◌, get_or,
}
use bnpi_pats_api.Base.Json.{Json, null, object, Headers, of_headers, string_entries}
use bnpi_pats_api.Base.Text
use bnpi_pats_api.Command.Problem.{Problem, Failure, problem_of, conflict, malformed}
use bnpi_pats_api.Command.Work.{Work, done, thrown}

pub record CommandResponse : Type 0 where
  pub status : ℕ
  pub body : Json
  pub headers : Headers

pub data RecordStatus : Type 0 where
  pending completed : RecordStatus

pub record IdempotencyRecord : Type 0 where
  pub id : String
  pub request_hash : String
  pub status : RecordStatus
  pub response_status : Option ℕ
  pub response_body : Json
  pub response_headers : Json

-- The unique key of the table: subject, operation and Idempotency-Key.
pub record Scope : Type 0 where
  pub subject_id : String
  pub operation : String
  pub idempotency_key : String

-- What `executeCommand` relies on of the table: a fresh claim is pending and is found again, the
-- unique constraint refuses a second one, and an update and a deletion act on the row of that id.
pub record IdempotencyTable : Type 1 where
  pub Table : Type 0
  pub find_unique : Scope → Table → Option IdempotencyRecord
  pub create : Scope → String → Table → Option (IdempotencyRecord × Table)
  pub update : String → (IdempotencyRecord → IdempotencyRecord) → Table → Table
  pub delete : String → Table → Table
  pub create_taken :
      (s : Scope) (h : String) (t : Table) {r : IdempotencyRecord}
      → find_unique s t ≡ some r
      → create s h t ≡ none
  pub create_free :
      (s : Scope) (h : String) (t : Table)
      → find_unique s t ≡ none
      → (r : IdempotencyRecord) × (t' : Table) × (create s h t ≡ some (r, t'))
        × (find_unique s t' ≡ some r)
        × (r.request_hash ≡ h)
        × (r.status ≡ pending)
  pub find-update :
      (s : Scope) (f : IdempotencyRecord → IdempotencyRecord) (t : Table) {r : IdempotencyRecord}
      → find_unique s t ≡ some r
      → find_unique s (update r.id f t) ≡ some (f r)
  pub find-delete :
      (s : Scope) (t : Table) {r : IdempotencyRecord}
      → find_unique s t ≡ some r
      → find_unique s (delete r.id t) ≡ none

abbrev maximum_key_length : ℕ
maximum_key_length = 255

-- `!key || key.trim().length === 0 || key.length > 255`
unfoldable pub valid_key : String → Bool
valid_key key = not (Text.is_empty (Text.trim key) || ltb maximum_key_length (Text.length key))

-- `headersValue`
unfoldable pub headers_value : Json → Option Headers
headers_value (object fs) = string_entries fs
headers_value _ = none

abbrev pub is_null : Json → Bool
is_null null = true
is_null _ = false

abbrev pub is_completed : RecordStatus → Bool
is_completed completed = true
is_completed _ = false

abbrev pub Replayed : Type 0
Replayed = CommandResponse × Bool

pub data Outcome (A : Type 0) : Type 0 where
  returned : A → Outcome A
  failed : Failure → Outcome A

abbrev refused : Problem → Outcome Replayed
refused p = failed (problem_of p)

abbrev pub different_payload : Problem
different_payload =
    conflict "The Idempotency-Key was already used with a different request payload."

abbrev pub not_replayable : Problem
not_replayable = conflict "The Idempotency-Key is already in progress or cannot be replayed safely."

abbrev pub already_used : Problem
already_used = conflict "The Idempotency-Key is already being used by another request."

abbrev pub invalid_key : Problem
invalid_key = malformed "A valid Idempotency-Key header is required for this command."

-- The answer to a key that is in the table.
unfoldable pub replay : IdempotencyRecord → String → Outcome Replayed
unfolding headers_value
replay r hash =
    if not (str_eq r.request_hash hash)
    then refused different_payload
    else if not (is_completed r.status) || is_null r.response_body
    then refused not_replayable
    else elim r.response_status [
      | none ↦ refused not_replayable
      | some status ↦ returned (
        record {
          status = status;
          body = r.response_body;
          headers = get_or (headers_value r.response_headers) [];
        },
        true,
      )
    ]

-- The update that completes the claim. On JSON values `jsonValue` changes nothing.
abbrev pub complete : CommandResponse → IdempotencyRecord → IdempotencyRecord
complete response r = record r {
  status = completed;
  response_status = some response.status;
  response_body = response.body;
  response_headers = of_headers response.headers;
}

abbrev pub Database : IdempotencyTable → Type 0 → Type 0
Database T W = T.Table × List W

module _ (T : IdempotencyTable) {W : Type 0} where
  open T use {find_unique, create, update, delete}

  -- The transaction and its `catch`: all the writes with the completion, or the claim released.
  unfoldable pub run_claimed :
      IdempotencyRecord → Work W CommandResponse → Database T W → Outcome Replayed × Database T W
  run_claimed r (done ws response) (t, log) =
      (returned (response, false), (update r.id (complete response) t, log ++ ws))
  run_claimed r (thrown e) (t, log) = (failed e, (delete r.id t, log))

  unfoldable pub claim :
      Scope → String → Work W CommandResponse → Database T W → Outcome Replayed × Database T W
  unfolding run_claimed
  claim scope hash work (t, log) = elim (create scope hash t) [
    | none ↦ (refused already_used, (t, log))
    | some (r, t') ↦ run_claimed r work (t', log)
  ]

  -- `key` is the request's header, `hash` the SHA-256 of the body's JSON text.
  unfoldable pub execute_command :
      Option String
      → (String → Scope)
      → String
      → Work W CommandResponse
      → Database T W
      → Outcome Replayed × Database T W
  unfolding valid_key claim replay
  execute_command none scope hash work db = (refused invalid_key, db)
  execute_command (some key) scope hash work (t, log) =
      if valid_key key
      then elim (find_unique (scope key) t) [
        | some r ↦ (replay r hash, (t, log))
        | none ↦ claim (scope key) hash work (t, log)
      ]
      else (refused invalid_key, (t, log))
