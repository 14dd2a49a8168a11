-- ===== src/Command/Idempotency/Laws.antt =====
-- What one execution of a command does to its claim and to the log, and what a second one finds.
use bnpi_pats_api.Base.{
  String, List, ◌++◌, none, some, true, false, ◌≡◌, ◌≢◌, refl, arith, str_eq, eq_iff, ◌∙◌, ap, ◌⊎◌,
  inl, inr, Bool-cases,
}
use bnpi_pats_api.Base.Json.{Json, null, string_entries-header_fields}
use bnpi_pats_api.Command.Problem.{Failure, problem_of, conflict}
use bnpi_pats_api.Command.Work.{Work, done, thrown}
use bnpi_pats_api.Command.Idempotency.{
  IdempotencyTable, IdempotencyRecord, Scope, CommandResponse, returned, failed, pending, valid_key,
  replay, complete, execute_command, different_payload, not_replayable, is_null, is_completed,
  RecordStatus, Outcome, Replayed,
}

is_null-eq-false : (j : Json) → j ≢ null → is_null j ≡ false
is_null-eq-false null h = absurd (h refl)
is_null-eq-false _ h = refl

-- A completed claim of the same payload is answered with the response that was stored.
pub replay-complete :
    (r : IdempotencyRecord) (response : CommandResponse) (hash : String)
    → response.body ≢ null
    → r.request_hash ≡ hash
    → replay (complete response r) hash ≡ returned (response, true)
unfolding replay
replay-complete r response hash h same = ground (
  arith,
  eq_iff r.request_hash hash,
  is_null-eq-false response.body h,
  string_entries-header_fields response.headers,
)

is_null-null : (j : Json) → j ≡ null → is_null j ≡ true
is_null-null j e = rw e

is_completed-pending : (s : RecordStatus) → s ≡ pending → is_completed s ≡ false
is_completed-pending s e = rw e

-- A claim of another payload, a pending claim and a `null` body are answered with a conflict.
replay-conflict :
    (r : IdempotencyRecord) (hash : String)
    → (r.request_hash ≢ hash) ⊎ (r.status ≡ pending) ⊎ (r.response_body ≡ null)
    → (detail : String) × (replay r hash ≡ failed (problem_of (conflict detail)))
unfolding replay
replay-conflict r hash why = elim (Bool-cases (str_eq r.request_hash hash)) [
  | inr other ↦ (different_payload.detail, ground arith)
  | inl same ↦ (
    not_replayable.detail,
    ground (
      arith,
      eq_iff r.request_hash hash,
      is_null-null r.response_body,
      is_completed-pending r.status,
    ),
  )
]

module _ (T : IdempotencyTable) {W : Type 0} where
  open T use {Table, find_unique, create, update, delete}

  module _ (key : String) (scope : String → Scope) (hash : String) (t : Table) (log : List W)
      (valid : valid_key key ≡ true) (free : find_unique (scope key) t ≡ none) where
    pub execute-done :
        (ws : List W) (response : CommandResponse)
        → (t' : Table) × (r : IdempotencyRecord) × (execute_command T
              (some key)
              scope
              hash
              (done ws response)
              (t, log)
            ≡ (returned (response, false), (t', log ++ ws)))
          × (find_unique (scope key) t' ≡ some (complete response r))
          × (r.request_hash ≡ hash)
    unfolding execute_command
    execute-done ws response =
        let (r, t', e, found, same, fresh) = T.create_free (scope key) hash t free in
        (
          update r.id (complete response) t',
          r,
          ground arith,
          T.find-update (scope key) (complete response) t' found,
          same,
        )

    pub execute-thrown :
        (e : Failure)
        → (t' : Table) × (execute_command T (some key) scope hash (thrown e) (t, log)
            ≡ (failed e, (t', log)))
          × (find_unique (scope key) t' ≡ none)
    unfolding execute_command
    execute-thrown e =
        let (r, t', made, found, same, fresh) = T.create_free (scope key) hash t free in
        (delete r.id t', ground arith, T.find-delete (scope key) t' found)

pub execute-found :
    (T : IdempotencyTable) {W : Type 0} (key : String) (scope : String → Scope) (hash : String)
    (work : Work W CommandResponse) (t : T.Table) (log : List W)
    → valid_key key ≡ true
    → {r : IdempotencyRecord} → T.find_unique (scope key) t ≡ some r
    → execute_command T (some key) scope hash work (t, log) ≡ (replay r hash, (t, log))
unfolding execute_command
execute-found T key scope hash work t log valid found = ground arith

-- One claim settles what every later request under the key is answered.
module _ (T : IdempotencyTable) {W : Type 0} where
  -- A command under a valid key that is not in the table succeeds, commits its writes and is
  -- answered as new; the same payload sent again, whatever its work would be, is answered with the
  -- same response, marked as replayed, and changes nothing. The response's body is not `null`.
  pub execute-replays :
      (key : String) (scope : String → Scope) (hash : String) (t : T.Table) (log ws : List W)
      (response : CommandResponse) (again : Work W CommandResponse)
      → valid_key key ≡ true
      → T.find_unique (scope key) t ≡ none
      → response.body ≢ null
      → let (first, db) = execute_command T (some key) scope hash (done ws response) (t, log) in
        (first ≡ returned (response, false))
        × (db.1 ≡ log ++ ws)
        × (execute_command T (some key) scope hash again db ≡ (returned (response, true), db))
  execute-replays key scope hash t log ws response again valid free body =
      let (t', r, e, found, same) = execute-done T key scope hash t log valid free ws response in
      rw e (
        refl,
        refl,
        execute-found T key scope hash again t' (log ++ ws) valid found
            ∙ ap (λ (o : Outcome Replayed). (o, (t', log ++ ws)))
                (replay-complete r response hash body same),
      )

  -- A command under a valid key that is not in the table and whose work throws is answered with
  -- that failure, commits nothing and leaves the key free: the next request under it, whatever its
  -- payload, runs and is answered as new when its work succeeds.
  pub execute-thrown_retry :
      (key : String) (scope : String → Scope) (hash hash' : String) (t : T.Table) (log ws : List W)
      (e : Failure) (response : CommandResponse)
      → valid_key key ≡ true
      → T.find_unique (scope key) t ≡ none
      → let (first, db) = execute_command T (some key) scope hash (thrown e) (t, log) in
        let (second, db') = execute_command T (some key) scope hash' (done ws response) db in
        (first ≡ failed e)
        × (db.1 ≡ log)
        × (second ≡ returned (response, false))
        × (db'.1 ≡ log ++ ws)
  execute-thrown_retry key scope hash hash' t log ws e response valid free =
      let (t', made, gone) = execute-thrown T key scope hash t log valid free e in
      let (t'', r, again, found, same) =
        execute-done T key scope hash' t' log valid gone ws response in
      rw made (refl, refl, rw again, rw again)

  -- A valid key that the table already holds with another payload, with a claim that is still
  -- pending, or with a stored response that is `null`, is answered with a conflict; the work is not
  -- run and nothing changes.
  pub execute-conflict :
      (key : String) (scope : String → Scope) (hash : String) (t : T.Table) (log : List W)
      (work : Work W CommandResponse) {r : IdempotencyRecord}
      → valid_key key ≡ true
      → T.find_unique (scope key) t ≡ some r
      → (r.request_hash ≢ hash) ⊎ (r.status ≡ pending) ⊎ (r.response_body ≡ null)
      → (detail : String) × (execute_command T (some key) scope hash work (t, log)
          ≡ (failed (problem_of (conflict detail)), (t, log)))
  execute-conflict key scope hash t log work {r} valid found why =
      let (detail, e) = replay-conflict r hash why in
      (
        detail,
        execute-found T key scope hash work t log valid found
            ∙ ap (λ (o : Outcome Replayed). (o, (t, log))) e,
      )
