-- ===== src/Command/Idempotency/Retries.antt =====
-- Any number of requests that carry one Idempotency-Key commit the writes of one command at most.
use bnpi_pats_api.Base.{String, List, [], ◌∷◌, ◌++◌, none, some, true, ◌≡◌, refl, sym, ap, ◌∙◌}
use mathlib.Core.List.{append-nil}
use bnpi_pats_api.Command.Work.{Work, done, thrown}
use bnpi_pats_api.Command.Idempotency.{
  IdempotencyTable, IdempotencyRecord, Scope, CommandResponse, Database, valid_key, execute_command,
  Outcome, Replayed,
}
use bnpi_pats_api.Command.Idempotency.Laws.{execute-found, execute-done, execute-thrown}

-- A request under the key: the hash of its body and the work that its handler would do.
abbrev pub Request : Type 0 → Type 0
Request W = String × Work W CommandResponse

module _ {W : Type 0} where
  -- The writes of the first request whose work succeeds.
  abbrev pub first_done : List (Request W) → List W
  first_done [] = []
  first_done ((hash, done ws response) ∷ rs) = ws
  first_done ((hash, thrown e) ∷ rs) = first_done rs

module _ (T : IdempotencyTable) {W : Type 0} (key : String) (scope : String → Scope) where
  -- The requests in the order in which the database serves them.
  abbrev pub execute_all : List (Request W) → Database T W → Database T W
  execute_all [] db = db
  execute_all ((hash, work) ∷ rs) db =
      execute_all rs (execute_command T (some key) scope hash work db).1

  -- Once the key is in the table, no request under it writes anything.
  execute_all-found :
      (rs : List (Request W)) (t : T.Table) (log : List W)
      → valid_key key ≡ true
      → {r : IdempotencyRecord} → T.find_unique (scope key) t ≡ some r
      → execute_all rs (t, log) ≡ (t, log)
  execute_all-found [] t log valid found = refl
  execute_all-found ((hash, work) ∷ rs) t log valid found =
      ap (λ (o : Outcome Replayed × Database T W). (execute_all rs o.1))
        (execute-found T key scope hash work t log valid found)
      ∙ execute_all-found rs t log valid found

  -- From a table without the key, the requests under a valid key commit exactly the writes of the
  -- first whose work succeeds, each once, and nothing if none succeeds.
  pub execute_all-once :
      (rs : List (Request W)) (t : T.Table) (log : List W)
      → valid_key key ≡ true
      → T.find_unique (scope key) t ≡ none
      → (execute_all rs (t, log)).1 ≡ log ++ first_done rs
  execute_all-once [] t log valid free = sym (append-nil log)
  execute_all-once ((hash, done ws response) ∷ rs) t log valid free =
      let (t', r, e, found, same) = execute-done T key scope hash t log valid free ws response in
      ap (λ (o : Outcome Replayed × Database T W). (execute_all rs o.1).1) e
      ∙ ap (λ (db : Database T W). db.1) (execute_all-found rs t' (log ++ ws) valid found)
  execute_all-once ((hash, thrown failure) ∷ rs) t log valid free =
      let (t', e, gone) = execute-thrown T key scope hash t log valid free failure in
      ap (λ (o : Outcome Replayed × Database T W). (execute_all rs o.1).1) e
      ∙ execute_all-once rs t' log valid gone
