-- ===== src/Canonical/Idempotency/Laws.antt =====
-- A catalogue write and its retries.
use bnpi_pats_api.Base.{String, none, some, true, false, ◌≡◌, ◌≢◌, refl, ap, ◌∙◌, arith, eq_iff}
use bnpi_pats_api.Base.Json.{Json, null, string_entries-header_fields}
use bnpi_pats_api.Command.Problem.{Failure}
use bnpi_pats_api.Command.Idempotency.{CommandResponse, Scope, valid_key, is_null}
use bnpi_pats_api.Canonical.Idempotency.{
  CatalogRecord, CatalogTable, Reservation, existing, reservation_of, persisted, Attempt, answered,
  raised, replied, rethrown, reserve, finish, settle, execute_idempotently,
}

is_null-eq-false : (j : Json) → j ≢ null → is_null j ≡ false
is_null-eq-false null h = absurd (h refl)
is_null-eq-false _ h = refl

reservation_of-persisted :
    (r : CatalogRecord) (response : CommandResponse) (hash : String)
    → response.body ≢ null
    → r.request_hash ≡ hash
    → reservation_of (some (persisted response r)) hash ≡ existing response r.request_hash
unfolding reservation_of
reservation_of-persisted r response hash body same = ground (
  arith,
  eq_iff r.request_hash hash,
  is_null-eq-false response.body body,
  string_entries-header_fields response.headers,
)

module _ (T : CatalogTable) {S : Type 0} where
  open T use {Table, find_unique, create, update, delete}

  module _ (key : String) (scope : String → Scope) (hash : String) (execute : S → Attempt × S)
      (t : Table) (s : S) (valid : valid_key key ≡ true) where
    execute-free :
        find_unique (scope key) t ≡ none
        → (r : CatalogRecord) × (t' : Table) × (execute_idempotently T
              (some key)
              scope
              hash
              execute
              (t, s)
            ≡ finish T r.id (execute s) t')
          × (find_unique (scope key) t' ≡ some r)
          × (r.request_hash ≡ hash)
    unfolding execute_idempotently settle reserve
    execute-free free =
        let (r, t', made, found, same, fresh) = T.create_free (scope key) hash t free in
        (r, t', ground arith, found, same)

    execute-taken :
        {r : CatalogRecord}
        → find_unique (scope key) t ≡ some r
        → execute_idempotently T (some key) scope hash execute (t, s)
          ≡ settle T hash execute s (reservation_of (some r) hash, t)
    unfolding execute_idempotently reserve
    execute-taken {r} found = ground (arith, T.create_taken (scope key) hash t found)

  finish-answered :
      (id : String) (t : Table) (response : CommandResponse) {a : Attempt × S} {s : S}
      → a ≡ (answered response, s)
      → finish T id a t ≡ (replied response false, (update id (persisted response) t, s))
  unfolding finish
  finish-answered id t response ran = rw ran refl

  settle-existing :
      (hash : String) (execute : S → Attempt × S) (s : S) (t : Table) (response : CommandResponse)
      {stored : String}
      → stored ≡ hash
      → settle T hash execute s (existing response stored, t) ≡ (replied response true, (t, s))
  unfolding settle
  settle-existing hash execute s t response {stored} same = ground (arith, eq_iff stored hash)

  -- A catalogue write under a valid key that is not in the table and that answers is answered as
  -- new; the same payload sent again, whatever its write would do, is answered with the same
  -- response, marked as replayed, and changes neither the claims nor the data. The response's body is
  -- not `null`.
  pub execute_idempotently-replays :
      (key : String) (scope : String → Scope) (hash : String) (execute again : S → Attempt × S)
      (t : Table) (s s' : S) (response : CommandResponse)
      → valid_key key ≡ true
      → find_unique (scope key) t ≡ none
      → execute s ≡ (answered response, s')
      → response.body ≢ null
      → let (first, db) = execute_idempotently T (some key) scope hash execute (t, s) in
        (first ≡ replied response false)
        × (db.1 ≡ s')
        × (execute_idempotently T (some key) scope hash again db ≡ (replied response true, db))
  execute_idempotently-replays key scope hash execute again t s s' response valid free ran body =
      let (r, t', first, found, same) = execute-free key scope hash execute t s valid free in
      let stored = T.find-update (scope key) (persisted response) t' found in
      let t'' = update r.id (persisted response) t' in
      let ended : execute_idempotently T (some key) scope hash execute (t, s)
          ≡ (replied response false, (t'', s')) =
        first ∙ finish-answered r.id t' response ran in
      rw ended (
        refl,
        refl,
        execute-taken key scope hash again t'' s' valid stored
            ∙ ap (λ (v : Reservation). settle T hash again s' (v, t''))
                (reservation_of-persisted r response hash body same)
            ∙ settle-existing hash again s' t'' response same,
      )

  -- A catalogue write under a valid key that is not in the table and that throws passes its failure
  -- on and leaves the key free.
  pub execute_idempotently-raised :
      (key : String) (scope : String → Scope) (hash : String) (execute : S → Attempt × S)
      (t : Table) (s s' : S) (e : Failure)
      → valid_key key ≡ true
      → find_unique (scope key) t ≡ none
      → execute s ≡ (raised e, s')
      → let (first, db) = execute_idempotently T (some key) scope hash execute (t, s) in
        (first ≡ rethrown e) × (find_unique (scope key) db.0 ≡ none)
  unfolding finish
  execute_idempotently-raised key scope hash execute t s s' e valid free ran =
      let (r, t', first, found, same) = execute-free key scope hash execute t s valid free in
      let ended : execute_idempotently T (some key) scope hash execute (t, s)
          ≡ (rethrown e, (delete r.id t', s')) =
        first ∙ rw ran refl in
      rw ended (refl, T.find-delete (scope key) t' found)
