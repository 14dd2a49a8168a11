-- ===== src/Floor/Lines/Laws.antt =====
-- Retiring a line.
use bnpi_pats_api.Base.{
  String, List, [], ◌∷◌, none, some, false, ◌≡◌, ◌+◌, refl, ◌∙◌, arith, str_eq, eq_iff, find-passes,
}
use bnpi_pats_api.Base.Decimal.{quoted}
use bnpi_pats_api.Base.Json.{bool, str, nat, end, field, object}
use bnpi_pats_api.Command.Audit.{record_command_success}
use bnpi_pats_api.Command.Request.{Request, header_version, require_if_match}
use bnpi_pats_api.Command.Idempotency.{CommandResponse}
use bnpi_pats_api.Floor.{
  Floor, Line, OperatorAssignment, database, ok, line_of, count, update_many, delete_many, add_log,
  written, find-update_many, find-deleted, any-deleted, any-updated, count-any,
}
use bnpi_pats_api.Floor.Lines.{
  current_line, disabled, has_line_id, is_active_on, is_on, end_at, is_published_to, unlined,
  update_line, disable_line, delete_line,
}

-- The line is found, at the version that the client sends.
current_line-found :
    (req : Request) (id : String) (s : Floor) (l : Line)
    → line_of s.lines id ≡ some l
    → header_version req.if_match ≡ some l.row_version
    → current_line req id (database s) ≡ ok l (database s)
unfolding current_line require_if_match
current_line-found req id s l there sent = ground arith

-- The tables that the disabling of a line leaves.
abbrev after_disable : Request → String → String → Line → Floor → Floor
after_disable req now id l s =
    add_log
      (written (
        record_command_success req "LINE_DISABLED" "Line" id
          (field "lineCode" (str l.line_code) end)))
      (update_line id disabled
        (record s { assignments = update_many (is_active_on id) (end_at now) s.assignments }))

abbrev pub after_delete : Request → String → Line → Floor → Floor
after_delete req id l s =
    add_log
      (written (
        record_command_success req "LINE_DELETED" "Line" id
          (field "lineCode" (str l.line_code) end)))
      (record s {
        assignments = delete_many (is_on id) s.assignments;
        lines = delete_many (has_line_id id) s.lines;
        batches = update_many (is_published_to id) unlined s.batches;
      })

disable_line-found :
    (req : Request) (now id : String) (s : Floor) (l : Line)
    → line_of s.lines id ≡ some l
    → header_version req.if_match ≡ some l.row_version
    → (r : CommandResponse) × (disable_line req now id (database s)
        ≡ ok r (database (after_disable req now id l s)))
unfolding disable_line
disable_line-found req now id s l there sent = (
  record {
    status = 200;
    body = object (
        field "lineId" (str id) (
          field "lineCode" (str l.line_code)
            (field "isEnabled" (bool false) (field "rowVersion" (nat (l.row_version + 1)) end))));
    headers = ("ETag", quoted (l.row_version + 1)) ∷ [];
  },
  ground (arith, current_line-found req id s l there sent),
)

pub delete_line-found :
    (req : Request) (id : String) (s : Floor) (l : Line)
    → line_of s.lines id ≡ some l
    → header_version req.if_match ≡ some l.row_version
    → count (is_active_on id) s.assignments ≡ 0
    → l.is_enabled ≡ false
    → (r : CommandResponse) × (delete_line req id (database s)
        ≡ ok r (database (after_delete req id l s)))
unfolding delete_line
delete_line-found req id s l there sent idle off = (
  record {
    status = 200;
    body = object (field "lineId" (str id) (field "lineCode" (str l.line_code) end));
    headers = [];
  },
  ground (arith, current_line-found req id s l there sent),
)

ended_not_active :
    (id now : String) (rows : List OperatorAssignment)
    → count (is_active_on id) (update_many (is_active_on id) (end_at now) rows) ≡ 0
ended_not_active id now rows =
    count-any (is_active_on id) (update_many (is_active_on id) (end_at now) rows)
      (any-updated (is_active_on id) (end_at now) (λ a. ground arith) rows)

-- Whatever its operators do, a line can be removed for good: disabling it at the version that the
-- client read succeeds, and then deleting it at the next version does; neither the line nor an
-- assignment on it is left.
pub retire_line :
    (req req' : Request) (now id : String) (s : Floor) {l : Line}
    → line_of s.lines id ≡ some l
    → header_version req.if_match ≡ some l.row_version
    → header_version req'.if_match ≡ some (l.row_version + 1)
    → (r r' : CommandResponse) × (t u : Floor) × (disable_line req now id (database s)
        ≡ ok r (database t))
      × (delete_line req' id (database t) ≡ ok r' (database u))
      × (line_of u.lines id ≡ none)
      × (count (is_on id) u.assignments ≡ 0)
retire_line req req' now id s {l} there sent sent' =
    let t = after_disable req now id l s in
    let l_id : l.id ≡ id = (eq_iff l.id id).0 (find-passes (λ x. str_eq x.id id) s.lines l there) in
    let still : line_of t.lines id ≡ some (disabled l) =
      find-update_many (λ x. str_eq x.id id) (has_line_id id) disabled (λ x. refl) s.lines l there
      ∙ ground (arith, eq_iff l.id id) in
    let (r, first) = disable_line-found req now id s l there sent in
    let (r', second) =
      delete_line-found req' id t (disabled l) still sent' (ended_not_active id now s.assignments)
        refl in
    (
      r,
      r',
      t,
      after_delete req' id (disabled l) t,
      first,
      second,
      find-deleted (has_line_id id) t.lines,
      count-any (is_on id) (delete_many (is_on id) t.assignments)
          (any-deleted (is_on id) t.assignments),
    )
