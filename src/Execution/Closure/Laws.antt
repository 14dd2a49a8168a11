-- ===== src/Execution/Closure/Laws.antt =====
-- What closes a batch.
use bnpi_pats_api.Base.{
  String, some, true, false, ◌≡◌, refl, arith, List, ◌+◌, eq_refl, ◌↔◌, ◌||◌, inl, inr,
}
use bnpi_pats_api.Command.Work.{done, Work-cases}
use bnpi_pats_api.Command.Request.{Request}
use bnpi_pats_api.Command.Audit.{Logged}
use bnpi_pats_api.Command.Idempotency.{CommandResponse}
use bnpi_pats_api.Route.{current_step, route_remains}
use bnpi_pats_api.Execution.{
  Batch, Reads, Write, BatchStatus, planned, active, held, closed, scrapped, is_closed, is_scrapped,
  step_of, verdict, is_active, is_passed,
}
use bnpi_pats_api.Execution.Effects.{apply_all}
use bnpi_pats_api.Execution.Closure.{inspection_at, close_batch, is_nil}

abbrev pub finished : Batch → Batch
finished b = record b { status = closed; row_version = b.row_version + 1 }

module _ (r : Reads) (req : Request) (batch_id : String) (ws : List (Logged Write))
    (resp : CommandResponse) {b : Batch} (found : r.batch batch_id ≡ some b)
    (ok : close_batch r req batch_id ≡ done ws resp) where
  pub close-effect : apply_all ws b ≡ finished b
  unfolding close_batch
  close-effect = ground (arith, eq_refl b.id)

  -- A batch that was closed was active, had no route step left, and the newest inspection at its
  -- last step had a PASSED verdict.
  pub close-guards :
      (is_active b.status ≡ true)
      × (route_remains (r.routing_steps b.parts_list_id b.part_id) (step_of b) ≡ false)
      × (is_passed (
            verdict (
              inspection_at r b.id
                (current_step (r.routing_steps b.parts_list_id b.part_id) (step_of b))))
          ≡ true)
  unfolding close_batch
  close-guards = ground arith

close-routed :
    (r : Reads) (req : Request) (batch_id : String) (ws : List (Logged Write))
    (resp : CommandResponse) {b : Batch}
    → r.batch batch_id ≡ some b
    → close_batch r req batch_id ≡ done ws resp
    → is_nil (r.routing_steps b.parts_list_id b.part_id) ≡ false
unfolding close_batch
close-routed r req batch_id ws resp found ok = ground arith

not_terminal : (s : BatchStatus) → is_active s ≡ true → (is_closed s || is_scrapped s) ≡ false
not_terminal active h = refl
not_terminal planned h = cc
not_terminal held h = cc
not_terminal closed h = cc
not_terminal scrapped h = cc

close-done :
    (r : Reads) (req : Request) (batch_id : String) {b : Batch}
    → r.batch batch_id ≡ some b
    → let steps = r.routing_steps b.parts_list_id b.part_id in
      (is_active b.status ≡ true)
        × (is_nil steps ≡ false)
        × (route_remains steps (step_of b) ≡ false)
        × (is_passed (verdict (inspection_at r b.id (current_step steps (step_of b)))) ≡ true)
      → (ws : List (Logged Write)) × (resp : CommandResponse) × (close_batch r req batch_id
          ≡ done ws resp)
        × (apply_all ws b ≡ finished b)
close-done r req batch_id {b} found guards = elim (Work-cases (close_batch r req batch_id)) [
  | inl (ws, resp, ok) ↦ (ws, resp, ok, close-effect r req batch_id ws resp found ok)
  | inr (e, refused) ↦ absurd (unfold close_batch in ground (arith, not_terminal b.status guards.0))
]

-- A batch that is found is closed exactly when it is active, its part has a route, no step of it
-- remains, and the newest inspection at its last step has a PASSED verdict; closing sets its status
-- and its version and nothing else of it.
pub close_iff :
    (r : Reads) (req : Request) (batch_id : String) {b : Batch}
    → r.batch batch_id ≡ some b
    → let steps = r.routing_steps b.parts_list_id b.part_id in
      ((ws : List (Logged Write)) × (resp : CommandResponse) × (close_batch r req batch_id
          ≡ done ws resp)
        × (apply_all ws b ≡ finished b))
      ↔ ((is_active b.status ≡ true)
          × (is_nil steps ≡ false)
          × (route_remains steps (step_of b) ≡ false)
          × (is_passed (verdict (inspection_at r b.id (current_step steps (step_of b)))) ≡ true))
close_iff r req batch_id {b} found = (
  (λ closing.
      let (ws, resp, ok, _) = closing in
      let (is, ended, gate) = close-guards r req batch_id ws resp found ok in
      (is, close-routed r req batch_id ws resp found ok, ended, gate)),
  (λ guards. close-done r req batch_id found guards),
)
