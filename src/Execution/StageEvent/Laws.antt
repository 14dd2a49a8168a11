-- ===== src/Execution/StageEvent/Laws.antt =====
-- What a scan does to its batch, on every branch.
use bnpi_pats_api.Base.{
  String, Option, some, true, false, ◌≡◌, refl, arith, List, [], ◌⊎◌, ◌+◌, str_eq, eq_refl,
  Option-cases, Bool-cases, inl, inr, if◌then◌else◌,
}
use bnpi_pats_api.Command.Work.{done, >>=-eq-done}
use bnpi_pats_api.Command.Request.{Request}
use bnpi_pats_api.Command.Audit.{Logged}
use bnpi_pats_api.Command.Idempotency.{CommandResponse}
use bnpi_pats_api.Route.{RouteStep, next_step, of_part}
use bnpi_pats_api.Execution.{
  Batch, Reads, Write, is_closed, is_scrapped, is_held, step_of, stage_of,
}
use bnpi_pats_api.Execution.Effects.{apply_all}
use bnpi_pats_api.Execution.StageEvent.{
  StageEventBody, Fresh, RouteContext, batch_route_context, is_expected, gate_passed,
  pre_route_stage, record_event, stage_event,
}

-- The batch after an accepted scan at the step `e`.
abbrev pub moved : Batch → RouteStep → StageEventBody → Batch
moved b e body = record b {
  current_stage_id = body.stage_id;
  current_sub_stage_id = body.sub_stage_id;
  row_version = b.row_version + 1;
  position = some (record {
    stage_id = body.stage_id;
    sub_stage_id = body.sub_stage_id;
    route_step_id = some e.id;
  });
}

module _ (r : Reads) (req : Request) (fresh : Fresh) (body : StageEventBody) where
  pub record_event-effect :
      (c : RouteContext) (ws : List (Logged Write)) (resp : CommandResponse)
      → record_event r req fresh body c ≡ done ws resp
      → apply_all ws c.batch
        ≡ (if is_expected c.expected body then moved c.batch c.expected body else c.batch)
  unfolding record_event
  record_event-effect c ws resp h = elim (Bool-cases (is_expected c.expected body)) [
    | inl at_step ↦ elim (Option-cases c.batch.position) [
      | inl absent ↦ absurd (ground arith)
      | inr (p, present) ↦ ground (arith, eq_refl c.batch.id)
    ]
    | inr elsewhere ↦ ground (arith, eq_refl c.batch.id)
  ]

  -- A scan that is recorded found its batch neither terminal nor held; one at the expected step
  -- found it before its route, or with a passing verdict at the step that it leaves.
  pub record_event-guards :
      (c : RouteContext) (ws : List (Logged Write)) (resp : CommandResponse)
      → record_event r req fresh body c ≡ done ws resp
      → (is_closed c.batch.status ≡ false)
        × (is_scrapped c.batch.status ≡ false)
        × (is_held c.batch.status ≡ false)
        × (is_expected c.expected body ≡ true
            → (str_eq (stage_of c.batch) pre_route_stage ≡ true) ⊎ (gate_passed r c ≡ true))
  unfolding record_event
  record_event-guards c ws resp h = ground arith

  -- A context that was found is that of the batch, of its parts list's steps for its part, and of
  -- the step expected next on them.
  pub batch_route_context-inv :
      (batch_id : String) (vs : List (Logged Write)) (c : RouteContext)
      → batch_route_context r batch_id ≡ done vs c
      → (vs ≡ [])
        × (r.batch batch_id ≡ some c.batch)
        × (steps : List RouteStep) × (r.parts_list c.batch.parts_list_id ≡ some steps)
        × (c.route_steps ≡ of_part c.batch.part_id steps)
        × (next_step c.route_steps (step_of c.batch) ≡ some c.expected)
  unfolding batch_route_context
  batch_route_context-inv batch_id vs c h = elim (Option-cases (r.batch batch_id)) [
    | inl missing ↦ absurd (ground arith)
    | inr (b, found) ↦ elim (Option-cases (r.parts_list b.parts_list_id)) [
      | inl missing ↦ absurd (ground arith)
      | inr (steps, listed) ↦
          elim (Option-cases (next_step (of_part b.part_id steps) (step_of b))) [
            | inl ended ↦ absurd (ground arith)
            | inr (e, next) ↦
                let context : RouteContext = record {
                  batch = b;
                  route_steps = of_part b.part_id steps;
                  expected = e;
                } in
                let same : (vs ≡ []) × (c ≡ context) = ground arith in
                rw same.1 (same.0, found, steps, listed, refl, next)
          ]
    ]
  ]

-- A command that returned ran its context and then its body, on the batch that was found.
pub stage_event-inv :
    (r : Reads) (req : Request) (fresh : Fresh) (body : StageEventBody) (ws : List (Logged Write))
    (resp : CommandResponse)
    → stage_event r req fresh body ≡ done ws resp
    → (c : RouteContext) × (batch_route_context r body.batch_id ≡ done [] c)
      × (record_event r req fresh body c ≡ done ws resp)
unfolding stage_event
stage_event-inv r req fresh body ws resp h =
    let (vs, c, us, context, rest, joined) =
      >>=-eq-done (batch_route_context r body.batch_id) (record_event r req fresh body) h in
    let none_yet = (batch_route_context-inv r req fresh body body.batch_id vs c context).0 in
    let same : us ≡ ws = rw none_yet at joined in (c, rw (← none_yet) context, rw (← same) rest)

same_batch : {o : Option Batch} {a b : Batch} → o ≡ some a → o ≡ some b → a ≡ b
same_batch p q = cc

-- What a recorded scan, in the context `c`, has to do with the batch `b` that it found and the batch
-- `b'` that it leaves.
pub record Scanned (r : Reads) (body : StageEventBody) (c : RouteContext) (b b' : Batch)
    : Type 0 where
  pub of_batch : c.batch ≡ b
  pub steps : List RouteStep
  pub listed : r.parts_list b.parts_list_id ≡ some steps
  pub route : c.route_steps ≡ of_part b.part_id steps
  pub expects : next_step (of_part b.part_id steps) (step_of b) ≡ some c.expected
  pub effect : b' ≡ (if is_expected c.expected body then moved b c.expected body else b)
  pub not_closed : is_closed b.status ≡ false
  pub not_scrapped : is_scrapped b.status ≡ false
  pub not_held : is_held b.status ≡ false
  pub gate :
      is_expected c.expected body ≡ true
      → (str_eq (stage_of b) pre_route_stage ≡ true) ⊎ (gate_passed r c ≡ true)

-- A scan that returned, of the batch `b`, ran in a context in which `Scanned` holds of `b` and of what
-- its writes make of `b`: the context's steps are those of the batch's parts list for its part, and its
-- step is the next one on them; the batch moves to the scanned stage and that step if the scan is there, and is left alone if not; it
-- was neither closed, scrapped nor held, and it moved only from before its route or with a PASSED
-- verdict at the step, of those steps, that it leaves.
pub stage_event-Scanned :
    (r : Reads) (req : Request) (fresh : Fresh) (body : StageEventBody) (ws : List (Logged Write))
    (resp : CommandResponse) {b : Batch}
    → r.batch body.batch_id ≡ some b
    → stage_event r req fresh body ≡ done ws resp
    → (c : RouteContext) × Scanned r body c b (apply_all ws b)
stage_event-Scanned r req fresh body ws resp {b} found ok =
    let (c, context, run) = stage_event-inv r req fresh body ws resp ok in
    let (_, own, steps, listed, on_part, next) =
      batch_route_context-inv r req fresh body body.batch_id [] c context in
    let same : c.batch ≡ b = same_batch own found in
    let effect = record_event-effect r req fresh body c ws resp run in
    let (open_one, open_two, open_three, gate) =
      record_event-guards r req fresh body c ws resp run in
    (
      c,
      record {
        of_batch = same;
        steps = steps;
        listed = rw (← same) listed;
        route = rw (← same) on_part;
        expects = rw (← same) (rw (← on_part) next);
        effect = rw (← same) effect;
        not_closed = rw (← same) open_one;
        not_scrapped = rw (← same) open_two;
        not_held = rw (← same) open_three;
        gate = rw (← same) gate;
      },
    )
