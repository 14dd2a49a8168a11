-- ===== src/Printing/Jobs/Laws.antt =====
-- The numbers that labels carry, and where they send a pack.
use mathlib.Core.List.{append-nil}
use bnpi_pats_api.Base.{
  ℕ, zero, suc, ◌+◌, ◌∙◌, String, List, [], ◌∷◌, ◌++◌, Option, none, some, true, false, ◌≡◌, refl,
  ap, arith, eq_iff, inl, inr, Option-cases, if◌then◌else◌,
}
use bnpi_pats_api.Command.Problem.{problem_of, conflict}
use bnpi_pats_api.Command.Work.{done, thrown}
use bnpi_pats_api.Command.Idempotency.{returned}
use bnpi_pats_api.Command.Request.{Request}
use bnpi_pats_api.Route.{RouteStep, next_step, route_complete, of_part, is_nil}
use bnpi_pats_api.Execution.{Reads, step_of}
use bnpi_pats_api.Execution.StageEvent.{batch_route_context}
use bnpi_pats_api.Execution.Resolve.Agreement.{context-expects, context-ended}
use bnpi_pats_api.Floor.{count, count-append}
use bnpi_pats_api.Printing.{Station}
use bnpi_pats_api.Printing.Jobs.{
  Desk, PrintJob, is_of, next_of, step_stage, printed, record_print_job,
}
use bnpi_pats_api.Printing.Label.{PrintJobBody, PrintJobBatch}

abbrev pub numbers_of : String → String → List PrintJob → List ℕ
numbers_of batch_id section_id [] = []
numbers_of batch_id section_id (j ∷ jobs) =
    let rest = numbers_of batch_id section_id jobs in
    if is_of batch_id section_id j then j.sequence ∷ rest else rest

-- 1, 2, …, n
abbrev pub up_to : ℕ → List ℕ
up_to zero = []
up_to (suc n) = up_to n ++ suc n ∷ []

-- The labels of a batch at a station are numbered 1, 2, … in the order of their printing.
abbrev pub IsNumbered : List PrintJob → Type 0
IsNumbered jobs =
    (batch_id section_id : String)
    → numbers_of batch_id section_id jobs ≡ up_to (count (is_of batch_id section_id) jobs)

numbers_of-append :
    (batch_id section_id : String) (jobs : List PrintJob) (j : PrintJob)
    → numbers_of batch_id section_id (jobs ++ j ∷ [])
      ≡ numbers_of batch_id section_id jobs ++ numbers_of batch_id section_id (j ∷ [])
numbers_of-append batch_id section_id [] j = refl
numbers_of-append batch_id section_id (x ∷ jobs) j =
    ground (arith, numbers_of-append batch_id section_id jobs j)

print-job :
    (desk : Desk) (req : Request) (now id : String) (body : PrintJobBody) (jobs t : List PrintJob)
    (job : PrintJob)
    → record_print_job desk req now id body jobs ≡ returned (job, t)
    → (station : Station) × (b : PrintJobBatch) × (desk.batch body.batch_id ≡ some b)
      × (job ≡ printed desk req now id body station b jobs)
      × (t ≡ jobs ++ job ∷ [])
unfolding record_print_job
print-job desk req now id body jobs t job ok = elim (Option-cases (desk.station body.section_id)) [
  | inl missing ↦ ground arith
  | inr (station, at) ↦ elim (Option-cases (desk.batch body.batch_id)) [
    | inl missing ↦ ground arith
    | inr (b, found) ↦ (station, b, found, ground arith, ground arith)
  ]
]

printed-sequence :
    (desk : Desk) (req : Request) (now id : String) (body : PrintJobBody) (station : Station)
    (b : PrintJobBatch) (jobs : List PrintJob)
    → let job = printed desk req now id body station b jobs in
      (job.sequence ≡ count (is_of job.batch_id job.section_id) jobs + 1)
      × (job.to_stage_id ≡ step_stage (next_of desk b))
unfolding printed
printed-sequence desk req now id body station b jobs = (refl, refl)

up_to-next : (m n : ℕ) → n ≡ m + 1 → up_to m ++ n ∷ [] ≡ up_to (m + 1)
up_to-next m n next = rw (next, succ) refl
  where
    succ : m + 1 ≡ suc m
    succ = omega arith

of_pair :
    (jobs : List PrintJob) (j : PrintJob)
    → j.sequence ≡ count (is_of j.batch_id j.section_id) jobs + 1
    → (batch_id section_id : String) → is_of batch_id section_id j ≡ true
    → j.sequence ≡ count (is_of batch_id section_id) jobs + 1
of_pair jobs j next batch_id section_id own =
    let same_batch : j.batch_id ≡ batch_id = ground (arith, eq_iff j.batch_id batch_id) in
    let same_section : j.section_id ≡ section_id = ground (arith, eq_iff j.section_id section_id) in
    next
    ∙ ap (λ b. count (is_of b j.section_id) jobs + 1) same_batch
    ∙ ap (λ k. count (is_of batch_id k) jobs + 1) same_section

numbers_of-last :
    (jobs : List PrintJob) (j : PrintJob)
    → IsNumbered jobs
    → j.sequence ≡ count (is_of j.batch_id j.section_id) jobs + 1
    → IsNumbered (jobs ++ j ∷ [])
numbers_of-last jobs j numbered next batch_id section_id = ground (
  arith,
  numbers_of-append batch_id section_id jobs j,
  count-append (is_of batch_id section_id) jobs (j ∷ []),
  numbered batch_id section_id,
  of_pair jobs j next batch_id section_id,
  up_to-next (count (is_of batch_id section_id) jobs) j.sequence,
  append-nil (up_to (count (is_of batch_id section_id) jobs)),
)

-- If the labels of each batch at each station are numbered 1, 2, 3 and so on in the order of their
-- printing, they still are after another label or a reprint is recorded: it has the next number.
pub record_print_job-IsNumbered :
    (desk : Desk) (req : Request) (now id : String) (body : PrintJobBody) (jobs t : List PrintJob)
    (job : PrintJob)
    → IsNumbered jobs
    → record_print_job desk req now id body jobs ≡ returned (job, t)
    → IsNumbered t
record_print_job-IsNumbered desk req now id body jobs t job numbered ok =
    let (station, b, _, same, wrote) = print-job desk req now id body jobs t job ok in
    rw (wrote, same)
      (numbers_of-last jobs (printed desk req now id body station b jobs) numbered
        (printed-sequence desk req now id body station b jobs).0)

job-to_stage :
    (desk : Desk) (req : Request) (now id : String) (body : PrintJobBody) (jobs t : List PrintJob)
    (job : PrintJob) {b : PrintJobBatch} {steps : List RouteStep}
    → record_print_job desk req now id body jobs ≡ returned (job, t)
    → desk.batch body.batch_id ≡ some b
    → desk.routing_steps b.found.batch.parts_list_id b.found.batch.part_id ≡ steps
    → job.to_stage_id ≡ step_stage (next_step steps (step_of b.found.batch))
job-to_stage desk req now id body jobs t job {b} {steps} ok found same =
    let (station, b', found', made, _) = print-job desk req now id body jobs t job ok in
    let other : b' ≡ b = ground (arith, found, found') in
    let own = (printed-sequence desk req now id body station b' jobs).1 in
    ap (λ (j : PrintJob). j.to_stage_id) made
    ∙ own
    ∙ ap (λ (x : PrintJobBatch). step_stage (next_of desk x)) other
    ∙ ap (λ (xs : List RouteStep). step_stage (next_step xs (step_of b.found.batch))) same

ended :
    (steps : List RouteStep) (current : Option String)
    → next_step steps current ≡ none
    → is_nil steps ≡ false
    → route_complete steps current ≡ true
unfolding route_complete
ended steps current none_left some_step = ground arith

-- A recorded print job sends its label where the routing sends the pack: if it names a next stage, a
-- scan of the batch runs in a context that expects a step at that stage, and if it names none, a
-- scan of the batch is refused as having no step left. The job's query of the steps returns those
-- of the batch's part, at least one, in the parts list that the scan reads.
pub record_print_job-agrees :
    (desk : Desk) (req : Request) (now id : String) (body : PrintJobBody) (jobs t : List PrintJob)
    (job : PrintJob) {b : PrintJobBatch} {steps : List RouteStep} (r : Reads)
    → record_print_job desk req now id body jobs ≡ returned (job, t)
    → desk.batch body.batch_id ≡ some b
    → r.batch b.found.batch.id ≡ some b.found.batch
    → r.parts_list b.found.batch.parts_list_id ≡ some steps
    → desk.routing_steps b.found.batch.parts_list_id b.found.batch.part_id
      ≡ of_part b.found.batch.part_id steps
    → is_nil (of_part b.found.batch.part_id steps) ≡ false
    → ((stage_id : String)
        → job.to_stage_id ≡ some stage_id
        → (e : RouteStep) × (e.stage_id ≡ stage_id)
          × (batch_route_context r b.found.batch.id
              ≡ done [] (record {
                batch = b.found.batch;
                route_steps = of_part b.found.batch.part_id steps;
                expected = e;
              })))
      × (job.to_stage_id ≡ none
          → batch_route_context r b.found.batch.id
            ≡ thrown (problem_of (conflict "The batch has no remaining forward route step.")))
record_print_job-agrees desk req now id body jobs t job {b} {steps} r ok found stored listed same
      some_step =
    let own = of_part b.found.batch.part_id steps in
    let to = job-to_stage desk req now id body jobs t job ok found same in
    elim (Option-cases (next_step own (step_of b.found.batch))) [
      | inl none_left ↦ (
        (λ stage_id shown. absurd (none_shown none_left to shown)),
        (λ _.
            context-ended r b.found.batch steps stored listed
              (ended own (step_of b.found.batch) none_left some_step)),
      )
      | inr (e, next) ↦ (
        (λ stage_id shown. (
          e,
          stage_shown next to shown,
          context-expects r b.found.batch steps e stored listed next,
        )),
        (λ hidden. absurd (stage_hidden next to hidden)),
      )
    ]
  where
    none_shown :
        {o : Option RouteStep} {stage_id : String}
        → o ≡ none
        → job.to_stage_id ≡ step_stage o
        → job.to_stage_id ≡ some stage_id
        → ⊥
    none_shown gone to shown = ground arith

    stage_shown :
        {o : Option RouteStep} {e : RouteStep} {stage_id : String}
        → o ≡ some e
        → job.to_stage_id ≡ step_stage o
        → job.to_stage_id ≡ some stage_id
        → e.stage_id ≡ stage_id
    stage_shown there to shown = ground arith

    stage_hidden :
        {o : Option RouteStep} {e : RouteStep}
        → o ≡ some e
        → job.to_stage_id ≡ step_stage o
        → job.to_stage_id ≡ none
        → ⊥
    stage_hidden there to hidden = ground arith
