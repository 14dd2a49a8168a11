-- ===== src/Execution/Quality/Laws.antt =====
-- What a verdict does to the inspected batch and when it is refused.
use bnpi_pats_api.Base.{
  ℕ, String, ◌==◌, ==_iff, ◌≢◌, ◌↔◌, inl, inr, some, true, false, ◌≡◌, arith, List, ◌+◌, eq_iff,
  includes, if◌then◌else◌,
}
use bnpi_pats_api.Command.Work.{done, thrown, Work-cases}
use bnpi_pats_api.Command.Problem.{Failure}
use bnpi_pats_api.Command.Request.{Request, actor_id}
use bnpi_pats_api.Command.Audit.{Logged}
use bnpi_pats_api.Command.Idempotency.{CommandResponse}
use bnpi_pats_api.Execution.{Batch, Reads, Write, Inspection, Decision, held, is_passed}
use bnpi_pats_api.Execution.Effects.{apply_all}
use bnpi_pats_api.Execution.Quality.{is_finished, decide_inspection}

-- A batch under quarantine.
abbrev pub quarantined : Batch → Batch
quarantined b = record b { status = held; row_version = b.row_version + 1 }

module _ (r : Reads) (req : Request) (fresh_id now inspection_id : String) (version : ℕ)
    (d : Decision) (ws : List (Logged Write)) (resp : CommandResponse) {i : Inspection}
    (found : r.inspection inspection_id ≡ some i)
    (ok : decide_inspection r req fresh_id now inspection_id version d ≡ done ws resp) where
  -- A verdict on an inspection of the batch leaves the batch alone if it is PASSED and quarantines
  -- it if not, whatever the status of the batch.
  pub decide-effect :
      (b : Batch)
      → i.batch_id ≡ b.id
      → apply_all ws b ≡ (if is_passed (some d) then b else quarantined b)
  unfolding decide_inspection
  decide-effect b own = ground (arith, eq_iff i.batch_id b.id)

  -- A verdict was given by a subject whose stages include the inspection's, at the version that
  -- the inspection has, while the inspection was open or on hold.
  pub decide-guards :
      (includes (r.allowed_stages (actor_id req)) i.stage_id ≡ true)
      × (i.row_version ≡ version)
      × (is_finished i.status ≡ false)
  unfolding decide_inspection
  decide-guards = ground arith

decide-not_thrown :
    (r : Reads) (req : Request) (fresh_id now inspection_id : String) (version : ℕ) (d : Decision)
    (e : Failure) {i : Inspection}
    → r.inspection inspection_id ≡ some i
    → includes (r.allowed_stages (actor_id req)) i.stage_id ≡ true
    → (i.row_version == version) ≡ true
    → is_finished i.status ≡ false
    → decide_inspection r req fresh_id now inspection_id version d ≢ thrown e
unfolding decide_inspection
decide-not_thrown r req fresh_id now inspection_id version d e found allowed current unfinished
      refused =
    ground arith

-- A verdict on an inspection that is found is recorded exactly when the subject is assigned to the
-- inspection's stage, the inspection is at the version that the client read, and it is neither
-- completed nor cancelled: nothing is asked of the batch.
pub decide_iff :
    (r : Reads) (req : Request) (fresh_id now inspection_id : String) (version : ℕ) (d : Decision)
    {i : Inspection}
    → r.inspection inspection_id ≡ some i
    → ((ws : List (Logged Write)) × (resp : CommandResponse) × (decide_inspection r req fresh_id now
            inspection_id version d
          ≡ done ws resp))
      ↔ ((includes (r.allowed_stages (actor_id req)) i.stage_id ≡ true)
          × (i.row_version ≡ version)
          × (is_finished i.status ≡ false))
decide_iff r req fresh_id now inspection_id version d {i} found = (
  (λ decided.
      let (ws, resp, ok) = decided in
      decide-guards r req fresh_id now inspection_id version d ws resp found ok),
  (λ h. elim (Work-cases (decide_inspection r req fresh_id now inspection_id version d)) [
    | inl returned ↦ returned
    | inr (e, refused) ↦ absurd (
        decide-not_thrown r req fresh_id now inspection_id version d e found h.0
          ((==_iff i.row_version version).1 h.1) h.2 refused)
  ]),
)
