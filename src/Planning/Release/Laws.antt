-- ===== src/Planning/Release/Laws.antt =====
-- The tests that a release makes before it writes.
use bnpi_pats_api.Base.{
  ℕ, String, List, [], ◌∷◌, some, Bool, true, false, ◌≡◌, refl, any, arith, ==_iff, Option-cases,
  inl, inr,
}
use bnpi_pats_api.Command.Work.{done}
use bnpi_pats_api.Command.Request.{Request}
use bnpi_pats_api.Command.Audit.{Logged}
use bnpi_pats_api.Planning.{Project, Lot, PlanReads, PlanWrite, is_draft}
use bnpi_pats_api.Planning.CycleTimes.{missing_cycle_times}
use bnpi_pats_api.Planning.Release.{is_nil, is_orphan, gate_route, release_gate}

-- The tests of the release's gate, as the code makes them.
pub record Passes (r : PlanReads) (p : Project) (version : ℕ) : Type 0 where
  pub current : p.row_version ≡ version
  pub drafted : is_draft p.status ≡ true
  pub required : is_nil (r.requirements p.id) ≡ false
  pub with_parts : is_nil (r.parts p.id) ≡ false
  pub none_orphan : any (is_orphan (r.requirements p.id)) (r.parts p.id) ≡ false
  pub lot : Lot
  pub with_lot : r.lot_of p.id ≡ some lot
  pub timed : missing_cycle_times (gate_route r lot) (r.parts p.id) ≡ []

is_nil-eq-true : {A : Type 0} (xs : List A) → is_nil xs ≡ true → xs ≡ []
is_nil-eq-true [] h = refl
is_nil-eq-true (x ∷ xs) h = cc

module _ (r : PlanReads) (locale_le : String → String → Bool) (req : Request)
    (batch_id : ℕ → String) (now target_id : String) (version : ℕ) {p : Project}
    (found : r.project target_id ≡ some p) where
  pub gate-inv :
      (vs : List (Logged PlanWrite)) (lot : Lot)
      → release_gate r locale_le req batch_id now target_id version p ≡ done vs lot
      → (vs ≡ []) × (r.lot_of p.id ≡ some lot) × Passes r p version
  unfolding release_gate
  gate-inv vs lot ok = elim (Option-cases (r.lot_of p.id)) [
    | inl missing ↦ absurd (ground arith)
    | inr (own, of_project) ↦ (
      ground arith,
      ground arith,
      record {
        current = ground (arith, ==_iff p.row_version version);
        drafted = ground arith;
        required = ground arith;
        with_parts = ground arith;
        none_orphan = ground arith;
        lot = own;
        with_lot = of_project;
        timed =
            is_nil-eq-true (missing_cycle_times (gate_route r own) (r.parts p.id)) (ground arith);
      },
    )
  ]

  pub gate-done :
      (h : Passes r p version)
      → release_gate r locale_le req batch_id now target_id version p ≡ done [] h.lot
  unfolding release_gate
  gate-done h = ground (
    arith,
    ==_iff p.row_version version,
    h.current,
    h.drafted,
    h.required,
    h.with_parts,
    h.none_orphan,
    h.with_lot,
    h.timed,
  )
