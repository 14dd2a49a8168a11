-- ===== src/Planning/Draft/Snapshot/Laws.antt =====
-- The route that a project starts with.
use mathlib.Core.Path.{subst}
use mathlib.Core.List.{append_assoc}
use bnpi_pats_api.Base.{
  ℕ, String, List, [], ◌∷◌, ◌++◌, map, Option, none, some, true, false, ◌≤◌, ◌≡◌, refl, arith, keep,
  includes, All, All-append, All-split, Any, Bool-cases, Option-cases, inl, inr, ◌+◌,
}
use bnpi_pats_api.Base.Text
use bnpi_pats_api.Base.Json.{
  Json, Items, array, object, null, bool, nat, other_number, str, nil, cons, member,
}
use bnpi_pats_api.Planning.{Requirement}
use bnpi_pats_api.Planning.Draft.{ModelPart, Model, StepInput, DraftReads, PartRow}
use bnpi_pats_api.Planning.Draft.Routes.{eligible_pairs, is_ineligible}
use bnpi_pats_api.Planning.Draft.Snapshot.{
  CatalogStep, text_of, order_at, catalog_step, catalog_steps_from, catalog_routing_steps,
  is_configured, step_of_part, Ids, part_row, steps_of_part, steps_of_parts, requirement_for,
  all_steps, all_parts,
}

order_at-positive : (o : Option Json) (index : ℕ) → 1 ≤ order_at o index
unfolding order_at
order_at-positive (some (nat n)) index = ground arith
order_at-positive none index = omega arith
order_at-positive (some null) index = omega arith
order_at-positive (some (bool b)) index = omega arith
order_at-positive (some (other_number s)) index = omega arith
order_at-positive (some (str s)) index = omega arith
order_at-positive (some (array js)) index = omega arith
order_at-positive (some (object fs)) index = omega arith

catalog_step-ordered :
    (j : Json) (index : ℕ) → All (λ (s : CatalogStep). 1 ≤ s.step_order) (catalog_step j index)
unfolding catalog_step
catalog_step-ordered (object fs) index = elim (Option-cases (text_of (member "stageId" fs))) [
  | inl missing ↦ rw (missing, catalog_step) tt
  | inr (id, given) ↦ elim (Bool-cases (Text.is_empty (Text.trim id))) [
    | inl blank ↦ rw (given, catalog_step, blank) tt
    | inr filled ↦
        rw (given, catalog_step, filled) (order_at-positive (member "order" fs) index, tt)
  ]
]
catalog_step-ordered _ index = tt

catalog_steps_from-ordered :
    (js : Items) (index : ℕ)
    → All (λ (s : CatalogStep). 1 ≤ s.step_order) (catalog_steps_from js index)
unfolding catalog_steps_from
catalog_steps_from-ordered nil index = tt
catalog_steps_from-ordered (cons j js) index =
    All-append (λ (s : CatalogStep). 1 ≤ s.step_order) (catalog_step j index)
      (catalog_steps_from js (index + 1)) (catalog_step-ordered j index)
      (catalog_steps_from-ordered js (index + 1))

catalog_routing_steps-ordered :
    (j : Json) → All (λ (s : CatalogStep). 1 ≤ s.step_order) (catalog_routing_steps j)
unfolding catalog_routing_steps
catalog_routing_steps-ordered (array items) = catalog_steps_from-ordered items 0
catalog_routing_steps-ordered _ = tt

-- A step of a snapshot: at a configured stage, with a sub-stage only where it is eligible, with a
-- positive order, and of a part that the snapshot creates.
pub record IsSnapshotStep (r : DraftReads) (parts : List PartRow) (s : StepInput) : Type 0 where
  pub staged : includes r.stages s.stage_id ≡ true
  pub eligible : is_ineligible (eligible_pairs r.sub_stages) s ≡ false
  pub ordered : 1 ≤ s.step_order
  pub owned : Any (λ (p : PartRow). p.id ≡ s.part_id) parts

configured-eligible :
    (r : DraftReads) (part_id : String) (s : CatalogStep)
    → is_configured r s ≡ true
    → (includes r.stages s.stage_id ≡ true)
      × (is_ineligible (eligible_pairs r.sub_stages) (step_of_part part_id s) ≡ false)
configured-eligible r part_id s h = ground arith

module _ (r : DraftReads) (ids : Ids) (project_id : String) (parts : List PartRow) where
  kept :
      (part_id : String) (ss : List CatalogStep)
      → Any (λ (p : PartRow). p.id ≡ part_id) parts
      → All (λ (s : CatalogStep). 1 ≤ s.step_order) ss
      → All (IsSnapshotStep r parts) (map (step_of_part part_id) (keep (is_configured r) ss))
  kept part_id [] own h = tt
  kept part_id (s ∷ ss) own (h, hs) = elim (Bool-cases (is_configured r s)) [
    | inr dropped ↦ rw dropped (kept part_id ss own hs)
    | inl configured ↦
        let (staged, eligible) = configured-eligible r part_id s configured in
        rw configured (
          record { staged = staged; eligible = eligible; ordered = h; owned = own },
          kept part_id ss own hs,
        )
  ]

  -- Each of some parts is, by its id, among the parts of the snapshot.
  abbrev Owns : List PartRow → Type 0
  Owns ps = All (λ (q : PartRow). Any (λ (p : PartRow). p.id ≡ q.id) parts) ps

  parts_kept :
      (m : Model) (q : Requirement) (ps : List ModelPart)
      → Owns (map (part_row r ids project_id m q) ps)
      → All (IsSnapshotStep r parts) (steps_of_parts r ids project_id ps)
  unfolding steps_of_parts steps_of_part
  parts_kept m q [] own = tt
  parts_kept m q (p ∷ ps) (own, owns) =
      All-append (IsSnapshotStep r parts) (steps_of_part r ids project_id p)
        (steps_of_parts r ids project_id ps)
        (kept (ids.part_id p.id) (catalog_routing_steps p.routing_steps) own
          (catalog_routing_steps-ordered p.routing_steps))
        (parts_kept m q ps owns)

  steps_of_unused :
      (requirements : List Requirement) (m : Model) (ms : List Model)
      → requirement_for r ids project_id requirements m ≡ none
      → (all_steps r ids project_id requirements (m ∷ ms)
          ≡ all_steps r ids project_id requirements ms)
        × (all_parts r ids project_id requirements (m ∷ ms)
            ≡ all_parts r ids project_id requirements ms)
  unfolding all_steps all_parts
  steps_of_unused requirements m ms unused =
      (rw (unused, all_steps) refl, rw (unused, all_parts) refl)

  steps_of_required :
      (requirements : List Requirement) (m : Model) (ms : List Model) (q : Requirement)
      → requirement_for r ids project_id requirements m ≡ some q
      → (all_steps r ids project_id requirements (m ∷ ms)
          ≡ steps_of_parts r ids project_id m.model_parts
            ++ all_steps r ids project_id requirements ms)
        × (all_parts r ids project_id requirements (m ∷ ms)
            ≡ map (part_row r ids project_id m q) m.model_parts
              ++ all_parts r ids project_id requirements ms)
  unfolding all_steps all_parts
  steps_of_required requirements m ms q required =
      (rw (required, all_steps) refl, rw (required, all_parts) refl)

  models_kept :
      (requirements : List Requirement) (ms : List Model)
      → Owns (all_parts r ids project_id requirements ms)
      → All (IsSnapshotStep r parts) (all_steps r ids project_id requirements ms)
  models_kept requirements [] own = unfold all_steps in tt
  models_kept requirements (m ∷ ms) own =
      elim (Option-cases (requirement_for r ids project_id requirements m)) [
        | inl unused ↦
            let (steps, rows) = steps_of_unused requirements m ms unused in
            rw steps (models_kept requirements ms (subst Owns rows own))
        | inr (q, required) ↦
            let (steps, rows) = steps_of_required requirements m ms q required in
            let (first_own, rest_own) =
              All-split (λ (x : PartRow). Any (λ (p : PartRow). p.id ≡ x.id) parts)
                (map (part_row r ids project_id m q) m.model_parts)
                (all_parts r ids project_id requirements ms) (subst Owns rows own) in
            rw steps (
              All-append (IsSnapshotStep r parts) (steps_of_parts r ids project_id m.model_parts)
                (all_steps r ids project_id requirements ms)
                (parts_kept m q m.model_parts first_own) (models_kept requirements ms rest_own))
      ]

-- Rows are among themselves, with any rows before them.
own_rows :
    (xs before : List PartRow)
    → All (λ (q : PartRow). Any (λ (p : PartRow). p.id ≡ q.id) (before ++ xs)) xs
own_rows [] before = tt
own_rows (x ∷ xs) before = (
  at_end before x xs,
  subst (λ (ps : List PartRow). All (λ (q : PartRow). Any (λ (p : PartRow). p.id ≡ q.id) ps) xs)
      (append_assoc before (x ∷ []) xs) (own_rows xs (before ++ x ∷ [])),
)
  where
    at_end :
        (before : List PartRow) (x : PartRow) (xs : List PartRow)
        → Any (λ (p : PartRow). p.id ≡ x.id) (before ++ x ∷ xs)
    at_end [] x xs = inl refl
    at_end (b ∷ bs) x xs = inr (at_end bs x xs)

-- Every step of the route that a project starts with, or that a replacement of its requirements
-- gives it, is at a configured stage, has a sub-stage only where that is eligible under the stage,
-- has a positive order, and is of a part that is created with it.
pub all_steps-IsSnapshotStep :
    (r : DraftReads) (ids : Ids) (project_id : String) (requirements : List Requirement)
    (ms : List Model)
    → All
        (IsSnapshotStep r (all_parts r ids project_id requirements ms))
        (all_steps r ids project_id requirements ms)
all_steps-IsSnapshotStep r ids project_id requirements ms =
    models_kept r ids project_id (all_parts r ids project_id requirements ms) requirements ms
      (own_rows (all_parts r ids project_id requirements ms) [])
