-- ===== src/Planning/Release/Readiness.antt =====
-- What a release asks of the project, and that the tests of its gate decide it.
use bnpi_pats_api.Base.{
  ℕ, String, List, [], ◌∷◌, some, true, false, ◌≡◌, ◌≢◌, arith, any, ap, str_eq, eq_iff, All, Any,
  Bool-cases, Option-cases, inl, inr, refl,
}
use bnpi_pats_api.Base.Text
use bnpi_pats_api.Route.{RouteStep}
use bnpi_pats_api.Planning.{
  Project, ProjectStatus, draft_project, released_project, completed_project, Requirement, Part,
  Lot, PlanReads, is_draft,
}
use bnpi_pats_api.Planning.CycleTimes.{
  resolve_step_cycle_time, misses_cycle_time, missing_cycle_times,
}
use bnpi_pats_api.Planning.Release.{is_nil, is_orphan}
use bnpi_pats_api.Planning.Release.Laws.{Passes}

-- The part names one of the requirements.
abbrev pub IsOwned : List Requirement → Part → Type 0
IsOwned requirements part =
    (id : String) × (part.requirement_id ≡ some id)
    × (id ≢ "")
    × Any (λ (q : Requirement). q.id ≡ id) requirements

-- Each step of the part has a designed time.
abbrev pub IsTimed : List RouteStep → Part → Type 0
IsTimed steps part =
    All
      (λ (s : RouteStep).
        s.part_id ≡ part.id
        → (n : ℕ) × (resolve_step_cycle_time part s.stage_id s.sub_stage_id ≡ some n))
      steps

-- What a release asks: the version that the client read, a draft, a requirement, a part, that each
-- part names one of the requirements, a lot, and, where the lot cites a parts list, that each step of
-- a part there has a designed time.
pub record IsReleasable (r : PlanReads) (p : Project) (version : ℕ) : Type 0 where
  pub current : p.row_version ≡ version
  pub drafted : p.status ≡ draft_project
  pub required : r.requirements p.id ≢ []
  pub with_parts : r.parts p.id ≢ []
  pub owned : All (IsOwned (r.requirements p.id)) (r.parts p.id)
  pub lot : Lot
  pub with_lot : r.lot_of p.id ≡ some lot
  pub timed :
      lot.parts_list_id ≢ "" → All (IsTimed (r.route_steps lot.parts_list_id)) (r.parts p.id)

is_draft-eq-true : (s : ProjectStatus) → is_draft s ≡ true → s ≡ draft_project
is_draft-eq-true draft_project h = refl
is_draft-eq-true released_project h = cc
is_draft-eq-true completed_project h = cc

is_nil-eq-false : {A : Type 0} (xs : List A) → is_nil xs ≡ false → xs ≢ []
is_nil-eq-false [] h = cc
is_nil-eq-false (x ∷ xs) h = λ e. cc

not_nil : {A : Type 0} (xs : List A) → xs ≢ [] → is_nil xs ≡ false
not_nil [] h = absurd (h refl)
not_nil (x ∷ xs) h = refl

is_empty-eq-false : (s : String) → Text.is_empty s ≡ false → s ≢ ""
is_empty-eq-false s h =
    λ e. let empty : Text.is_empty s ≡ true = ap Text.is_empty e in absurd (ground arith)

not_empty : (s : String) → s ≢ "" → Text.is_empty s ≡ false
not_empty String.[] h = absurd (h refl)
not_empty (String.◌∷◌ c s) h = refl

any-owner :
    (id : String) (qs : List Requirement)
    → any (λ q. str_eq q.id id) qs ≡ true
    → Any (λ (q : Requirement). q.id ≡ id) qs
any-owner id [] h = cc
any-owner id (q ∷ qs) h = elim (Bool-cases (str_eq q.id id)) [
  | inl own ↦ inl ((eq_iff q.id id).0 own)
  | inr other ↦ inr (any-owner id qs (ground arith))
]

owner-any :
    (id : String) (qs : List Requirement)
    → Any (λ (q : Requirement). q.id ≡ id) qs
    → any (λ q. str_eq q.id id) qs ≡ true
owner-any id [] m = absurd m
owner-any id (q ∷ qs) (inl own) = ground (arith, eq_iff q.id id)
owner-any id (q ∷ qs) (inr m) = ground (arith, owner-any id qs m)

is_orphan-IsOwned :
    (qs : List Requirement) (part : Part) → is_orphan qs part ≡ false → IsOwned qs part
is_orphan-IsOwned qs part h = elim (Option-cases part.requirement_id) [
  | inl absent ↦ absurd (ground arith)
  | inr (id, named) ↦
      (id, named, is_empty-eq-false id (ground arith), any-owner id qs (ground arith))
]

IsOwned-is_orphan :
    (qs : List Requirement) (part : Part) → IsOwned qs part → is_orphan qs part ≡ false
IsOwned-is_orphan qs part (id, named, full, m) =
    ground (arith, not_empty id full, owner-any id qs m)

none_orphan :
    (qs : List Requirement) (parts : List Part)
    → any (is_orphan qs) parts ≡ false
    → All (IsOwned qs) parts
none_orphan qs [] h = tt
none_orphan qs (part ∷ parts) h =
    (is_orphan-IsOwned qs part (ground arith), none_orphan qs parts (ground arith))

any_orphan :
    (qs : List Requirement) (parts : List Part)
    → All (IsOwned qs) parts
    → any (is_orphan qs) parts ≡ false
any_orphan qs [] h = refl
any_orphan qs (part ∷ parts) (h, hs) =
    ground (arith, IsOwned-is_orphan qs part h, any_orphan qs parts hs)

misses-IsTimed :
    (steps : List RouteStep) (part : Part)
    → misses_cycle_time steps part ≡ false
    → IsTimed steps part
unfolding misses_cycle_time
misses-IsTimed [] part h = tt
misses-IsTimed (s ∷ steps) part h = (
  λ own. elim (Option-cases (resolve_step_cycle_time part s.stage_id s.sub_stage_id)) [
    | inl untimed ↦ absurd (ground (arith, eq_iff s.part_id part.id))
    | inr (n, timed) ↦ (n, timed)
  ],
  misses-IsTimed steps part (ground arith),
)

IsTimed-misses :
    (steps : List RouteStep) (part : Part)
    → IsTimed steps part
    → misses_cycle_time steps part ≡ false
unfolding misses_cycle_time
IsTimed-misses [] part h = refl
IsTimed-misses (s ∷ steps) part (h, hs) = elim (Bool-cases (str_eq s.part_id part.id)) [
  | inl own ↦
      let (n, timed) = h ((eq_iff s.part_id part.id).0 own) in
      ground (arith, IsTimed-misses steps part hs)
  | inr other ↦ ground (arith, IsTimed-misses steps part hs)
]

missing-IsTimed :
    (steps : List RouteStep) (parts : List Part)
    → missing_cycle_times steps parts ≡ []
    → All (IsTimed steps) parts
unfolding missing_cycle_times
missing-IsTimed steps [] h = tt
missing-IsTimed steps (part ∷ parts) h = elim (Bool-cases (misses_cycle_time steps part)) [
  | inl misses ↦ absurd (ground arith)
  | inr timed ↦ (misses-IsTimed steps part timed, missing-IsTimed steps parts (ground arith))
]

IsTimed-missing :
    (steps : List RouteStep) (parts : List Part)
    → All (IsTimed steps) parts
    → missing_cycle_times steps parts ≡ []
unfolding missing_cycle_times
IsTimed-missing steps [] h = refl
IsTimed-missing steps (part ∷ parts) (h, hs) =
    ground (arith, IsTimed-misses steps part h, IsTimed-missing steps parts hs)

no_steps-missing : (parts : List Part) → missing_cycle_times [] parts ≡ []
unfolding missing_cycle_times misses_cycle_time
no_steps-missing [] = refl
no_steps-missing (part ∷ parts) = ground (arith, no_steps-missing parts)

pub Passes-IsReleasable :
    (r : PlanReads) (p : Project) (version : ℕ) → Passes r p version → IsReleasable r p version
Passes-IsReleasable r p version h = record {
  current = h.current;
  drafted = is_draft-eq-true p.status h.drafted;
  required = is_nil-eq-false (r.requirements p.id) h.required;
  with_parts = is_nil-eq-false (r.parts p.id) h.with_parts;
  owned = none_orphan (r.requirements p.id) (r.parts p.id) h.none_orphan;
  lot = h.lot;
  with_lot = h.with_lot;
  timed = λ cited.
      missing-IsTimed (r.route_steps h.lot.parts_list_id) (r.parts p.id)
        (ground (arith, not_empty h.lot.parts_list_id cited, h.timed));
}

pub IsReleasable-Passes :
    (r : PlanReads) (p : Project) (version : ℕ) → IsReleasable r p version → Passes r p version
IsReleasable-Passes r p version h = record {
  current = h.current;
  drafted = ground (arith, h.drafted);
  required = not_nil (r.requirements p.id) h.required;
  with_parts = not_nil (r.parts p.id) h.with_parts;
  none_orphan = any_orphan (r.requirements p.id) (r.parts p.id) h.owned;
  lot = h.lot;
  with_lot = h.with_lot;
  timed = elim (Bool-cases (Text.is_empty h.lot.parts_list_id)) [
    | inl uncited ↦ ground (arith, no_steps-missing (r.parts p.id))
    | inr cited ↦ ground (
      arith,
      IsTimed-missing (r.route_steps h.lot.parts_list_id) (r.parts p.id)
          (h.timed (is_empty-eq-false h.lot.parts_list_id cited)),
    )
  ];
}
