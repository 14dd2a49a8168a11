-- ===== src/Planning/Draft/Routes/Laws.antt =====
-- Which steps make a route version.
use bnpi_pats_api.Base.{
  ℕ, Option, some, any, ==_iff, String, List, [], ◌∷◌, map, Bool, true, false, ◌≡◌, ◌↔◌, refl, sym,
  ◌∙◌, arith, includes,
}
use bnpi_pats_api.Command.Work.{Work, done, ◌>>◌, refuse_if, pure_lem, >>=-eq-done}
use bnpi_pats_api.Command.Problem.{Problem, conflict}
use bnpi_pats_api.Command.Audit.{Logged}
use bnpi_pats_api.Command.Request.{Request}
use bnpi_pats_api.Command.Idempotency.{CommandResponse}
use bnpi_pats_api.Planning.{Project}
use bnpi_pats_api.Planning.Draft.{StepInput, DraftWrite, DraftReads, editable_project, is_draft}
use bnpi_pats_api.Planning.Draft.Routes.{
  identity_of, order_of, check_steps, check_references, is_ineligible, eligible_pairs, unique,
  sub_stage_ids, create_version, write_version,
}

-- The texts differ from each other and from those of a list.
abbrev pub IsFresh : List String → List String → Type 0
IsFresh seen [] = Unit
IsFresh seen (s ∷ ss) = (includes seen s ≡ false) × IsFresh (s ∷ seen) ss

check_rest :
    (b c : Bool) (p q : Problem) (m : Work (Logged DraftWrite) (Unit {0}))
    → ((refuse_if {W = Logged DraftWrite} b p >> (refuse_if {W = Logged DraftWrite} c q >> m))
        ≡ done [] tt)
      ↔ ((b ≡ false) × (c ≡ false) × (m ≡ done [] tt))
check_rest true c p q m = ((λ e. cc), (λ h. cc))
check_rest false true p q m = ((λ e. cc), (λ h. cc))
check_rest false false p q m =
    let same = pure_lem tt (λ (_ : Unit {0}). m) in
    let again = pure_lem tt (λ (_ : Unit {0}). refuse_if {W = Logged DraftWrite} false q >> m) in
    ((λ e. (refl, refl, sym same ∙ sym again ∙ e)), (λ h. again ∙ same ∙ h.2))

-- The loop accepts the steps exactly when no two of them are of one part at one stage and sub-stage,
-- and no two are of one part with one order, as the two keys of a step tell them apart, and none has
-- a key that was seen before.
pub check_steps_iff :
    (steps : List StepInput) (identities orders : List String)
    → (check_steps steps identities orders ≡ done [] tt)
      ↔ (IsFresh identities (map identity_of steps) × IsFresh orders (map order_of steps))
unfolding check_steps
check_steps_iff [] identities orders = ((λ e. (tt, tt)), (λ h. refl))
check_steps_iff (s ∷ ss) identities orders =
    let rest = check_steps_iff ss (identity_of s ∷ identities) (order_of s ∷ orders) in
    let head =
      check_rest (includes identities (identity_of s)) (includes orders (order_of s))
        (conflict "A part cannot repeat the same route stage.")
        (conflict "A part cannot repeat a route step order.")
        (check_steps ss (identity_of s ∷ identities) (order_of s ∷ orders)) in
    (
      (λ e.
          let (new, next, more) = head.0 e in
          let (ids, ords) = rest.0 more in ((new, ids), (next, ords))),
      (λ h. head.1 (h.0.0, h.1.0, rest.1 (h.0.1, h.1.1))),
    )

check_rest-silent :
    (b c : Bool) (p q : Problem) (m : Work (Logged DraftWrite) (Unit {0}))
    (vs : List (Logged DraftWrite)) (u : Unit {0})
    → (m ≡ done vs u → m ≡ done [] tt)
    → (refuse_if {W = Logged DraftWrite} b p >> (refuse_if {W = Logged DraftWrite} c q >> m))
      ≡ done vs u
    → (refuse_if {W = Logged DraftWrite} b p >> (refuse_if {W = Logged DraftWrite} c q >> m))
      ≡ done [] tt
check_rest-silent true c p q m vs u k h = cc
check_rest-silent false true p q m vs u k h = cc
check_rest-silent false false p q m vs u k h =
    let same = pure_lem tt (λ (_ : Unit {0}). m) in
    let again = pure_lem tt (λ (_ : Unit {0}). refuse_if {W = Logged DraftWrite} false q >> m) in
    again ∙ same ∙ k (sym same ∙ sym again ∙ h)

-- The loop writes nothing.
silent :
    (steps : List StepInput) (identities orders : List String) (vs : List (Logged DraftWrite))
    (u : Unit {0})
    → check_steps steps identities orders ≡ done vs u
    → check_steps steps identities orders ≡ done [] tt
unfolding check_steps
silent [] identities orders vs u h = refl
silent (s ∷ ss) identities orders vs u h =
    check_rest-silent (includes identities (identity_of s)) (includes orders (order_of s))
      (conflict "A part cannot repeat the same route stage.")
      (conflict "A part cannot repeat a route step order.")
      (check_steps ss (identity_of s ∷ identities) (order_of s ∷ orders)) vs u
      (silent ss (identity_of s ∷ identities) (order_of s ∷ orders) vs u) h

module _ (r : DraftReads) (req : Request) (parts_list_id target_id : String) (version : ℕ)
    (steps : List StepInput) (source : Option String) where
  references-eligible :
      (p : Project) (vs : List (Logged DraftWrite)) (u : Unit {0})
      → check_references r p steps ≡ done vs u
      → any (is_ineligible (eligible_pairs (r.sub_stages_in (unique (sub_stage_ids steps))))) steps
        ≡ false
  unfolding check_references
  references-eligible p vs u ok = ground arith

  editable-inv :
      (vs : List (Logged DraftWrite)) (p : Project)
      → editable_project r target_id version ≡ done vs p
      → (r.project target_id ≡ some p) × (p.row_version ≡ version) × (is_draft p.status ≡ true)
  unfolding editable_project
  editable-inv vs p ok = ground (arith, ==_iff p.row_version version)

-- What a new route version has to do with the project and the steps of the request.
pub record IsRoute (r : DraftReads) (p : Project) (version : ℕ) (steps : List StepInput)
    : Type 0 where
  pub current : p.row_version ≡ version
  pub drafted : is_draft p.status ≡ true
  pub eligible :
      any (is_ineligible (eligible_pairs (r.sub_stages_in (unique (sub_stage_ids steps))))) steps
      ≡ false
  pub places : IsFresh [] (map identity_of steps)
  pub orders : IsFresh [] (map order_of steps)

-- A route version that is written is of a draft at the version that the client read; each sub-stage
-- of its steps is eligible under the step's stage; no part stands twice at one stage and sub-stage
-- and no part has two steps of one order, as the two keys of a step tell them apart.
pub create_version-IsRoute :
    (r : DraftReads) (req : Request) (parts_list_id target_id : String) (version : ℕ)
    (steps : List StepInput) (source : Option String) (ws : List (Logged DraftWrite))
    (resp : CommandResponse) {p : Project}
    → r.project target_id ≡ some p
    → create_version r req parts_list_id target_id version steps source ≡ done ws resp
    → IsRoute r p version steps
unfolding create_version
create_version-IsRoute r req parts_list_id target_id version steps source ws resp {p} found ok =
    let (vs, own, us, loaded, later, joined) =
      >>=-eq-done (editable_project r target_id version)
        (after_load r req parts_list_id steps source) ok in
    let (vs1, u1, us1, references, later1, joined1) =
      >>=-eq-done (check_references r own steps)
        (λ _. check_steps steps [] [] >> write_version r req parts_list_id own steps source)
        later in
    let (vs2, u2, us2, checked, later2, joined2) =
      >>=-eq-done (check_steps steps [] [])
        (λ _. write_version r req parts_list_id own steps source) later1 in
    let (same, current, drafted) =
      editable-inv r req parts_list_id target_id version steps source vs own loaded in
    let own_p : own ≡ p = same_project same found in
    let fresh = (check_steps_iff steps [] []).0 (silent steps [] [] vs2 u2 checked) in
    rw (← own_p) (record {
      current = current;
      drafted = drafted;
      eligible =
          references-eligible r req parts_list_id target_id version steps source own vs1 u1
            references;
      places = fresh.0;
      orders = fresh.1;
    })
  where
    same_project : {o : Option Project} {a b : Project} → o ≡ some a → o ≡ some b → a ≡ b
    same_project e f = cc

    after_load :
        DraftReads
        → Request
        → String
        → List StepInput
        → Option String
        → Project
        → Work (Logged DraftWrite) CommandResponse
    after_load r req parts_list_id steps source p =
        check_references r p steps
        >> (check_steps steps [] [] >> write_version r req parts_list_id p steps source)
