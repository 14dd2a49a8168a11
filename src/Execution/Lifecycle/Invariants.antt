-- ===== src/Execution/Lifecycle/Invariants.antt =====
-- What no sequence of commands can break.
use bnpi_pats_api.Base.{
  String, Option, some, none, ◌≡◌, ◌≢◌, refl, ◌∙◌, ◌<◌, arith, ap, ◌⊎◌, inl, inr,
}
use bnpi_pats_api.Execution.{Batch, Position, planned, rework, scrap, waive}
use bnpi_pats_api.Execution.Lifecycle.{
  Reach, here, next, Change, stay, advance, quarantine, dispose, finish, activate, take_off,
  list_again,
}
use bnpi_pats_api.Execution.Lifecycle.Refinement.{Step-Change}

abbrev Agrees : Option Position → String → Option String → Type 0
Agrees none stage sub_stage = ⊥
Agrees (some p) stage sub_stage = (p.stage_id ≡ stage) × (p.sub_stage_id ≡ sub_stage)

-- The position projection says where the batch row says that the batch is.
pub record IsPlaced (b : Batch) : Type 0 where
  pub placed : Agrees b.position b.current_stage_id b.current_sub_stage_id

Change-IsPlaced : {b b' : Batch} → Change b b' → IsPlaced b → IsPlaced b'
Change-IsPlaced (stay e) h = rw e h
Change-IsPlaced (advance e body _ _ _ made) h = rw made (ground arith)
Change-IsPlaced (quarantine made) h = rw made (record { placed = h.placed })
Change-IsPlaced (dispose d _ _ made) h = rw made (record { placed = h.placed })
Change-IsPlaced (finish _ made) h = rw made (record { placed = h.placed })
Change-IsPlaced (activate _ made) h = rw made (record { placed = h.placed })
Change-IsPlaced (take_off made) h = rw made (record { placed = h.placed })
Change-IsPlaced (list_again list made) h = rw made (record { placed = h.placed })

-- Whatever commands succeed on a batch, its position projection and its row name the same stage
-- and sub-stage, if they did so at first.
pub Reach-IsPlaced : {b b' : Batch} → IsPlaced b → Reach b b' → IsPlaced b'
Reach-IsPlaced h here = h
Reach-IsPlaced h (next r st) = Change-IsPlaced (Step-Change st) (Reach-IsPlaced h r)

-- The rows and the projections have the same fields but for the line, where the later row has the same
-- one, or none, and for the parts list, which is a column of the lot.
record IsSameButLine (b b' : Batch) : Type 0 where
  same : b' ≡ record b { line_id = b'.line_id; parts_list_id = b'.parts_list_id }
  line : (b'.line_id ≡ b.line_id) ⊎ (b'.line_id ≡ none)

IsSameButLine-of : {b b' : Batch} → b' ≡ b → IsSameButLine b b'
IsSameButLine-of {b} {b'} e = rw e (record { same = refl; line = inl refl })

IsSameButLine-trans : {b c d : Batch} → IsSameButLine b c → IsSameButLine c d → IsSameButLine b d
IsSameButLine-trans {b} {c} {d} h k = record {
  same =
      k.same
      ∙ ap (λ (x : Batch). record x { line_id = d.line_id; parts_list_id = d.parts_list_id })
          h.same;
  line = lines h.line k.line;
}
  where
    lines :
        {x y z : Option String} → (y ≡ x) ⊎ (y ≡ none) → (z ≡ y) ⊎ (z ≡ none) → (z ≡ x) ⊎ (z ≡ none)
    lines (inl e) (inl f) = inl (f ∙ e)
    lines (inr e) (inl f) = inr (f ∙ e)
    lines e (inr f) = inr f

-- A change of a batch that is past PLANNED keeps it there, and raises its version or touches its line
-- at most.
Change-version :
    {b b' : Batch}
    → Change b b'
    → b.status ≢ planned
    → (b'.status ≢ planned) × (IsSameButLine b b' ⊎ (b.row_version < b'.row_version))
Change-version {b} {b'} (stay e) h = (rw e h, inl (IsSameButLine-of e))
Change-version (advance e body _ _ _ made) h = rw made (h, inr (omega arith))
Change-version (quarantine made) h = rw made ((λ p. cc), inr (omega arith))
Change-version (dispose rework _ _ made) h = rw made ((λ p. cc), inr (omega arith))
Change-version (dispose scrap _ _ made) h = rw made ((λ p. cc), inr (omega arith))
Change-version (dispose waive _ _ made) h = rw made ((λ p. cc), inr (omega arith))
Change-version (finish _ made) h = rw made ((λ p. cc), inr (omega arith))
Change-version (activate was made) h = absurd (h was)
Change-version (take_off made) h = rw made (h, inl (record { same = refl; line = inr refl }))
Change-version (list_again list made) h = rw made (h, inl (record { same = refl; line = inl refl }))

Reach-version :
    {b b' : Batch}
    → Reach b b'
    → b.status ≢ planned
    → (b'.status ≢ planned) × (IsSameButLine b b' ⊎ (b.row_version < b'.row_version))
Reach-version here h = (h, inl (IsSameButLine-of refl))
Reach-version (next r st) h =
    let (begun, so_far) = Reach-version r h in
    let (still, last) = Change-version (Step-Change st) begun in (still, compose so_far last)
  where
    version : {b c : Batch} → IsSameButLine b c → c.row_version ≡ b.row_version
    version h = ap (λ (x : Batch). x.row_version) h.same

    compose :
        {b c d : Batch}
        → IsSameButLine b c ⊎ (b.row_version < c.row_version)
        → IsSameButLine c d ⊎ (c.row_version < d.row_version)
        → IsSameButLine b d ⊎ (b.row_version < d.row_version)
    compose (inl e) (inl e') = inl (IsSameButLine-trans e e')
    compose (inl e) (inr h') = inr (omega (arith, version e))
    compose (inr h) (inl e') = inr (omega (arith, version e'))
    compose (inr h) (inr h') = inr (omega arith)

-- A batch past PLANNED whose version is the same after any commands, the removal of a line and a new
-- parts list for its lot included, is the same in every field of the modelled row and its projection
-- but two: its line, which is the same or was cleared, and the parts list, which is the lot's.
pub Reach-eq_of_version :
    {b b' : Batch}
    → b.status ≢ planned
    → Reach b b'
    → b'.row_version ≡ b.row_version
    → (b' ≡ record b { line_id = b'.line_id; parts_list_id = b'.parts_list_id })
      × ((b'.line_id ≡ b.line_id) ⊎ (b'.line_id ≡ none))
Reach-eq_of_version begun r same = elim ((Reach-version r begun).1) [
  | inl h ↦ (h.same, h.line)
  | inr grown ↦ absurd (omega arith)
]
