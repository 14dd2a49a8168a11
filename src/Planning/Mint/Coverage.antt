-- ===== src/Planning/Mint/Coverage.antt =====
-- The trays of a whole release, part by part.
use native.Mathlib.Nat.{mul-sub}
use bnpi_pats_api.Base.{
  ℕ, suc, String, List, [], ◌∷◌, map, none, some, ◌+◌, ◌-◌, ◌*◌, ◌≤◌, min, max, ◌≡◌, ◌≢◌, refl, sym,
  ap, All, Any, All-Any, length, arith, Option-cases, inl, inr,
}
use bnpi_pats_api.Planning.{Part, Requirement, PlanReads}
use bnpi_pats_api.Planning.Mint.{Tray, series_count, requirement_of, mint_part, mint_all}
use bnpi_pats_api.Planning.Mint.Laws.{
  total, total_of, IsTray, numbers_after, numbers_after-append, series_count-covers,
  mint_series-total, mint_series-IsTray, mint_series-numbers, length-append, map-append,
  total_of-append, total_of-own, total_of-other,
}

-- The parts of a project differ in their ids.
abbrev pub HasPartIds : List Part → Type 0
HasPartIds [] = Unit
HasPartIds (p ∷ ps) = All (λ q. p.id ≢ q.id) ps × HasPartIds ps

-- Batches that are full leave slots enough for the rest.
slots_cover :
    (count existing batch_size required planned : ℕ)
    → required ≤ count * batch_size
    → existing * batch_size ≤ planned
    → required - planned ≤ (count - existing) * batch_size
slots_cover count existing batch_size required planned h k =
    omega (arith, mul-sub batch_size count existing)

module _ (r : PlanReads) (lot_id : String) (requirements : List Requirement) (batch_size : ℕ)
    (sized : 1 ≤ batch_size) where
  -- The series count that the trays of a part carry.
  abbrev pub count_of : Part → ℕ
  count_of part = elim (requirement_of requirements part) [
    | none ↦ 0
    | some requirement ↦ series_count requirement.required_quantity batch_size
  ]

  mint_part-IsTray :
      (sequence : ℕ) (part : Part)
      → All
          (IsTray part.id batch_size (count_of part))
          (mint_part r lot_id requirements batch_size sequence part)
  unfolding mint_part
  mint_part-IsTray sequence part = elim (Option-cases (requirement_of requirements part)) [
    | inl orphan ↦ rw (orphan, mint_part) tt
    | inr (q, of_part) ↦
        rw (of_part, mint_part, count_of)
          (mint_series-IsTray part.id q.id batch_size (series_count q.required_quantity batch_size)
            (series_count q.required_quantity batch_size - r.batch_count lot_id part.id)
            (suc (r.batch_count lot_id part.id)) sequence
            (q.required_quantity - r.planned_sum lot_id part.id) sized (omega arith))
  ]

  mint_part-numbers :
      (sequence : ℕ) (part : Part)
      → let trays = mint_part r lot_id requirements batch_size sequence part in
        map (λ (t : Tray). t.sequence) trays ≡ numbers_after sequence (length trays)
  unfolding mint_part
  mint_part-numbers sequence part = elim (Option-cases (requirement_of requirements part)) [
    | inl orphan ↦ rw (orphan, mint_part) refl
    | inr (q, of_part) ↦
        rw (of_part, mint_part)
          (mint_series-numbers part.id q.id batch_size (series_count q.required_quantity batch_size)
            (series_count q.required_quantity batch_size - r.batch_count lot_id part.id)
            (suc (r.batch_count lot_id part.id)) sequence
            (q.required_quantity - r.planned_sum lot_id part.id))
  ]

  -- The pieces of the trays that a release mints for a part are those that are still to be planned,
  -- up to what the series numbers left of the count hold: numbers that undersized batches took are
  -- not minted again.
  pub mint_part-total :
      (sequence : ℕ) (part : Part) (q : Requirement)
      → requirement_of requirements part ≡ some q
      → total (mint_part r lot_id requirements batch_size sequence part)
        ≡ min (q.required_quantity - r.planned_sum lot_id part.id) (
            (series_count q.required_quantity batch_size - r.batch_count lot_id part.id)
            * batch_size)
  unfolding mint_part
  mint_part-total sequence part q of_part =
      rw (of_part, mint_part)
        (mint_series-total part.id q.id batch_size (series_count q.required_quantity batch_size)
          (series_count q.required_quantity batch_size - r.batch_count lot_id part.id)
          (suc (r.batch_count lot_id part.id)) sequence
          (q.required_quantity - r.planned_sum lot_id part.id))

  -- The batches that a release mints are numbered without a gap or a repetition, from the number of
  -- batches that the lot already has.
  pub mint_all-numbers :
      (sequence : ℕ) (parts : List Part)
      → let trays = mint_all r lot_id requirements batch_size sequence parts in
        map (λ (t : Tray). t.sequence) trays ≡ numbers_after sequence (length trays)
  unfolding mint_all
  mint_all-numbers sequence [] = refl
  mint_all-numbers sequence (part ∷ parts) =
      let trays = mint_part r lot_id requirements batch_size sequence part in
      let rest = mint_all r lot_id requirements batch_size (sequence + length trays) parts in
      rw
        (
          map-append (λ (t : Tray). t.sequence) trays rest,
          length-append trays rest,
          mint_part-numbers sequence part,
          mint_all-numbers (sequence + length trays) parts,
        )
        (sym (numbers_after-append sequence (length trays) (length rest)))

  total_of-absent :
      (part_id : String) (sequence : ℕ) (parts : List Part)
      → All (λ q. part_id ≢ q.id) parts
      → total_of part_id (mint_all r lot_id requirements batch_size sequence parts) ≡ 0
  unfolding mint_all
  total_of-absent part_id sequence [] h = refl
  total_of-absent part_id sequence (part ∷ parts) (h, hs) =
      let trays = mint_part r lot_id requirements batch_size sequence part in
      let rest = mint_all r lot_id requirements batch_size (sequence + length trays) parts in
      omega (
        arith,
        total_of-append part_id trays rest,
        total_of-other part_id part.id batch_size (count_of part) trays (λ e. h (sym e))
            (mint_part-IsTray sequence part),
        total_of-absent part_id (sequence + length trays) parts hs,
      )

  mint_part-covers :
      (sequence : ℕ) (part : Part) (q : Requirement)
      → requirement_of requirements part ≡ some q
      → r.batch_count lot_id part.id * batch_size ≤ r.planned_sum lot_id part.id
      → total (mint_part r lot_id requirements batch_size sequence part)
          + r.planned_sum lot_id part.id
        ≡ max q.required_quantity (r.planned_sum lot_id part.id)
  mint_part-covers sequence part q of_part full = omega (
    arith,
    mint_part-total sequence part q of_part,
    slots_cover (series_count q.required_quantity batch_size) (r.batch_count lot_id part.id)
        batch_size q.required_quantity (r.planned_sum lot_id part.id)
        (series_count-covers q.required_quantity batch_size sized) full,
  )

  -- A release plans each part in full, once: for a part with a requirement, the pieces of the trays
  -- that it mints for the part and the pieces that were planned before add up to the required
  -- quantity, or to those planned before where they are more. The batches that the lot had for the
  -- part held a full tray each, or more, and the parts' ids differ.
  pub mint_all-covers :
      (sequence : ℕ) (parts : List Part) (part : Part) (q : Requirement)
      → HasPartIds parts
      → Any (λ p. p ≡ part) parts
      → requirement_of requirements part ≡ some q
      → r.batch_count lot_id part.id * batch_size ≤ r.planned_sum lot_id part.id
      → total_of part.id (mint_all r lot_id requirements batch_size sequence parts)
          + r.planned_sum lot_id part.id
        ≡ max q.required_quantity (r.planned_sum lot_id part.id)
  unfolding mint_all
  mint_all-covers sequence [] part q d m of_part full = absurd m
  mint_all-covers sequence (p ∷ parts) part q (d, ds) (inl same) of_part full =
      let trays = mint_part r lot_id requirements batch_size sequence p in
      let rest = mint_all r lot_id requirements batch_size (sequence + length trays) parts in
      let ids : p.id ≡ part.id = ap (λ (x : Part). x.id) same in
      rw (← ids) (
        omega (
          arith,
          total_of-append p.id trays rest,
          mint_part-covers sequence p q (rw same of_part) (rw same full),
          total_of-own p.id batch_size (count_of p) trays (mint_part-IsTray sequence p),
          total_of-absent p.id (sequence + length trays) parts d,
        ))
  mint_all-covers sequence (p ∷ parts) part q (d, ds) (inr m) of_part full =
      let trays = mint_part r lot_id requirements batch_size sequence p in
      let rest = mint_all r lot_id requirements batch_size (sequence + length trays) parts in
      omega (
        arith,
        total_of-append part.id trays rest,
        total_of-other part.id p.id batch_size (count_of p) trays
            (λ e. All-Any (λ x. p.id ≢ x.id) part parts d m e) (mint_part-IsTray sequence p),
        mint_all-covers (sequence + length trays) parts part q ds m of_part full,
      )
