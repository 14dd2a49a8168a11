-- ===== src/Planning/Release/Plans.antt =====
-- What the release of a project plans.
use bnpi_pats_api.Base.{
  ℕ, String, List, [], ◌∷◌, ◌++◌, Bool, ◌+◌, ◌≡◌, ◌≢◌, sym, All, Any, arith, str_eq, Bool-cases,
  ◌⊎◌, inl, inr, if◌then◌else◌,
}
use bnpi_pats_api.Command.Request.{Request}
use bnpi_pats_api.Command.Audit.{Logged, row, audit_record, outbox_message}
use bnpi_pats_api.Planning.{Part, Lot, PlanWrite, batch_create}
use bnpi_pats_api.Planning.Mint.{Tray}
use bnpi_pats_api.Planning.Mint.Laws.{total_of}
use bnpi_pats_api.Planning.Mint.Coverage.{HasPartIds}
use bnpi_pats_api.Planning.Release.{insert_part, sort_parts, mint_writes}

-- The pieces of a part that a list of writes plans: those of the batches that it creates.
abbrev pub planned_by : PlanWrite → String → ℕ
planned_by (batch_create b) id = if str_eq b.part_id id then b.planned_quantity else 0
planned_by _ id = 0

abbrev pub planned_in : List (Logged PlanWrite) → String → ℕ
planned_in [] id = 0
planned_in (row w ∷ ws) id = planned_by w id + planned_in ws id
planned_in (audit_record _ ∷ ws) id = planned_in ws id
planned_in (outbox_message _ ∷ ws) id = planned_in ws id

pub planned_in-mint_writes :
    (req : Request) (lot : Lot) (batch_size : ℕ) (batch_id : ℕ → String) (ts : List Tray)
    (rest : List (Logged PlanWrite)) (id : String)
    → planned_in (mint_writes req lot batch_size batch_id ts ++ rest) id
      ≡ total_of id ts + planned_in rest id
unfolding mint_writes
planned_in-mint_writes req lot size batch_id [] rest id = omega arith
planned_in-mint_writes req lot size batch_id (t ∷ ts) rest id =
    omega (arith, planned_in-mint_writes req lot size batch_id ts rest id)

module _ (locale_le : String → String → Bool) where
  All-insert_part {ℓ} :
      (P : Part → Type ℓ) (p : Part) (ps : List Part)
      → P p
      → All P ps
      → All P (insert_part locale_le p ps)
  unfolding insert_part
  All-insert_part P p [] h hs = (h, tt)
  All-insert_part P p (q ∷ qs) h (k, ks) = elim (Bool-cases (locale_le p.part_code q.part_code)) [
    | inl before ↦ rw before (h, (k, ks))
    | inr after ↦ rw after (k, All-insert_part P p qs h ks)
  ]

  All-sort_parts {ℓ} :
      (P : Part → Type ℓ) (ps : List Part) → All P ps → All P (sort_parts locale_le ps)
  unfolding sort_parts
  All-sort_parts P [] hs = tt
  All-sort_parts P (p ∷ ps) (h, hs) =
      All-insert_part P p (sort_parts locale_le ps) h (All-sort_parts P ps hs)

  HasPartIds-insert_part :
      (p : Part) (ps : List Part)
      → All (λ q. p.id ≢ q.id) ps
      → HasPartIds ps
      → HasPartIds (insert_part locale_le p ps)
  unfolding insert_part
  HasPartIds-insert_part p [] h d = (tt, tt)
  HasPartIds-insert_part p (q ∷ qs) (h, hs) (d, ds) =
      elim (Bool-cases (locale_le p.part_code q.part_code)) [
        | inl before ↦ rw before ((h, hs), (d, ds))
        | inr after ↦ rw after (
          All-insert_part (λ x. q.id ≢ x.id) p qs (λ e. h (sym e)) d,
          HasPartIds-insert_part p qs hs ds,
        )
      ]

  pub HasPartIds-sort_parts :
      (ps : List Part) → HasPartIds ps → HasPartIds (sort_parts locale_le ps)
  unfolding sort_parts
  HasPartIds-sort_parts [] d = tt
  HasPartIds-sort_parts (p ∷ ps) (d, ds) =
      HasPartIds-insert_part p (sort_parts locale_le ps) (All-sort_parts (λ q. p.id ≢ q.id) ps d)
        (HasPartIds-sort_parts ps ds)

  Any-insert_part :
      (p : Part) (ps : List Part) (x : Part)
      → (p ≡ x) ⊎ Any (λ q. q ≡ x) ps
      → Any (λ q. q ≡ x) (insert_part locale_le p ps)
  unfolding insert_part
  Any-insert_part p [] x m = m
  Any-insert_part p (q ∷ qs) x (inl e) = elim (Bool-cases (locale_le p.part_code q.part_code)) [
    | inl before ↦ rw before (inl e)
    | inr after ↦ rw after (inr (Any-insert_part p qs x (inl e)))
  ]
  Any-insert_part p (q ∷ qs) x (inr (inl e)) =
      elim (Bool-cases (locale_le p.part_code q.part_code)) [
        | inl before ↦ rw before (inr (inl e))
        | inr after ↦ rw after (inl e)
      ]
  Any-insert_part p (q ∷ qs) x (inr (inr n)) =
      elim (Bool-cases (locale_le p.part_code q.part_code)) [
        | inl before ↦ rw before (inr (inr n))
        | inr after ↦ rw after (inr (Any-insert_part p qs x (inr n)))
      ]

  pub Any-sort_parts :
      (ps : List Part) (x : Part) → Any (λ q. q ≡ x) ps → Any (λ q. q ≡ x) (sort_parts locale_le ps)
  unfolding sort_parts
  Any-sort_parts [] x m = absurd m
  Any-sort_parts (p ∷ ps) x (inl e) = Any-insert_part p (sort_parts locale_le ps) x (inl e)
  Any-sort_parts (p ∷ ps) x (inr m) =
      Any-insert_part p (sort_parts locale_le ps) x (inr (Any-sort_parts ps x m))
