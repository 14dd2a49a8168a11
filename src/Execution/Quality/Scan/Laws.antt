-- ===== src/Execution/Quality/Scan/Laws.antt =====
-- A second scan finds what the first one left, and what a scan says about deciding is what the
-- decision route does.
use bnpi_pats_api.Base.{
  String, List, some, Bool, true, false, ◌≡◌, ap, ◌∙◌, refl, arith, eq_refl, find, inl, inr,
  Option-cases,
}
use bnpi_pats_api.Command.Idempotency.{returned}
use bnpi_pats_api.Command.Request.{Request}
use bnpi_pats_api.Execution.Quality.Scan.{
  GatedBatch, QcResolveBody, scanned_as, is_batch, opened, inspected, open_inspection_of,
  scan_batch, resolve_quality_inspection_by_code,
}
use bnpi_pats_api.Floor.{find-update_many}

module _ (allowed : List String) (fresh_id other_id : String) (s t : List GatedBatch) where
  -- The batch was inspected already: the scan writes nothing.
  rescan_batch :
      (g : GatedBatch) (body : QcResolveBody)
      → scan_batch allowed fresh_id g s ≡ returned (body, t)
      → body.created ≡ false
      → (t ≡ s) × (scan_batch allowed other_id g s ≡ returned (body, s))
  unfolding scan_batch
  rescan_batch g body ok old = (ground arith, ground arith)

  -- The scan opened an inspection, which the next one finds.
  rescan_opened :
      (g : GatedBatch) (body : QcResolveBody)
      → scan_batch allowed fresh_id g s ≡ returned (body, t)
      → body.created ≡ true
      → (t ≡ open_inspection_of fresh_id g s)
        × (scan_batch allowed other_id (inspected (opened fresh_id g) g) t
            ≡ returned (record body { created = false }, t))
  unfolding scan_batch
  rescan_opened g body ok new = (ground arith, ground arith)

found_after :
    (fresh_id scanned : String) (g : GatedBatch) (s : List GatedBatch)
    → find (scanned_as scanned) s ≡ some g
    → find (scanned_as scanned) (open_inspection_of fresh_id g s)
      ≡ some (inspected (opened fresh_id g) g)
unfolding open_inspection_of
found_after fresh_id scanned g s there = ground (
  arith,
  find-update_many (scanned_as scanned) (is_batch g.found.batch.id) (inspected (opened fresh_id g))
      (λ x. refl) s g there,
  eq_refl g.found.batch.id,
)

seen : (body : QcResolveBody) → body.created ≡ false → record body { created = false } ≡ body
seen body old = ground arith

resolve-found :
    (allowed : List String) (fresh_id scanned : String) (s : List GatedBatch)
    {r : QcResolveBody × List GatedBatch}
    → resolve_quality_inspection_by_code allowed fresh_id scanned s ≡ returned r
    → (g : GatedBatch) × (find (scanned_as scanned) s ≡ some g)
      × (scan_batch allowed fresh_id g s ≡ returned r)
unfolding resolve_quality_inspection_by_code
resolve-found allowed fresh_id scanned s ok = elim (Option-cases (find (scanned_as scanned) s)) [
  | inl missing ↦ ground arith
  | inr (g, there) ↦ (g, there, ground arith)
]

found-resolve :
    (allowed : List String) (fresh_id scanned : String) (s : List GatedBatch) {g : GatedBatch}
    → find (scanned_as scanned) s ≡ some g
    → resolve_quality_inspection_by_code allowed fresh_id scanned s
      ≡ scan_batch allowed fresh_id g s
unfolding resolve_quality_inspection_by_code
found-resolve allowed fresh_id scanned s there = ground arith

-- A scan at a quality gate can be repeated: the same subject scanning the same code again is
-- answered as before, but that nothing was created, and opens no other inspection.
pub resolve_quality_inspection_by_code-again :
    (allowed : List String) (fresh_id other_id scanned : String) (s t : List GatedBatch)
    (body : QcResolveBody)
    → resolve_quality_inspection_by_code allowed fresh_id scanned s ≡ returned (body, t)
    → resolve_quality_inspection_by_code allowed other_id scanned t
      ≡ returned (record body { created = false }, t)
resolve_quality_inspection_by_code-again allowed fresh_id other_id scanned s t body ok =
    let (g, there, scan) = resolve-found allowed fresh_id scanned s ok in
    by_created g there scan body.created refl
  where
    by_created :
        (g : GatedBatch)
        → find (scanned_as scanned) s ≡ some g
        → scan_batch allowed fresh_id g s ≡ returned (body, t)
        → (b : Bool) → body.created ≡ b
        → resolve_quality_inspection_by_code allowed other_id scanned t
          ≡ returned (record body { created = false }, t)
    by_created g there scan false old =
        let (same, again) = rescan_batch allowed fresh_id other_id s t g body scan old in
        rw (same, seen body old, found-resolve allowed other_id scanned s there) again
    by_created g there scan true new =
        let (wrote, again) = rescan_opened allowed fresh_id other_id s t g body scan new in
        let later = found_after fresh_id scanned g s there in
        rw (found-resolve allowed other_id scanned t (ap (find (scanned_as scanned)) wrote ∙ later))
          again
