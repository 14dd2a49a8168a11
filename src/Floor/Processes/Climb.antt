-- ===== src/Floor/Processes/Climb.antt =====
-- The tree stays a tree: what the walk of `PATCH /work-processes/:processId` up the new parent's chain
-- is for.
use bnpi_pats_api.Base.{
  ℕ, zero, suc, ◌+◌, ◌≤◌, String, [], ◌∷◌, Option, none, some, false, ◌≡◌, refl, ap, arith, str_eq,
  eq_iff, inl, inr, Option-cases, find-passes,
}
use bnpi_pats_api.Command.Request.{Request}
use bnpi_pats_api.Command.Idempotency.{CommandResponse}
use bnpi_pats_api.Floor.{Floor, WorkProcess, ok, process_of, Database, database, floor_of, Keeps}
use bnpi_pats_api.Floor.Processes.{
  ProcessPatchBody, climb, maximum_hops, check_new_parent, patch_process,
}
use bnpi_pats_api.Floor.Processes.Chains.{
  parent_of, after_patch, parent_in, Chain, climb-Avoids, Avoids, chains-after, IsBehind,
  chains_kept, Chain-after,
}

-- Every chain of parents ends, after `bound` entries at most.
abbrev pub IsBounded : ℕ → Floor → Type 0
IsBounded bound s = (c : String) → (n : ℕ) × Chain n s.processes (some c) × (n ≤ bound)

abbrev pub IsAcyclic : Floor → Type 0
IsAcyclic s = (c : String) → (n : ℕ) × Chain n s.processes (some c)

check_new_parent-Keeps : (id : String) (o : Option (Option String)) → Keeps (check_new_parent id o)
unfolding check_new_parent
check_new_parent-Keeps id o d a d' h = ground arith

-- What a patch that succeeds read and wrote.
patch_process-effect :
    (req : Request) (id : String) (body : ProcessPatchBody) (d : Database) {r : CommandResponse}
    {t : Floor}
    → patch_process req id body d ≡ ok r (database t)
    → (p : WorkProcess) × (process_of (floor_of d).processes id ≡ some p)
      × (check_new_parent id body.parent_process_id d ≡ ok tt d)
      × (t.processes ≡ after_patch (floor_of d).processes id body)
unfolding patch_process
patch_process-effect req id body d {r} {t} done =
    elim (Option-cases (process_of (floor_of d).processes id)) [
      | inl missing ↦ ground arith
      | inr (p, there) ↦ (
        p,
        there,
        ground (arith, check_new_parent-Keeps id body.parent_process_id d tt),
        ground (arith, check_new_parent-Keeps id body.parent_process_id d tt),
      )
    ]

-- A new parent that the check lets through.
accepted_parent :
    (id q : String) (d d' : Database)
    → check_new_parent id (some (some q)) d ≡ ok tt d'
    → (p : WorkProcess) × (process_of (floor_of d).processes q ≡ some p)
      × (str_eq q id ≡ false)
      × (climb maximum_hops (floor_of d).processes id (p.id ∷ []) p.parent_process_id ≡ false)
unfolding check_new_parent
accepted_parent id q d d' h = elim (Option-cases (process_of (floor_of d).processes q)) [
  | inl missing ↦ ground arith
  | inr (p, there) ↦ (p, there, ground arith, ground arith)
]

-- The chain of a parent that the check lets through avoids the process.
accepted-Avoids :
    (id q : String) (d d' : Database) (n : ℕ)
    → process_of (floor_of d).processes "" ≡ none
    → str_eq "" id ≡ false
    → check_new_parent id (some (some q)) d ≡ ok tt d'
    → Chain n (floor_of d).processes (some q)
    → n ≤ maximum_hops + 1
    → Avoids id n (floor_of d).processes (some q)
accepted-Avoids id q d d' zero no_empty full checked chain short = tt
accepted-Avoids id q d d' (suc n) no_empty full checked chain short =
    let (p, there, apart, clear) = accepted_parent id q d d' checked in
    let ps = (floor_of d).processes in
    let up : parent_of ps q ≡ p.parent_process_id = ap parent_in there in
    let same : p.id ≡ q = (eq_iff p.id q).0 (find-passes (λ w. str_eq w.id q) ps p there) in
    let behind : IsBehind ps n p.id = rw same (suc n, chain, omega arith) in
    (
      apart,
      climb-Avoids maximum_hops n ps id (p.id ∷ []) (parent_of ps q) no_empty full chain
          (omega arith) (behind, tt) (rw up clear),
    )

-- A patch that succeeds leaves a tree: the chain of parents from every process ends, if before it
-- every chain ended after at most 51 entries, which the walk's 50 hops and its start cover. No
-- process has the empty id.
pub patch_process-IsAcyclic :
    (req : Request) (id : String) (body : ProcessPatchBody) (s : Floor) {r : CommandResponse}
    {t : Floor}
    → process_of s.processes "" ≡ none
    → IsBounded (maximum_hops + 1) s
    → patch_process req id body (database s) ≡ ok r (database t)
    → IsAcyclic t
unfolding patch_process
patch_process-IsAcyclic req id body s {r} {t} no_empty bounded done c =
    let (p, there, checked, wrote) = patch_process-effect req id body (database s) done in
    let full : str_eq "" id ≡ false = ground (arith, eq_iff "" id, no_empty, there) in
    let (m, chain, _) = bounded c in
    rw wrote (after_move p there full body.parent_process_id refl checked m chain)
  where
    after_move :
        (p : WorkProcess)
        → process_of s.processes id ≡ some p
        → str_eq "" id ≡ false
        → (o : Option (Option String)) → body.parent_process_id ≡ o
        → check_new_parent id o (database s) ≡ ok tt (database s)
        → (m : ℕ) → Chain m s.processes (some c)
        → (n : ℕ) × Chain n (after_patch s.processes id body) (some c)
    after_move p there full none moves checked m chain =
        (m, chains_kept s.processes id body there moves m (some c) chain)
    after_move p there full (some none) moves checked m chain =
        chains-after s.processes id body there none 0 moves refl m (some c) chain
    after_move p there full (some (some q)) moves checked m chain =
        let (k, above, short) = bounded q in
        let apart =
          accepted-Avoids id q (database s) (database s) k no_empty full checked above short in
        chains-after s.processes id body there (some q) k moves
          (Chain-after s.processes id body there k (some q) above apart) m (some c) chain
