-- ===== src/Floor/Integrity/Tree.antt =====
-- The references to processes: the parents within the tree, and the lines that run a process.
use bnpi_pats_api.Base.{
  ℕ, String, List, [], ◌∷◌, ◌++◌, Option, none, some, Bool, true, false, not, ◌&&◌, ◌≡◌, ◌+◌, refl,
  ap, ◌∙◌, arith, str_eq, eq_iff, is_some, All, All-append, any, includes,
}
use bnpi_pats_api.Floor.{
  Line, WorkProcess, process_of, update_many, delete_many, count-any, count-zero, All-update_many,
  All-delete_many, All-map, found-update_many, found-append, find-delete_many,
}
use bnpi_pats_api.Floor.Processes.Removal.{refers}
use bnpi_pats_api.Floor.Processes.Removal.Laws.{names_parent}
use bnpi_pats_api.Floor.Sections.Board.{
  assign_processes, number_processes, claimed, released, in_section,
}
use bnpi_pats_api.Floor.Integrity.Catalogue.{HasParent}
use bnpi_pats_api.Floor.Integrity.Rows.{IsRun, All-both}

-- Every process that names a parent names one that exists.
abbrev pub IsRooted : List WorkProcess → Type 0
IsRooted ps = All (λ p. HasParent ps p.parent_process_id) ps

-- A longer table has the parents that a shorter one had.
HasParent-map :
    (ps qs : List WorkProcess)
    → ((id : String) → is_some (process_of ps id) ≡ true → is_some (process_of qs id) ≡ true)
    → (o : Option String) → HasParent ps o
    → HasParent qs o
HasParent-map ps qs more none h = tt
HasParent-map ps qs more (some id) h = more id h

module _ (p : WorkProcess → Bool) (f : WorkProcess → WorkProcess)
    (keeps : (x : WorkProcess) → (f x).id ≡ x.id) (ps : List WorkProcess) where
  same_found :
      (id : String) → is_some (process_of (update_many p f ps) id) ≡ is_some (process_of ps id)
  same_found id =
      found-update_many (λ x. str_eq x.id id) p f (λ x. ap (λ (k : String). str_eq k id) (keeps x))
        ps

  pub update_processes-IsRun : (ls : List Line) → IsRun ps ls → IsRun (update_many p f ps) ls
  update_processes-IsRun ls h =
      All-map (λ l. is_some (process_of ps l.process_id) ≡ true)
        (λ l. is_some (process_of (update_many p f ps) l.process_id) ≡ true)
        (λ l there. same_found l.process_id ∙ there) ls h

  -- The changed rows name parents that were there.
  pub update_processes-IsRooted :
      ((x : WorkProcess)
        → HasParent ps x.parent_process_id
        → p x ≡ true
        → HasParent ps (f x).parent_process_id)
      → IsRooted ps
      → IsRooted (update_many p f ps)
  update_processes-IsRooted named h =
      All-update_many (λ x. HasParent ps x.parent_process_id)
        (λ x. HasParent (update_many p f ps) x.parent_process_id) p f
        (λ x there hit.
          HasParent-map ps (update_many p f ps) (λ id found. same_found id ∙ found)
            (f x).parent_process_id (named x there hit))
        (λ x there _.
          HasParent-map ps (update_many p f ps) (λ id found. same_found id ∙ found)
            x.parent_process_id there)
        ps h

pub append_process-IsRun :
    (x : WorkProcess) (ps : List WorkProcess) (ls : List Line)
    → IsRun ps ls
    → IsRun (ps ++ x ∷ []) ls
append_process-IsRun x ps ls h =
    All-map (λ l. is_some (process_of ps l.process_id) ≡ true)
      (λ l. is_some (process_of (ps ++ x ∷ []) l.process_id) ≡ true)
      (λ l there. found-append (λ y. str_eq y.id l.process_id) ps (x ∷ []) there) ls h

pub append_process-IsRooted :
    (x : WorkProcess) (ps : List WorkProcess)
    → HasParent ps x.parent_process_id
    → IsRooted ps
    → IsRooted (ps ++ x ∷ [])
append_process-IsRooted x ps there h =
    let more = λ (id : String) (found : is_some (process_of ps id) ≡ true).
      found-append (λ y. str_eq y.id id) ps (x ∷ []) found in
    All-append (λ y. HasParent (ps ++ x ∷ []) y.parent_process_id) ps (x ∷ [])
      (All-map (λ y. HasParent ps y.parent_process_id)
        (λ y. HasParent (ps ++ x ∷ []) y.parent_process_id)
        (λ y found. HasParent-map ps (ps ++ x ∷ []) more y.parent_process_id found) ps h)
      (HasParent-map ps (ps ++ x ∷ []) more x.parent_process_id there, tt)

-- A process that no line runs and that no other names as its parent can go.
still_found :
    (id k : String) (ps : List WorkProcess)
    → str_eq k id ≡ false
    → is_some (process_of (delete_many (λ p. str_eq p.id id) ps) k) ≡ is_some (process_of ps k)
still_found id k ps apart = ap is_some (
    find-delete_many (λ p. str_eq p.id k) (λ p. str_eq p.id id)
      (λ p same. ground (arith, eq_iff p.id k, eq_iff p.id id, eq_iff k id)) ps)

pub delete_process-IsRun :
    (id : String) (ps : List WorkProcess) (ls : List Line)
    → All (λ l. str_eq l.process_id id ≡ false) ls
    → IsRun ps ls
    → IsRun (delete_many (λ p. str_eq p.id id) ps) ls
delete_process-IsRun id ps ls elsewhere h =
    All-map (λ l. (str_eq l.process_id id ≡ false) × (is_some (process_of ps l.process_id) ≡ true))
      (λ l. is_some (process_of (delete_many (λ p. str_eq p.id id) ps) l.process_id) ≡ true)
      (λ l (apart, there). still_found id l.process_id ps apart ∙ there) ls
      (All-both (λ l. str_eq l.process_id id ≡ false)
        (λ l. is_some (process_of ps l.process_id) ≡ true) ls elsewhere h)

kept_parent :
    (id : String) (ps : List WorkProcess) (o : Option String)
    → refers id o ≡ false
    → HasParent ps o
    → HasParent (delete_many (λ p. str_eq p.id id) ps) o
kept_parent id ps none apart h = tt
kept_parent id ps (some k) apart h = still_found id k ps apart ∙ h

pub delete_process-IsRooted :
    (id : String) (ps : List WorkProcess)
    → any (names_parent id) ps ≡ false
    → IsRooted ps
    → IsRooted (delete_many (λ p. str_eq p.id id) ps)
delete_process-IsRooted id ps unnamed h =
    let qs = delete_many (λ (p : WorkProcess). str_eq p.id id) ps in
    All-delete_many (λ x. (names_parent id x ≡ false) × HasParent ps x.parent_process_id)
      (λ x. HasParent qs x.parent_process_id) (λ p. str_eq p.id id)
      (λ x (apart, there) other. kept_parent id ps x.parent_process_id (ground arith) there) ps
      (All-both (λ x. names_parent id x ≡ false) (λ x. HasParent ps x.parent_process_id) ps
        (count-zero (names_parent id) ps (count-any (names_parent id) ps unnamed)) h)

-- The updates of a section's processes change neither ids nor parents.
pub assign_processes-IsRooted :
    (section_id : String) (ids : List String) (ps : List WorkProcess) (ls : List Line)
    → IsRun ps ls × IsRooted ps
    → IsRun (assign_processes section_id ids ps) ls × IsRooted (assign_processes section_id ids ps)
unfolding assign_processes
assign_processes-IsRooted section_id ids ps ls (run, rooted) =
    let first = update_many (λ p. includes ids p.id) (claimed section_id) ps in
    (
      update_processes-IsRun (λ p. not (includes ids p.id) && in_section section_id p.section_id)
          released (λ x. refl) first ls
          (update_processes-IsRun (λ p. includes ids p.id) (claimed section_id) (λ x. refl) ps ls
            run),
      update_processes-IsRooted (λ p. not (includes ids p.id) && in_section section_id p.section_id)
          released (λ x. refl) first (λ x there hit. there)
          (update_processes-IsRooted (λ p. includes ids p.id) (claimed section_id) (λ x. refl) ps
            (λ x there hit. there) rooted),
    )

pub number_processes-IsRooted :
    (index : ℕ) (ids : List String) (ps : List WorkProcess) (ls : List Line)
    → IsRun ps ls × IsRooted ps
    → IsRun (number_processes index ids ps) ls × IsRooted (number_processes index ids ps)
unfolding number_processes
number_processes-IsRooted index [] ps ls h = h
number_processes-IsRooted index (id ∷ ids) ps ls (run, rooted) =
    let f = λ (p : WorkProcess). record p { display_order = index } in
    number_processes-IsRooted (index + 1) ids (update_many (λ p. str_eq p.id id) f ps) ls (
      update_processes-IsRun (λ p. str_eq p.id id) f (λ x. refl) ps ls run,
      update_processes-IsRooted (λ p. str_eq p.id id) f (λ x. refl) ps (λ x there hit. there)
          rooted,
    )
