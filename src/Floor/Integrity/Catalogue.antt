-- ===== src/Floor/Integrity/Catalogue.antt =====
-- What the commands on processes and on sections that succeed leave of the same tables.
use bnpi_pats_api.Base.{
  String, List, [], ◌∷◌, ◌++◌, Option, none, some, true, false, ◌≡◌, str_eq, arith, is_some,
}
use bnpi_pats_api.Command.Request.{Request}
use bnpi_pats_api.Command.Idempotency.{CommandResponse}
use bnpi_pats_api.Floor.{
  Floor, WorkProcess, Database, database, floor_of, ok, process_of, update_many, delete_many, count,
  Keeps,
}
use bnpi_pats_api.Floor.Processes.{
  ProcessCreateBody, ProcessPatchBody, process_row, in_sub_stage, parent_missing, truthy, renamed,
  check_sub_stage, check_parent, check_new_parent, create_process, patch_process,
}
use bnpi_pats_api.Floor.Processes.Removal.{
  is_of, detach, descend, maximum_visits, start, delete_process,
}
use bnpi_pats_api.Floor.Integrity.Effects.{Leaves}

-- The parent that a row names is there.
abbrev pub HasParent : List WorkProcess → Option String → Type 0
HasParent ps none = Unit
HasParent ps (some id) = is_some (process_of ps id) ≡ true

check_sub_stage-Keeps : (o : Option String) → Keeps (check_sub_stage o)
unfolding check_sub_stage
check_sub_stage-Keeps o d x d' h = ground arith

check_parent-Keeps : (o : Option String) → Keeps (check_parent o)
unfolding check_parent
check_parent-Keeps o d x d' h = ground arith

check_new_parent-Keeps : (id : String) (o : Option (Option String)) → Keeps (check_new_parent id o)
unfolding check_new_parent
check_new_parent-Keeps id o d x d' h = ground arith

parent_there :
    (s : Floor) (o : Option String) → parent_missing o s ≡ false → HasParent s.processes o
parent_there s none h = tt
parent_there s (some id) h = ground arith

pub accepted_new_parent :
    (id q : String) (d d' : Database)
    → check_new_parent id (some (some q)) d ≡ ok tt d'
    → is_some (process_of (floor_of d).processes q) ≡ true
unfolding check_new_parent
accepted_new_parent id q d d' h = ground arith

pub create_process-Leaves :
    (req : Request) (id : String) (body : ProcessCreateBody) (s : Floor) {r : CommandResponse}
    {t : Floor}
    → create_process req id body (database s) ≡ ok r (database t)
    → HasParent s.processes body.parent_process_id
      × Leaves t s.lines s.assignments s.sections (
          s.processes
          ++ process_row body id (count (in_sub_stage body.sub_stage_id) s.processes) ∷ [])
unfolding create_process
create_process-Leaves req id body s {r} {t} done = (
  parent_there s body.parent_process_id (ground (arith, kept, kept')),
  record {
    lines = ground (arith, kept, kept');
    assignments = ground (arith, kept, kept');
    sections = ground (arith, kept, kept');
    processes = ground (arith, kept, kept');
  },
)
  where
    kept :
        (d : Database)
        → check_sub_stage (truthy body.sub_stage_id) (database s) ≡ ok tt d
        → d ≡ database s
    kept d = check_sub_stage-Keeps (truthy body.sub_stage_id) (database s) tt d

    kept' :
        (d : Database)
        → check_parent (truthy body.parent_process_id) (database s) ≡ ok tt d
        → d ≡ database s
    kept' d = check_parent-Keeps (truthy body.parent_process_id) (database s) tt d

pub patch_process-Leaves :
    (req : Request) (id : String) (body : ProcessPatchBody) (s : Floor) {r : CommandResponse}
    {t : Floor}
    → patch_process req id body (database s) ≡ ok r (database t)
    → (check_new_parent id body.parent_process_id (database s) ≡ ok tt (database s))
      × Leaves t s.lines s.assignments s.sections
          (update_many (λ p. str_eq p.id id) (renamed body) s.processes)
unfolding patch_process
patch_process-Leaves req id body s {r} {t} done = (
  ground (arith, kept),
  record {
    lines = ground (arith, kept);
    assignments = ground (arith, kept);
    sections = ground (arith, kept);
    processes = ground (arith, kept);
  },
)
  where
    kept :
        (d : Database)
        → check_new_parent id body.parent_process_id (database s) ≡ ok tt d
        → d ≡ database s
    kept d = check_new_parent-Keeps id body.parent_process_id (database s) tt d

pub delete_process-Leaves :
    (req : Request) (id : String) (s : Floor) {r : CommandResponse} {t : Floor}
    → delete_process req id (database s) ≡ ok r (database t)
    → (count (is_of id) s.lines ≡ 0)
      × Leaves t s.lines s.assignments s.sections (
          delete_many
            (λ p. str_eq p.id id)
            (detach id (descend maximum_visits s.processes id (id ∷ []) (start id)) s).processes)
unfolding delete_process
delete_process-Leaves req id s done = (
  ground arith,
  record {
    lines = ground arith;
    assignments = ground arith;
    sections = ground arith;
    processes = ground arith;
  },
)
