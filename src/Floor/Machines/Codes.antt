-- ===== src/Floor/Machines/Codes.antt =====
-- Machine codes are unique across the floor: the checks of the two commands keep the column's
-- constraint from being tripped.
use bnpi_pats_api.Base.{
  ℕ, String, List, [], ◌∷◌, ◌++◌, Option, none, some, Bool, true, false, ◌≡◌, ◌≤◌, ◌+◌, refl, arith,
  eq_iff, any, inl, inr, Option-cases,
}
use bnpi_pats_api.Command.Request.{Request}
use bnpi_pats_api.Command.Idempotency.{CommandResponse}
use bnpi_pats_api.Floor.{
  Floor, Machine, Database, database, floor_of, ok, machine_of, update_many, delete_many, count,
  count-append, count-delete_many, count-any,
}
use bnpi_pats_api.Floor.Machines.{
  MachineCreateBody, MachinePatchBody, has_code, has_machine_id, machine_row, clashes, on_line,
  patched, create_machine, patch_machine, delete_machine, current_machine,
}

-- No two machines have one code, or one id.
pub record IsUnique (s : Floor) : Type 0 where
  pub codes : (code : String) → count (has_code code) s.machines ≤ 1
  pub ids : (id : String) → count (has_machine_id id) s.machines ≤ 1

abbrev one_if : Bool → ℕ
one_if true = 1
one_if false = 0

count-untouched :
    (q : Machine → Bool) (f : Machine → Machine) (id : String) (ms : List Machine)
    → count (has_machine_id id) ms ≡ 0
    → count q (update_many (has_machine_id id) f ms) ≡ count q ms
count-untouched q f id [] h = refl
count-untouched q f id (m ∷ ms) h = ground (arith, count-untouched q f id ms)

-- Where ids are unique, an update by id counts the new row for the old one.
count-updated :
    (q : Machine → Bool) (f : Machine → Machine) (id : String) (ms : List Machine) (m : Machine)
    → machine_of ms id ≡ some m
    → count (has_machine_id id) ms ≤ 1
    → count q (update_many (has_machine_id id) f ms) + one_if (q m) ≡ count q ms + one_if (q (f m))
count-updated q f id [] m there unique = cc
count-updated q f id (x ∷ ms) m there unique =
    ground (arith, count-updated q f id ms m, count-untouched q f id ms)

create_machine-effect :
    (req : Request) (line_id id : String) (body : MachineCreateBody) (d : Database)
    {r : CommandResponse} {t : Floor}
    → create_machine req line_id id body d ≡ ok r (database t)
    → (any (has_code body.machine_code) (floor_of d).machines ≡ false)
      × (t.machines
          ≡ (floor_of d).machines
            ++ machine_row line_id id body (count (on_line line_id) (floor_of d).machines) ∷ [])
unfolding create_machine
create_machine-effect req line_id id body d done = (ground arith, ground arith)

patch_machine-effect :
    (req : Request) (line_id id : String) (body : MachinePatchBody) (d : Database)
    {r : CommandResponse} {t : Floor}
    → patch_machine req line_id id body d ≡ ok r (database t)
    → (m : Machine) × (machine_of (floor_of d).machines id ≡ some m)
      × (clashes body.machine_code m (floor_of d) ≡ false)
      × (t.machines ≡ update_many (has_machine_id id) (patched body) (floor_of d).machines)
unfolding patch_machine current_machine
patch_machine-effect req line_id id body d done =
    elim (Option-cases (machine_of (floor_of d).machines id)) [
      | inl missing ↦ ground arith
      | inr (m, there) ↦ (m, there, ground arith, ground arith)
    ]

delete_machine-effect :
    (req : Request) (line_id id : String) (d : Database) {r : CommandResponse} {t : Floor}
    → delete_machine req line_id id d ≡ ok r (database t)
    → t.machines ≡ delete_many (has_machine_id id) (floor_of d).machines
unfolding delete_machine current_machine
delete_machine-effect req line_id id d done = ground arith

-- A new code that no machine has, or the machine's own, leaves the codes unique.
codes_after_patch :
    (body : MachinePatchBody) (id code : String) (m : Machine) (s : Floor)
    → IsUnique s
    → machine_of s.machines id ≡ some m
    → clashes body.machine_code m s ≡ false
    → count (has_code code) (update_many (has_machine_id id) (patched body) s.machines) ≤ 1
codes_after_patch body id code m s u there free = split body.machine_code refl
  where
    split :
        (o : Option String)
        → body.machine_code ≡ o
        → count (has_code code) (update_many (has_machine_id id) (patched body) s.machines) ≤ 1
    split none same = ground (
      arith,
      count-updated (has_code code) (patched body) id s.machines m there (u.ids id),
      u.codes code,
    )
    split (some new) moved = ground (
      arith,
      count-updated (has_code code) (patched body) id s.machines m there (u.ids id),
      u.codes code,
      count-any (has_code new) s.machines,
      eq_iff m.machine_code code,
      eq_iff new code,
      eq_iff new m.machine_code,
    )

pub create_machine-IsUnique :
    (req : Request) (line_id id : String) (body : MachineCreateBody) (s : Floor)
    {r : CommandResponse} {t : Floor}
    → IsUnique s
    → count (has_machine_id id) s.machines ≡ 0
    → create_machine req line_id id body (database s) ≡ ok r (database t)
    → IsUnique t
create_machine-IsUnique req line_id id body s u fresh done =
    let (free, wrote) = create_machine-effect req line_id id body (database s) done in
    let new : Machine = machine_row line_id id body (count (on_line line_id) s.machines) in
    record {
      codes = λ code.
          rw (wrote, count-append (has_code code) s.machines (new ∷ []))
            (ground (
              arith,
              u.codes code,
              count-any (has_code body.machine_code) s.machines free,
              eq_iff body.machine_code code,
            ));
      ids = λ k.
          rw (wrote, count-append (has_machine_id k) s.machines (new ∷ []))
            (ground (arith, u.ids k, eq_iff id k));
    }

pub patch_machine-IsUnique :
    (req : Request) (line_id id : String) (body : MachinePatchBody) (s : Floor)
    {r : CommandResponse} {t : Floor}
    → IsUnique s
    → patch_machine req line_id id body (database s) ≡ ok r (database t)
    → IsUnique t
patch_machine-IsUnique req line_id id body s u done =
    let (m, there, free, wrote) = patch_machine-effect req line_id id body (database s) done in
    record {
      codes = λ code. rw wrote (codes_after_patch body id code m s u there free);
      ids = λ k. rw wrote (
          ground (
            arith,
            u.ids k,
            count-updated (has_machine_id k) (patched body) id s.machines m there (u.ids id),
          ));
    }

pub delete_machine-IsUnique :
    (req : Request) (line_id id : String) (s : Floor) {r : CommandResponse} {t : Floor}
    → IsUnique s
    → delete_machine req line_id id (database s) ≡ ok r (database t)
    → IsUnique t
delete_machine-IsUnique req line_id id s u done =
    let wrote = delete_machine-effect req line_id id (database s) done in
    record {
      codes = λ code. rw wrote (
          ground (
            arith,
            u.codes code,
            count-delete_many (has_code code) (has_machine_id id) s.machines,
          ));
      ids = λ k. rw wrote (
          ground
            (arith, u.ids k, count-delete_many (has_machine_id k) (has_machine_id id) s.machines));
    }

-- A command on machines that succeeds; a new machine has a new id.
pub data Change (s t : Floor) : Type 0 where
  creates :
      (req : Request) (line_id id : String) (body : MachineCreateBody) (r : CommandResponse)
      → count (has_machine_id id) s.machines ≡ 0
      → create_machine req line_id id body (database s) ≡ ok r (database t)
      → Change s t
  patches :
      (req : Request) (line_id id : String) (body : MachinePatchBody) (r : CommandResponse)
      → patch_machine req line_id id body (database s) ≡ ok r (database t)
      → Change s t
  deletes :
      (req : Request) (line_id id : String) (r : CommandResponse)
      → delete_machine req line_id id (database s) ≡ ok r (database t)
      → Change s t

-- No two machines of the floor share a code or an id after a machine is created with a new id,
-- patched, or deleted, if none did before.
pub Change-IsUnique : {s t : Floor} → Change s t → IsUnique s → IsUnique t
Change-IsUnique {s} (creates req line_id id body r fresh done) u =
    create_machine-IsUnique req line_id id body s u fresh done
Change-IsUnique {s} (patches req line_id id body r done) u =
    patch_machine-IsUnique req line_id id body s u done
Change-IsUnique {s} (deletes req line_id id r done) u =
    delete_machine-IsUnique req line_id id s u done
