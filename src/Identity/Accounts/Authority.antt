-- ===== src/Identity/Accounts/Authority.antt =====
-- Who may still do what after the accounts change: no command takes the rights of the subject that
-- runs it, so that the right to manage accounts is never lost.
use bnpi_pats_api.Base.{
  String, List, [], ◌∷◌, ◌++◌, Option, none, some, Bool, true, false, ◌≡◌, refl, ◌∙◌, arith, str_eq,
  eq_iff, find-passes, inl, inr, Option-cases,
}
use bnpi_pats_api.Command.Request.{Request, actor_id}
use bnpi_pats_api.Command.Idempotency.{returned}
use bnpi_pats_api.Floor.{update_many, find-append, find-update_many}
use bnpi_pats_api.Identity.Accounts.{
  Accounts, Subject, AssignmentRow, has_id, is_enabled, find_by_id, records_of, list_assignments,
  admits,
}
use bnpi_pats_api.Identity.Accounts.Effects.{patch_subject-effect, change_subject-rows}
use bnpi_pats_api.Identity.Accounts.Subjects.{
  SubjectCreateBody, SubjectPatchBody, SubjectResource, RoleBundle, create_subject, add_subject,
  new_subject, role_row, is_role_of,
}
use bnpi_pats_api.Identity.Accounts.Subjects.Patch.{
  patch_subject, set_role, grant_role, patched, disables, revoke, restore, has_role,
}

records-append :
    (id : String) (xs : List AssignmentRow) (a : AssignmentRow)
    → str_eq a.subject_id id ≡ false
    → records_of id (xs ++ a ∷ []) ≡ records_of id xs
records-append id [] a other = ground arith
records-append id (x ∷ xs) a other = ground (arith, records-append id xs a other)

-- An update of the rows of other subjects.
records-update_many :
    (id : String) (p : AssignmentRow → Bool) (f : AssignmentRow → AssignmentRow)
    → ((x : AssignmentRow) → p x ≡ true → str_eq x.subject_id id ≡ false)
    → ((x : AssignmentRow) → (f x).subject_id ≡ x.subject_id)
    → (xs : List AssignmentRow) → records_of id (update_many p f xs) ≡ records_of id xs
records-update_many id p f other same [] = refl
records-update_many id p f other same (x ∷ xs) =
    ground (arith, other x, same x, records-update_many id p f other same xs)

other_subject :
    (id other : String) (x : AssignmentRow)
    → str_eq id other ≡ false
    → str_eq x.subject_id id ≡ true
    → str_eq x.subject_id other ≡ false
other_subject id other x apart own =
    ground (arith, eq_iff x.subject_id id, eq_iff x.subject_id other, eq_iff id other)

grant_role-others :
    (id other : String) (role : RoleBundle) (rows : List AssignmentRow)
    → str_eq id other ≡ false
    → records_of other (grant_role id role rows) ≡ records_of other rows
unfolding grant_role
grant_role-others id other role rows apart = ground (
  arith,
  records-append other rows (role_row id role) apart,
  records-update_many other (has_role id role) restore
      (λ x own. other_subject id other x apart (ground arith)) (λ x. refl) rows,
)

set_role-others :
    (now id other : String) (role : Option RoleBundle) (rows : List AssignmentRow)
    → str_eq id other ≡ false
    → records_of other (set_role now id role rows) ≡ records_of other rows
unfolding set_role
set_role-others now id other none rows apart = refl
set_role-others now id other (some role) rows apart = ground (
  arith,
  grant_role-others id other role (update_many (is_role_of id) (revoke now) rows) apart,
  records-update_many other (is_role_of id) (revoke now)
      (λ x own. other_subject id other x apart (ground arith)) (λ x. refl) rows,
)

set_role-none : (now id : String) (rows : List AssignmentRow) → set_role now id none rows ≡ rows
unfolding set_role
set_role-none now id rows = refl

-- The subject that acts is admitted to as much after it created another subject.
create_subject-admits :
    (hash : String → String) (req : Request) (now id actor : String) (body : SubjectCreateBody)
    (s t : Accounts) (resource : SubjectResource) (u : Subject)
    → find_by_id s id ≡ none
    → find_by_id s actor ≡ some u
    → create_subject hash req now id body s ≡ returned (resource, t)
    → (wanted : String) → admits t actor wanted ≡ admits s actor wanted
unfolding create_subject add_subject admits list_assignments
create_subject-admits hash req now id actor body s t resource u fresh there made wanted = ground (
  arith,
  find-append (has_id actor) s.subjects (new_subject now id body ∷ []) u there,
  records-append actor s.assignments (role_row id body.role),
  eq_iff id actor,
)

found_admits :
    (s : Accounts) (id wanted : String)
    → admits s id wanted ≡ true
    → (u : Subject) × (find_by_id s id ≡ some u) × (is_enabled u.status ≡ true)
unfolding admits
found_admits s id wanted may = elim (Option-cases (find_by_id s id)) [
  | inl missing ↦ ground arith
  | inr (u, there) ↦ (u, there, ground arith)
]

-- What a patch of a subject by the same subject may hold.
patch_subject-own :
    (hash : String → String) (req : Request) (now id : String) (body : SubjectPatchBody)
    (s t : Accounts) (resource : SubjectResource)
    → actor_id req ≡ id
    → patch_subject hash req now id body s ≡ returned (resource, t)
    → (disables body.status ≡ false) × (body.role ≡ none)
unfolding patch_subject
patch_subject-own hash req now id body s t resource own made =
    elim (Option-cases (find_by_id s id)) [
      | inl missing ↦ ground arith
      | inr (u, there) ↦
          (ground (arith, eq_iff (actor_id req) id), ground (arith, eq_iff (actor_id req) id))
    ]

-- The subject that acts is admitted to as much after it patched a subject, itself or another.
patch_subject-admits :
    (hash : String → String) (req : Request) (now id : String) (body : SubjectPatchBody)
    (s t : Accounts) (resource : SubjectResource) (u : Subject)
    → find_by_id s (actor_id req) ≡ some u
    → is_enabled u.status ≡ true
    → patch_subject hash req now id body s ≡ returned (resource, t)
    → (wanted : String) → admits t (actor_id req) wanted ≡ admits s (actor_id req) wanted
unfolding admits list_assignments
patch_subject-admits hash req now id body s t resource u there on made wanted =
    let (subjects, _, assignments) = change_subject-rows hash req now id body s in
    ground (
      arith,
      (patch_subject-effect hash req now id body s t resource made).0,
      subjects,
      assignments,
      find-update_many (has_id (actor_id req)) (has_id id) (patched now body) (λ x. refl) s.subjects
          u there,
      patch_subject-own hash req now id body s t resource,
      set_role-others now id (actor_id req) body.role s.assignments,
      set_role-none now id s.assignments,
      find-passes (has_id (actor_id req)) s.subjects u there,
      eq_iff u.id (actor_id req),
      eq_iff u.id id,
      eq_iff id (actor_id req),
    )

-- A command that succeeds for a subject that the gate admits to manage accounts: the gate and the
-- command are one step, as where no other command runs between them. A new subject has a new id.
pub data Command (s t : Accounts) : Type 0 where
  creates :
      (hash : String → String) (req : Request) (now id : String) (body : SubjectCreateBody)
      (resource : SubjectResource)
      → admits s (actor_id req) "operations.manage" ≡ true
      → find_by_id s id ≡ none
      → create_subject hash req now id body s ≡ returned (resource, t)
      → Command s t
  patches :
      (hash : String → String) (req : Request) (now id : String) (body : SubjectPatchBody)
      (resource : SubjectResource)
      → admits s (actor_id req) "operations.manage" ≡ true
      → patch_subject hash req now id body s ≡ returned (resource, t)
      → Command s t

abbrev pub actor : {s t : Accounts} → Command s t → String
actor (creates hash req now id body resource may fresh made) = actor_id req
actor (patches hash req now id body resource may made) = actor_id req

pub actor-admits :
    {s t : Accounts} (c : Command s t) (wanted : String)
    → admits t (actor c) wanted ≡ admits s (actor c) wanted
actor-admits {s} {t} (creates hash req now id body resource may fresh made) wanted =
    let (u, there, on) = found_admits s (actor_id req) "operations.manage" may in
    create_subject-admits hash req now id (actor_id req) body s t resource u fresh there made wanted
actor-admits {s} {t} (patches hash req now id body resource may made) wanted =
    let (u, there, on) = found_admits s (actor_id req) "operations.manage" may in
    patch_subject-admits hash req now id body s t resource u there on made wanted

actor-may : {s t : Accounts} (c : Command s t) → admits s (actor c) "operations.manage" ≡ true
actor-may (creates hash req now id body resource may fresh made) = may
actor-may (patches hash req now id body resource may made) = may

pub data Reach (s : Accounts) : Accounts → Type 0 where
  start : Reach s s
  next : {t u : Accounts} → Reach s t → Command t u → Reach s u

-- Some subject is admitted to manage the accounts.
abbrev pub IsManaged : Accounts → Type 0
IsManaged s = (id : String) × (admits s id "operations.manage" ≡ true)

-- However subjects are created, disabled and given other roles by subjects that may manage
-- accounts, themselves included, some subject may still manage accounts.
pub Reach-IsManaged : {s t : Accounts} → Reach s t → IsManaged s → IsManaged t
Reach-IsManaged start managed = managed
Reach-IsManaged (next before c) managed =
    (actor c, actor-admits c "operations.manage" ∙ actor-may c)
