-- ===== src/Identity/Accounts/Roles.antt =====
-- What a subject may do after its role was set by `PATCH /subjects/:subjectId`.
use bnpi_pats_api.Base.{
  String, List, [], ◌∷◌, ◌++◌, some, Bool, ◌&&◌, ◌||◌, ◌≡◌, refl, arith, any, eq_iff, eq_refl,
  includes, if◌then◌else◌,
}
use bnpi_pats_api.Command.Request.{Request}
use bnpi_pats_api.Command.Idempotency.{returned}
use bnpi_pats_api.Floor.{update_many}
use bnpi_pats_api.Identity.Policy.{
  Assignment, active, role_bundle, role_bundle_capabilities, has_capability,
}
use bnpi_pats_api.Identity.Policy.Laws.{granted, has_capability_lem}
use bnpi_pats_api.Identity.Accounts.{
  Accounts, AssignmentRow, is_bundle, records_of, list_assignments,
}
use bnpi_pats_api.Identity.Accounts.Subjects.{
  SubjectPatchBody, SubjectResource, RoleBundle, role_key, role_row, is_role_of,
}
use bnpi_pats_api.Identity.Accounts.Subjects.Patch.{
  patch_subject, set_role, grant_role, revoke, restore, has_role,
}
use bnpi_pats_api.Identity.Accounts.Effects.{patch_subject-effect, change_subject-rows}

-- The assignments that are not role bundles: capabilities given one by one.
abbrev pub capabilities_only : List Assignment → List Assignment
capabilities_only [] = []
capabilities_only (a ∷ rest) =
    let more = capabilities_only rest in if is_bundle a.kind then more else a ∷ more

-- The subject's assignments if the role were its only bundle.
abbrev pub with_role : RoleBundle → List Assignment → List Assignment
with_role role assignments =
    record { kind = role_bundle; key = role_key role; status = active }
    ∷ capabilities_only assignments

abbrev bundle_grants : String → RoleBundle → Bool
bundle_grants d role = includes (role_bundle_capabilities (role_key role)) d

-- Once the bundles are revoked, only the capabilities grant something.
revoked-grants :
    (now id d : String) (rows : List AssignmentRow)
    → granted (records_of id (update_many (is_role_of id) (revoke now) rows)) d
      ≡ granted (capabilities_only (records_of id rows)) d
revoked-grants now id d [] = refl
revoked-grants now id d (a ∷ rows) = ground (arith, revoked-grants now id d rows)

-- A restored bundle grants what its role has.
restored-grants :
    (id d : String) (role : RoleBundle) (rows : List AssignmentRow)
    → granted (records_of id (update_many (has_role id role) restore rows)) d
      ≡ (any (has_role id role) rows && bundle_grants d role || granted (records_of id rows) d)
restored-grants id d role [] = refl
restored-grants id d role (a ∷ rows) =
    ground (arith, restored-grants id d role rows, eq_iff a.key (role_key role))

appended-grants :
    (id d : String) (role : RoleBundle) (rows : List AssignmentRow)
    → granted (records_of id (rows ++ role_row id role ∷ [])) d
      ≡ (bundle_grants d role || granted (records_of id rows) d)
appended-grants id d role [] = ground (arith, eq_refl id)
appended-grants id d role (a ∷ rows) = ground (arith, appended-grants id d role rows)

grant_role-grants :
    (id d : String) (role : RoleBundle) (rows : List AssignmentRow)
    → granted (records_of id (grant_role id role rows)) d
      ≡ (bundle_grants d role || granted (records_of id rows) d)
unfolding grant_role
grant_role-grants id d role rows =
    ground (arith, restored-grants id d role rows, appended-grants id d role rows)

set_role-grants :
    (now id d : String) (role : RoleBundle) (rows : List AssignmentRow)
    → granted (records_of id (set_role now id (some role) rows)) d
      ≡ granted (with_role role (records_of id rows)) d
unfolding set_role
set_role-grants now id d role rows = ground (
  arith,
  grant_role-grants id d role (update_many (is_role_of id) (revoke now) rows),
  revoked-grants now id d rows,
)

set_role-capability :
    (now id d : String) (role : RoleBundle) (rows : List AssignmentRow)
    → has_capability (records_of id (set_role now id (some role) rows)) d
      ≡ has_capability (with_role role (records_of id rows)) d
set_role-capability now id d role rows = ground (
  arith,
  has_capability_lem (records_of id (set_role now id (some role) rows)) d,
  has_capability_lem (with_role role (records_of id rows)) d,
  set_role-grants now id d role rows,
  set_role-grants now id "daily-metrics.encode" role rows,
  set_role-grants now id "monitoring.station.encode" role rows,
)

-- A patch that sets the role of a subject leaves it the capabilities of that role, with those that
-- were given one by one, and no others: no role that it had before, active or suspended, counts.
pub patch_subject-with_role :
    (hash : String → String) (req : Request) (now id : String) (body : SubjectPatchBody)
    (role : RoleBundle) (s t : Accounts) (resource : SubjectResource)
    → body.role ≡ some role
    → patch_subject hash req now id body s ≡ returned (resource, t)
    → (wanted : String)
    → has_capability (list_assignments t id) wanted
      ≡ has_capability (with_role role (list_assignments s id)) wanted
unfolding list_assignments
patch_subject-with_role hash req now id body role s t resource chosen made wanted = ground (
  arith,
  (patch_subject-effect hash req now id body s t resource made).0,
  (change_subject-rows hash req now id body s).2,
  chosen,
  set_role-capability now id wanted role s.assignments,
)
