-- ===== src/Identity/Accounts/Subjects/Patch.antt =====
-- `PATCH /subjects/:subjectId` of app/pats/subject-admin.ts.
use bnpi_pats_api.Base.{
  String, List, [], ◌∷◌, ◌++◌, Option, none, some, Bool, false, not, ◌&&◌, str_eq, any, is_some,
  get_or, if◌then◌else◌,
}
use bnpi_pats_api.Base.Json.{Json, bool, str, Fields, end, field}
use bnpi_pats_api.Command.Problem.{problem_of, other_error, not_found, forbidden}
use bnpi_pats_api.Command.Request.{Request, actor_id}
use bnpi_pats_api.Command.Idempotency.{Outcome, returned, failed}
use bnpi_pats_api.Identity.Policy.{active, revoked}
use bnpi_pats_api.Identity.Accounts.{
  SubjectStatus, enabled, disabled, is_enabled, Subject, Credential, AssignmentRow, Accounts,
  has_id, belongs_to, is_bundle, find_by_id,
}
use bnpi_pats_api.Floor.{update_many, named, text_of, nullable_of}
use bnpi_pats_api.Identity.Accounts.Subjects.{
  RoleBundle, role_key, SubjectPatchBody, SubjectResource, is_role_of, role_row, to_resource,
  logged,
}

abbrev pub patched : String → SubjectPatchBody → Subject → Subject
patched now body u = record u {
  display_name_snapshot = elim body.display_name [
    | none ↦ u.display_name_snapshot
    | some n ↦ some n
  ];
  email_snapshot = get_or body.email u.email_snapshot;
  status = get_or body.status u.status;
  updated_at = now;
}

abbrev pub revoke : String → AssignmentRow → AssignmentRow
revoke now a = record a { status = revoked; revoked_at = some now }

abbrev pub restore : AssignmentRow → AssignmentRow
restore a = record a { status = active; suspended_at = none; revoked_at = none }

-- `@@unique([subjectId, kind, key])`
abbrev pub has_role : String → RoleBundle → AssignmentRow → Bool
has_role id role a = str_eq a.subject_id id && is_bundle a.kind && str_eq a.key (role_key role)

-- `upsert`
unfoldable pub grant_role : String → RoleBundle → List AssignmentRow → List AssignmentRow
grant_role id role rows =
    if any (has_role id role) rows
    then update_many (has_role id role) restore rows
    else rows ++ role_row id role ∷ []

unfoldable pub set_role :
    String → String → Option RoleBundle → List AssignmentRow → List AssignmentRow
set_role now id none rows = rows
set_role now id (some role) rows =
    grant_role id role (update_many (is_role_of id) (revoke now) rows)

abbrev set_hash : String → Credential → Credential
set_hash new c = record c { password_hash = new }

unfoldable pub set_password :
    (String → String) → String → Option String → List Credential → List Credential
set_password hash id none rows = rows
set_password hash id (some password) rows =
    update_many (belongs_to id) (set_hash (hash password)) rows

abbrev status_name : SubjectStatus → String
status_name enabled = "ACTIVE"
status_name disabled = "DISABLED"

abbrev status_text : Option SubjectStatus → Option Json
status_text none = none
status_text (some status) = some (str (status_name status))

abbrev role_text : Option RoleBundle → Option Json
role_text none = none
role_text (some role) = some (str (role_key role))

abbrev patch_detail : SubjectPatchBody → Fields
patch_detail body = named "displayName" (text_of body.display_name) (
    named "email" (nullable_of body.email) (
      named "status" (status_text body.status) (
        named "roleBundle" (role_text body.role)
          (field "passwordReset" (bool (is_some body.password)) end))))

-- The transaction of a change.
unfoldable pub change_subject :
    (String → String) → Request → String → String → SubjectPatchBody → Accounts → Accounts
change_subject hash req now id body s =
    logged req "SUBJECT_UPDATED" id (patch_detail body) (record s {
      subjects = update_many (has_id id) (patched now body) s.subjects;
      credentials = set_password hash id body.password s.credentials;
      assignments = set_role now id body.role s.assignments;
    })

abbrev pub disables : Option SubjectStatus → Bool
disables none = false
disables (some status) = not (is_enabled status)

-- `subjectCredential.update` of a subject that has none.
abbrev pub lacks_credential : String → SubjectPatchBody → Accounts → Bool
lacks_credential id body s = is_some body.password && not (any (belongs_to id) s.credentials)

unfoldable pub patch_subject :
    (String → String)
    → Request
    → String
    → String
    → SubjectPatchBody
    → Accounts
    → Outcome (SubjectResource × Accounts)
patch_subject hash req now id body s = elim (find_by_id s id) [
  | none ↦ failed (problem_of (not_found "The requested subject was not found."))
  | some u ↦
      let t = change_subject hash req now id body s in
      let is_self = str_eq (actor_id req) id in
      if is_self && disables body.status
      then failed
          (problem_of (forbidden "The authenticated subject cannot disable its own account."))
      else if is_self && is_some body.role
      then failed (problem_of (forbidden "The authenticated subject cannot change its own role."))
      else if lacks_credential id body s
      then failed (other_error "No record was found for an update.")
      else returned (to_resource t (patched now body u), t)
]
