-- ===== src/Identity/Accounts/Subjects.antt =====
-- `POST /subjects` of app/pats/subject-admin.ts, and what it shares with the patch. `hash` is
-- `argon2.hash`; a new row's id and the time are arguments.
pub mod Patch
use bnpi_pats_api.Base.{
  String, List, [], ◌∷◌, ◌++◌, Option, none, some, Bool, false, not, ◌&&◌, str_eq, find, any, first,
  is_some, get_or, if◌then◌else◌,
}
use bnpi_pats_api.Base.Json.{Json, bool, str, Fields, end, field}
use bnpi_pats_api.Command.Problem.{
  problem_of, unique_constraint, other_error, not_found, conflict, forbidden,
}
use bnpi_pats_api.Command.Request.{Request, actor_id}
use bnpi_pats_api.Command.Audit.{record_command_success}
use bnpi_pats_api.Command.Idempotency.{Outcome, returned, failed}
use bnpi_pats_api.Identity.Policy.{active, revoked, role_bundle, sort, is_active}
use bnpi_pats_api.Identity.Accounts.{
  SubjectStatus, enabled, disabled, is_enabled, Subject, Credential, AssignmentRow, Accounts,
  has_id, belongs_to, has_username, is_bundle, find_by_id,
}
use bnpi_pats_api.Floor.{update_many, named, text_of, nullable_of, written}

pub data RoleBundle : Type 0 where
  admin qi operator : RoleBundle

abbrev pub role_key : RoleBundle → String
role_key admin = "admin"
role_key qi = "qi"
role_key operator = "operator"

-- The bodies as their schemas return them: the user name and the email trimmed and in lower case.
pub record SubjectCreateBody : Type 0 where
  pub username : String
  pub password : String
  pub display_name : String
  pub email : Option String
  pub role : RoleBundle

-- An email that is present may be null.
pub record SubjectPatchBody : Type 0 where
  pub display_name : Option String
  pub email : Option (Option String)
  pub status : Option SubjectStatus
  pub role : Option RoleBundle
  pub password : Option String

pub record SubjectResource : Type 0 where
  pub id : String
  pub username : Option String
  pub display_name : Option String
  pub email : Option String
  pub status : SubjectStatus
  pub role : Option String
  pub last_login_at : Option String
  pub created_at : String
  pub updated_at : String

-- An active role bundle of the subject.
abbrev pub is_role_of : String → AssignmentRow → Bool
is_role_of id a = str_eq a.subject_id id && is_bundle a.kind && is_active a.status

abbrev pub keys_of : String → List AssignmentRow → List String
keys_of id [] = []
keys_of id (a ∷ rest) = let more = keys_of id rest in if is_role_of id a then a.key ∷ more else more

abbrev login_of : Option Credential → Option String
login_of none = none
login_of (some c) = c.last_login_at

abbrev username_of : Option Credential → Option String
username_of none = none
username_of (some c) = some c.username

-- `toResource`
unfoldable pub to_resource : Accounts → Subject → SubjectResource
to_resource s u = record {
  id = u.id;
  username = username_of (find (belongs_to u.id) s.credentials);
  display_name = u.display_name_snapshot;
  email = u.email_snapshot;
  status = u.status;
  role = first (sort (keys_of u.id s.assignments));
  last_login_at = login_of (find (belongs_to u.id) s.credentials);
  created_at = u.created_at;
  updated_at = u.updated_at;
}

-- `recordCommandSuccess`
abbrev pub logged : Request → String → String → Fields → Accounts → Accounts
logged req action id detail s = record s {
  log = s.log ++ written (record_command_success req action "Subject" id detail);
}

abbrev pub new_subject : String → String → SubjectCreateBody → Subject
new_subject now id body = record {
  id = id;
  provider = "local";
  issuer = "pats-local";
  provider_subject = body.username;
  display_name_snapshot = some body.display_name;
  email_snapshot = body.email;
  status = enabled;
  created_at = now;
  updated_at = now;
}

abbrev pub role_row : String → RoleBundle → AssignmentRow
role_row id role = record {
  subject_id = id;
  kind = role_bundle;
  key = role_key role;
  status = active;
  suspended_at = none;
  revoked_at = none;
}

abbrev pub new_credential : (String → String) → String → SubjectCreateBody → Credential
new_credential hash id body = record {
  subject_id = id;
  username = body.username;
  password_hash = hash body.password;
  last_login_at = none;
}

-- The transaction of a creation.
unfoldable pub add_subject :
    (String → String) → Request → String → String → SubjectCreateBody → Accounts → Accounts
add_subject hash req now id body s =
    logged req "SUBJECT_CREATED" id
      (field "username" (str body.username) (field "roleBundle" (str (role_key body.role)) end))
      (record s {
        subjects = s.subjects ++ new_subject now id body ∷ [];
        credentials = s.credentials ++ new_credential hash id body ∷ [];
        assignments = s.assignments ++ role_row id body.role ∷ [];
      })

-- `@@unique([provider, issuer, providerSubject])`
abbrev same_provider_subject : String → Subject → Bool
same_provider_subject name u =
    str_eq u.provider "local" && str_eq u.issuer "pats-local" && str_eq u.provider_subject name

-- The response is 201, with the location of the subject.
unfoldable pub create_subject :
    (String → String)
    → Request
    → String
    → String
    → SubjectCreateBody
    → Accounts
    → Outcome (SubjectResource × Accounts)
create_subject hash req now id body s =
    let t = add_subject hash req now id body s in
    if any (has_username body.username) s.credentials
    then failed (problem_of (conflict "The requested username is already in use."))
    else if any (same_provider_subject body.username) s.subjects
    then failed unique_constraint
    else returned (to_resource t (new_subject now id body), t)
