-- ===== src/Identity/Accounts.antt =====
-- The accounts of the subjects: the tables that app/pats/subject-admin.ts and
-- app/identity/local-auth.ts write, the repository app/identity/prisma-subject-repository.ts that
-- reads them, and the gate of app/canonical/router.ts that admits a subject to a command.
pub mod Subjects
pub mod Login
pub mod Effects
pub mod Authority
pub mod Roles
pub mod Rows
pub mod Integrity
mod Tests
use bnpi_pats_api.Base.{
  ℕ, String, List, [], ◌∷◌, ◌++◌, Option, none, some, Bool, true, false, ◌&&◌, str_eq, find,
  if◌then◌else◌,
}
use bnpi_pats_api.Command.Audit.{Logged}
use bnpi_pats_api.Identity.Policy.{
  AssignmentKind, capability, role_bundle, AssignmentStatus, Assignment, has_capability,
}

pub data SubjectStatus : Type 0 where
  enabled disabled : SubjectStatus

pub record Subject : Type 0 where
  pub id : String
  pub provider : String
  pub issuer : String
  pub provider_subject : String
  pub display_name_snapshot : Option String
  pub email_snapshot : Option String
  pub status : SubjectStatus
  pub created_at : String
  pub updated_at : String

pub record Credential : Type 0 where
  pub subject_id : String
  pub username : String
  pub password_hash : String
  pub last_login_at : Option String

pub record AssignmentRow : Type 0 where
  pub subject_id : String
  pub kind : AssignmentKind
  pub key : String
  pub status : AssignmentStatus
  pub suspended_at : Option String
  pub revoked_at : Option String

pub record Accounts : Type 0 where
  pub subjects : List Subject
  pub credentials : List Credential
  pub assignments : List AssignmentRow
  pub log : List (Logged (Unit {0}))

abbrev pub has_id : String → Subject → Bool
has_id id u = str_eq u.id id

abbrev pub belongs_to : String → Credential → Bool
belongs_to id c = str_eq c.subject_id id

abbrev pub has_username : String → Credential → Bool
has_username name c = str_eq c.username name

abbrev pub is_enabled : SubjectStatus → Bool
is_enabled enabled = true
is_enabled disabled = false

abbrev pub is_bundle : AssignmentKind → Bool
is_bundle role_bundle = true
is_bundle capability = false

-- `findById`
abbrev pub find_by_id : Accounts → String → Option Subject
find_by_id s id = find (has_id id) s.subjects

abbrev as_record : AssignmentRow → Assignment
as_record a = record { kind = a.kind; key = a.key; status = a.status }

abbrev pub records_of : String → List AssignmentRow → List Assignment
records_of id [] = []
records_of id (a ∷ rest) =
    let more = records_of id rest in if str_eq a.subject_id id then as_record a ∷ more else more

-- `listAssignments`, in the order of the table: the order of the query decides no capability.
unfoldable pub list_assignments : Accounts → String → List Assignment
list_assignments s id = records_of id s.assignments

-- `requireCanonicalIdentity` and then `requireCanonicalCapability`, for the subject that a valid
-- token names.
unfoldable pub admits : Accounts → String → String → Bool
admits s id wanted = elim (find_by_id s id) [
  | none ↦ false
  | some u ↦ is_enabled u.status && has_capability (list_assignments s id) wanted
]
