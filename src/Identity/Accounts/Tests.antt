-- ===== src/Identity/Accounts/Tests.antt =====
-- An administrator who adds an operator, makes it a quality inspector, and disables it.
use Prim.Native.String.{◌++◌ as join}
use bnpi_pats_api.Base.{
  String, [], ◌∷◌, none, some, Bool, true, false, ◌≡◌, ◌≢◌, refl, arith, str_eq,
}
use bnpi_pats_api.Command.Request.{Request, actor_id}
use bnpi_pats_api.Command.Idempotency.{returned}
use bnpi_pats_api.Identity.Policy.{
  role_bundle, active, known_capabilities, role_bundle_capabilities, add, add_all, grant, grant_all,
  imply_all, insert_sorted, sort, effective_capabilities, has_capability,
}
use bnpi_pats_api.Identity.Accounts.{
  Accounts, Subject, AssignmentRow, enabled, disabled, list_assignments, admits,
}
use bnpi_pats_api.Identity.Accounts.Subjects.{
  SubjectCreateBody, SubjectPatchBody, SubjectResource, qi, operator, create_subject, add_subject,
  to_resource, new_subject,
}
use bnpi_pats_api.Identity.Accounts.Subjects.Patch.{patch_subject, change_subject, patched}
use bnpi_pats_api.Identity.Accounts.Login.{is_username, login, mark_login, signed_in}
use bnpi_pats_api.Identity.Accounts.Login.Laws.{login-create, patch_subject-shut_out}
use bnpi_pats_api.Identity.Accounts.Authority.{
  Reach, start, next, creates, patches, IsManaged, Reach-IsManaged,
}
use bnpi_pats_api.Identity.Accounts.Roles.{with_role, patch_subject-with_role}
use bnpi_pats_api.Identity.Accounts.Integrity.{IsConsistent, Reach-IsConsistent}

-- A hash that shows the password, for the tests only.
abbrev plain : String → String
plain password = join "hash of " password

abbrev agrees : String → String → Bool
agrees stored password = str_eq stored (plain password)

abbrev token : String → String
token id = join "token of " id

abbrev by_root : Request
by_root = record {
  canonical_subject = some (record { id = some "root"; display_name_snapshot = none });
  idempotency_key = none;
  if_match = none;
  correlation_id = none;
}

abbrev root : Subject
root = record {
  id = "root";
  provider = "local";
  issuer = "pats-local";
  provider_subject = "root";
  display_name_snapshot = none;
  email_snapshot = none;
  status = enabled;
  created_at = "t0";
  updated_at = "t0";
}

abbrev root_role : AssignmentRow
root_role = record {
  subject_id = "root";
  kind = role_bundle;
  key = "admin";
  status = active;
  suspended_at = none;
  revoked_at = none;
}

abbrev accounts : Accounts
accounts = record { subjects = root ∷ []; credentials = []; assignments = root_role ∷ []; log = [] }

abbrev mika : SubjectCreateBody
mika = record {
  username = "mika.k";
  password = "a long password";
  display_name = "Mika";
  email = none;
  role = operator;
}

abbrev with_mika : Accounts
with_mika = add_subject plain by_root "t1" "s1" mika accounts

abbrev to_qi : SubjectPatchBody
to_qi = record { display_name = none; email = none; status = none; role = some qi; password = none }

abbrev off : SubjectPatchBody
off = record {
  display_name = none;
  email = none;
  status = some disabled;
  role = none;
  password = none;
}

abbrev inspecting : Accounts
inspecting = change_subject plain by_root "t2" "s1" to_qi with_mika

abbrev mika_row : Subject
mika_row = new_subject "t1" "s1" mika

abbrev made : SubjectResource
made = to_resource with_mika mika_row

adds : create_subject plain by_root "t1" "s1" mika accounts ≡ returned (made, with_mika)
unfolding create_subject
adds = refl

turns :
    patch_subject plain by_root "t2" "s1" to_qi with_mika
    ≡ returned (to_resource inspecting (patched "t2" to_qi mika_row), inspecting)
unfolding patch_subject add_subject actor_id
turns = refl

root_manages : admits accounts "root" "operations.manage" ≡ true
unfolding admits list_assignments has_capability effective_capabilities grant_all grant add_all add
    imply_all sort insert_sorted known_capabilities role_bundle_capabilities
root_manages = refl

root_still_manages : admits with_mika "root" "operations.manage" ≡ true
unfolding admits list_assignments has_capability effective_capabilities grant_all grant add_all add
    imply_all sort insert_sorted known_capabilities role_bundle_capabilities add_subject
root_still_manages = refl

history : Reach accounts inspecting
unfolding actor_id
history = next (next start (creates plain by_root "t1" "s1" mika made root_manages refl adds)) (
    patches plain by_root "t2" "s1" to_qi (to_resource inspecting (patched "t2" to_qi mika_row))
      root_still_manages turns)

Reach-IsManaged_example : IsManaged inspecting
Reach-IsManaged_example = Reach-IsManaged history ("root", root_manages)

accounts-IsConsistent : IsConsistent accounts
accounts-IsConsistent = record {
  one_role = λ id. ground arith;
  one_row = λ id role. ground arith;
  one_credential = λ id. ground arith;
  one_username = λ name. ground arith;
  owned_credentials = tt;
  owned_assignments = (refl, tt);
}

Reach-IsConsistent_example : IsConsistent inspecting
Reach-IsConsistent_example = Reach-IsConsistent history accounts-IsConsistent

patch_subject-with_role_example :
    has_capability (list_assignments inspecting "s1") "execution.write"
    ≡ has_capability (with_role qi (list_assignments with_mika "s1")) "execution.write"
patch_subject-with_role_example =
    patch_subject-with_role plain by_root "t2" "s1" to_qi qi with_mika inspecting
      (to_resource inspecting (patched "t2" to_qi mika_row)) refl turns "execution.write"

mika-is_username : is_username "mika.k" ≡ true
unfolding is_username
mika-is_username = refl

login-create_example :
    login agrees token "t3" "mika.k" "a long password" with_mika
    ≡ (some "token of s1", mark_login "s1" "t3" with_mika)
login-create_example =
    login-create plain agrees token by_root "t1" "t3" "s1" mika accounts with_mika made refl
      mika-is_username refl refl adds

abbrev without_mika : Accounts
without_mika = change_subject plain by_root "t4" "s1" off with_mika

disables :
    patch_subject plain by_root "t4" "s1" off with_mika
    ≡ returned (to_resource without_mika (patched "t4" off mika_row), without_mika)
unfolding patch_subject add_subject actor_id
disables = refl

patch_subject-shut_out_example :
    ((identifier password : String) (u : Subject)
      → signed_in agrees identifier password without_mika ≡ some u
      → u.id ≢ "s1")
    × ((wanted : String) → admits without_mika "s1" wanted ≡ false)
patch_subject-shut_out_example =
    patch_subject-shut_out plain agrees by_root "t4" "s1" off with_mika without_mika
      (to_resource without_mika (patched "t4" off mika_row)) refl disables
