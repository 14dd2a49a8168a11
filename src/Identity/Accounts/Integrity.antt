-- ===== src/Identity/Accounts/Integrity.antt =====
-- The tables of the accounts stay consistent: app/pats/subject-admin.ts revokes a role before it
-- grants another, and gives a user name once.
use bnpi_pats_api.Base.{
  String, [], ◌∷◌, ◌++◌, none, true, false, ◌≡◌, ◌≤◌, ◌∙◌, refl, arith, eq_iff, eq_refl, any, All,
  All-append,
}
use bnpi_pats_api.Command.Request.{Request}
use bnpi_pats_api.Floor.{
  update_many, count, count-append, count-any, All-map, found-update_many, found-append,
  find-append_none,
}
use bnpi_pats_api.Identity.Accounts.{
  Accounts, Subject, Credential, AssignmentRow, has_id, belongs_to, has_username, find_by_id,
}
use bnpi_pats_api.Identity.Accounts.Subjects.{
  RoleBundle, SubjectCreateBody, SubjectPatchBody, role_row, is_role_of, add_subject, new_subject,
  new_credential,
}
use bnpi_pats_api.Identity.Accounts.Subjects.Patch.{has_role, change_subject, patched}
use bnpi_pats_api.Identity.Accounts.Effects.{create_subject-effect, patch_subject-effect}
use bnpi_pats_api.Identity.Accounts.Authority.{Command, creates, patches, Reach, start, next}
use bnpi_pats_api.Identity.Accounts.Rows.{
  is_subject, count-unowned, set_role-one_role, set_role-one_row, set_role-owned,
  set_password-count, set_password-owned,
}

-- A subject has one active role at most and each role in one row at most, one credential, and a
-- user name that no other has; credentials and assignments are those of subjects.
pub record IsConsistent (s : Accounts) : Type 0 where
  pub one_role : (id : String) → count (is_role_of id) s.assignments ≤ 1
  pub one_row : (id : String) (role : RoleBundle) → count (has_role id role) s.assignments ≤ 1
  pub one_credential : (id : String) → count (belongs_to id) s.credentials ≤ 1
  pub one_username : (name : String) → count (has_username name) s.credentials ≤ 1
  pub owned_credentials : All (λ c. is_subject s.subjects c.subject_id ≡ true) s.credentials
  pub owned_assignments : All (λ a. is_subject s.subjects a.subject_id ≡ true) s.assignments

module _ (hash : String → String) (req : Request) (now id : String) (body : SubjectCreateBody)
    (s : Accounts) (fresh : find_by_id s id ≡ none)
    (free : any (has_username body.username) s.credentials ≡ false) where
  abbrev u : Subject
  u = new_subject now id body

  abbrev c : Credential
  c = new_credential hash id body

  abbrev a : AssignmentRow
  a = role_row id body.role

  kept :
      (owner : String)
      → is_subject s.subjects owner ≡ true
      → is_subject (s.subjects ++ u ∷ []) owner ≡ true
  kept owner there = found-append (has_id owner) s.subjects (u ∷ []) there

  added : is_subject (s.subjects ++ u ∷ []) id ≡ true
  added = ground (arith, find-append_none (has_id id) s.subjects (u ∷ []) fresh, eq_refl id)

  add_subject-IsConsistent : IsConsistent s → IsConsistent (add_subject hash req now id body s)
  unfolding add_subject
  add_subject-IsConsistent w = record {
    one_role = λ k. ground (
      arith,
      w.one_role k,
      count-append (is_role_of k) s.assignments (a ∷ []),
      count-unowned (λ (x : AssignmentRow). x.subject_id) (is_role_of id) s.subjects id fresh
          (λ x hit. ground arith) s.assignments w.owned_assignments,
      eq_iff id k,
    );
    one_row = λ k role. ground (
      arith,
      w.one_row k role,
      count-append (has_role k role) s.assignments (a ∷ []),
      count-unowned (λ (x : AssignmentRow). x.subject_id) (has_role id role) s.subjects id fresh
          (λ x hit. ground arith) s.assignments w.owned_assignments,
      eq_iff id k,
    );
    one_credential = λ k. ground (
      arith,
      w.one_credential k,
      count-append (belongs_to k) s.credentials (c ∷ []),
      count-unowned (λ (x : Credential). x.subject_id) (belongs_to id) s.subjects id fresh
          (λ x hit. ground arith) s.credentials w.owned_credentials,
      eq_iff id k,
    );
    one_username = λ name. ground (
      arith,
      w.one_username name,
      count-append (has_username name) s.credentials (c ∷ []),
      count-any (has_username body.username) s.credentials free,
      eq_iff body.username name,
    );
    owned_credentials =
        All-append (λ x. is_subject (s.subjects ++ u ∷ []) x.subject_id ≡ true) s.credentials
          (c ∷ [])
          (All-map (λ x. is_subject s.subjects x.subject_id ≡ true)
            (λ x. is_subject (s.subjects ++ u ∷ []) x.subject_id ≡ true) (λ x. kept x.subject_id)
            s.credentials w.owned_credentials)
          (added, tt);
    owned_assignments =
        All-append (λ x. is_subject (s.subjects ++ u ∷ []) x.subject_id ≡ true) s.assignments
          (a ∷ [])
          (All-map (λ x. is_subject s.subjects x.subject_id ≡ true)
            (λ x. is_subject (s.subjects ++ u ∷ []) x.subject_id ≡ true) (λ x. kept x.subject_id)
            s.assignments w.owned_assignments)
          (added, tt);
  }

module _ (hash : String → String) (req : Request) (now id : String) (body : SubjectPatchBody)
    (s : Accounts) (there : is_subject s.subjects id ≡ true) where
  abbrev IsKept : String → Type 0
  IsKept owner = is_subject (update_many (has_id id) (patched now body) s.subjects) owner ≡ true

  still : (owner : String) → is_subject s.subjects owner ≡ true → IsKept owner
  still owner h =
      found-update_many (has_id owner) (has_id id) (patched now body) (λ x. refl) s.subjects ∙ h

  change_subject-IsConsistent :
      IsConsistent s → IsConsistent (change_subject hash req now id body s)
  unfolding change_subject
  change_subject-IsConsistent w = record {
    one_role = set_role-one_role now id s.assignments body.role w.one_role w.one_row;
    one_row = set_role-one_row now id s.assignments body.role w.one_row;
    one_credential = λ k. ground (
      arith,
      w.one_credential k,
      set_password-count hash id s.credentials body.password (belongs_to k) (λ x h. refl),
    );
    one_username = λ name. ground (
      arith,
      w.one_username name,
      set_password-count hash id s.credentials body.password (has_username name) (λ x h. refl),
    );
    owned_credentials = set_password-owned hash id s.credentials body.password IsKept (
        All-map (λ x. is_subject s.subjects x.subject_id ≡ true) (λ x. IsKept x.subject_id)
          (λ x. still x.subject_id) s.credentials w.owned_credentials);
    owned_assignments = set_role-owned now id s.assignments body.role IsKept (still id there) (
        All-map (λ x. is_subject s.subjects x.subject_id ≡ true) (λ x. IsKept x.subject_id)
          (λ x. still x.subject_id) s.assignments w.owned_assignments);
  }

pub Command-IsConsistent : {s t : Accounts} → Command s t → IsConsistent s → IsConsistent t
Command-IsConsistent {s} {t} (creates hash req now id body resource may fresh made) w =
    let (same, free) = create_subject-effect hash req now id body s t resource made in
    rw same (add_subject-IsConsistent hash req now id body s fresh free w)
Command-IsConsistent {s} {t} (patches hash req now id body resource may made) w =
    let (same, there) = patch_subject-effect hash req now id body s t resource made in
    rw same (change_subject-IsConsistent hash req now id body s there w)

-- From consistent tables, whatever subjects are created and patched, the tables are consistent: a
-- subject has one active role bundle at most, no role in two rows, and one credential at most, no
-- two credentials share a user name, and every credential and assignment is that of a subject.
pub Reach-IsConsistent : {s t : Accounts} → Reach s t → IsConsistent s → IsConsistent t
Reach-IsConsistent start w = w
Reach-IsConsistent (next before c) w = Command-IsConsistent c (Reach-IsConsistent before w)
