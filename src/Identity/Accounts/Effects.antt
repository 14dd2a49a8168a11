-- ===== src/Identity/Accounts/Effects.antt =====
-- What the two commands on subjects leave in the tables when they succeed.
use bnpi_pats_api.Base.{
  String, [], ◌∷◌, ◌++◌, none, true, false, ◌≡◌, ◌≢◌, refl, arith, any, is_some, inl, inr,
  Option-cases,
}
use bnpi_pats_api.Command.Request.{Request}
use bnpi_pats_api.Command.Idempotency.{returned}
use bnpi_pats_api.Floor.{update_many}
use bnpi_pats_api.Identity.Accounts.{Accounts, has_id, has_username, find_by_id}
use bnpi_pats_api.Identity.Accounts.Subjects.{
  SubjectCreateBody, SubjectPatchBody, SubjectResource, create_subject, add_subject, new_subject,
  new_credential, role_row,
}
use bnpi_pats_api.Identity.Accounts.Subjects.Patch.{
  patch_subject, change_subject, set_role, set_password, patched,
}

pub create_subject-effect :
    (hash : String → String) (req : Request) (now id : String) (body : SubjectCreateBody)
    (s t : Accounts) (resource : SubjectResource)
    → create_subject hash req now id body s ≡ returned (resource, t)
    → (t ≡ add_subject hash req now id body s)
      × (any (has_username body.username) s.credentials ≡ false)
unfolding create_subject
create_subject-effect hash req now id body s t resource made = (ground arith, ground arith)

pub add_subject-rows :
    (hash : String → String) (req : Request) (now id : String) (body : SubjectCreateBody)
    (s : Accounts)
    → let t = add_subject hash req now id body s in
      (t.subjects ≡ s.subjects ++ new_subject now id body ∷ [])
      × (t.credentials ≡ s.credentials ++ new_credential hash id body ∷ [])
      × (t.assignments ≡ s.assignments ++ role_row id body.role ∷ [])
unfolding add_subject
add_subject-rows hash req now id body s = (refl, refl, refl)

missing_patch :
    (hash : String → String) (req : Request) (now id : String) (body : SubjectPatchBody)
    (s t : Accounts) (resource : SubjectResource)
    → find_by_id s id ≡ none
    → patch_subject hash req now id body s ≢ returned (resource, t)
unfolding patch_subject
missing_patch hash req now id body s t resource missing made = ground arith

pub patch_subject-effect :
    (hash : String → String) (req : Request) (now id : String) (body : SubjectPatchBody)
    (s t : Accounts) (resource : SubjectResource)
    → patch_subject hash req now id body s ≡ returned (resource, t)
    → (t ≡ change_subject hash req now id body s) × (is_some (find_by_id s id) ≡ true)
unfolding patch_subject
patch_subject-effect hash req now id body s t resource made =
    elim (Option-cases (find_by_id s id)) [
      | inl missing ↦ absurd (missing_patch hash req now id body s t resource missing made)
      | inr (u, there) ↦ (ground arith, ground arith)
    ]

pub change_subject-rows :
    (hash : String → String) (req : Request) (now id : String) (body : SubjectPatchBody)
    (s : Accounts)
    → let t = change_subject hash req now id body s in
      (t.subjects ≡ update_many (has_id id) (patched now body) s.subjects)
      × (t.credentials ≡ set_password hash id body.password s.credentials)
      × (t.assignments ≡ set_role now id body.role s.assignments)
unfolding change_subject
change_subject-rows hash req now id body s = (refl, refl, refl)
