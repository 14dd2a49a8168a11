-- ===== src/Identity/Accounts/Login/Laws.antt =====
-- Who can log in: a new subject with its password, and no subject that was disabled.
use mathlib.Core.Path.{subst}
use bnpi_pats_api.Base.{
  String, List, [], ◌∷◌, none, some, Bool, true, false, ◌≡◌, ◌≢◌, refl, arith, eq_iff, eq_refl,
  find, any, find-passes, inl, inr, Option-cases,
}
use bnpi_pats_api.Base.Text
use bnpi_pats_api.Identity.Accounts.Login.{
  is_name, is_username, normalize_username, has_at, find_credential, signed_in, login, mark_login,
  find_by_username, out_of_bounds,
}
use bnpi_pats_api.Command.Request.{Request}
use bnpi_pats_api.Command.Idempotency.{returned}
use bnpi_pats_api.Floor.{find-append_none, find-update_many}
use bnpi_pats_api.Identity.Accounts.{
  Accounts, Subject, has_id, has_username, is_enabled, disabled, find_by_id, admits,
}
use bnpi_pats_api.Identity.Accounts.Subjects.{
  SubjectCreateBody, SubjectPatchBody, SubjectResource, create_subject, add_subject, new_subject,
  new_credential,
}
use bnpi_pats_api.Identity.Accounts.Subjects.Patch.{patch_subject, patched}
use bnpi_pats_api.Identity.Accounts.Effects.{
  create_subject-effect, add_subject-rows, patch_subject-effect, change_subject-rows,
}

lower-name : (s : String) → is_name s ≡ true → Text.lower s ≡ s
lower-name String.[] h = refl
lower-name (String.◌∷◌ c s) h = ground (arith, lower-name s)

trim_right-name : (s : String) → is_name s ≡ true → Text.trim_right s ≡ s
trim_right-name String.[] h = refl
trim_right-name (String.◌∷◌ c s) h = ground (arith, trim_right-name s)

trim_left-name : (s : String) → is_name s ≡ true → Text.trim_left s ≡ s
trim_left-name String.[] h = refl
trim_left-name (String.◌∷◌ c s) h = ground arith

has_at-name : (s : String) → is_name s ≡ true → has_at s ≡ false
has_at-name String.[] h = refl
has_at-name (String.◌∷◌ c s) h = ground (arith, has_at-name s)

is_username-is_name : (s : String) → is_username s ≡ true → is_name s ≡ true
unfolding is_username
is_username-is_name String.[] h = ground arith
is_username-is_name (String.◌∷◌ c s) h = ground arith

-- A user name that the schema of a new subject accepts is looked up as it is.
find_credential-username :
    (s : Accounts) (username : String)
    → is_username username ≡ true
    → find_credential s username ≡ find_by_username s username
unfolding find_credential normalize_username Text.trim
find_credential-username s username valid =
    let named = is_username-is_name username valid in
    rw (
      has_at-name username named,
      trim_left-name username named,
      trim_right-name username named,
      lower-name username named,
      valid,
    )

any-find : {A : Type 0} (p : A → Bool) (xs : List A) → any p xs ≡ false → find p xs ≡ none
any-find p [] h = refl
any-find p (x ∷ xs) h = ground (arith, any-find p xs)

login-signed_in :
    (verify : String → String → Bool) (sign : String → String) (now identifier password : String)
    (s : Accounts) {u : Subject}
    → signed_in verify identifier password s ≡ some u
    → login verify sign now identifier password s ≡ (some (sign u.id), mark_login u.id now s)
unfolding login
login-signed_in verify sign now identifier password s found = ground arith

module _ (hash : String → String) (verify : String → String → Bool) (sign : String → String)
    (req : Request) (now later id : String) (body : SubjectCreateBody) (s t : Accounts)
    (resource : SubjectResource) where
  created_credential :
      any (has_username body.username) s.credentials ≡ false
      → find_by_username (add_subject hash req now id body s) body.username
        ≡ some (new_credential hash id body)
  created_credential free = rw (add_subject-rows hash req now id body s).1 (
      ground (
        arith,
        find-append_none (has_username body.username) s.credentials
            (new_credential hash id body ∷ [])
            (any-find (has_username body.username) s.credentials free),
        eq_refl body.username,
      ))

  created_subject :
      find_by_id s id ≡ none
      → find_by_id (add_subject hash req now id body s) id ≡ some (new_subject now id body)
  created_subject fresh = rw (add_subject-rows hash req now id body s).0 (
      ground (
        arith,
        find-append_none (has_id id) s.subjects (new_subject now id body ∷ []) fresh,
        eq_refl id,
      ))

  created_signs_in :
      find_by_id s id ≡ none
      → any (has_username body.username) s.credentials ≡ false
      → is_username body.username ≡ true
      → out_of_bounds body.password ≡ false
      → verify (hash body.password) body.password ≡ true
      → signed_in verify body.username body.password (add_subject hash req now id body s)
        ≡ some (new_subject now id body)
  unfolding signed_in
  created_signs_in fresh free valid bounded verifies = ground (
    arith,
    find_credential-username (add_subject hash req now id body s) body.username valid,
    created_credential free,
    created_subject fresh,
  )

  -- A subject that was created with a new id, with a user name and a password as the schema wants
  -- them, logs in with these and gets a token of its own, if the password verifies against its hash.
  pub login-create :
      find_by_id s id ≡ none
      → is_username body.username ≡ true
      → out_of_bounds body.password ≡ false
      → verify (hash body.password) body.password ≡ true
      → create_subject hash req now id body s ≡ returned (resource, t)
      → login verify sign later body.username body.password t
        ≡ (some (sign id), mark_login id later t)
  login-create fresh valid bounded verifies made =
      let (same, free) = create_subject-effect hash req now id body s t resource made in
      rw same (
        login-signed_in verify sign later body.username body.password
          (add_subject hash req now id body s) (created_signs_in fresh free valid bounded verifies))

signed_in-enabled :
    (verify : String → String → Bool) (identifier password : String) (s : Accounts) (u : Subject)
    → signed_in verify identifier password s ≡ some u
    → (is_enabled u.status ≡ true) × (find_by_id s u.id ≡ some u)
unfolding signed_in
signed_in-enabled verify identifier password s u made =
    elim (Option-cases (find_credential s identifier)) [
      | inl none_named ↦ ground arith
      | inr (c, named) ↦ elim (Option-cases (find_by_id s c.subject_id)) [
        | inl missing ↦ ground arith
        | inr (v, there) ↦ (
          ground arith,
          ground (
            arith,
            find-passes (has_id c.subject_id) s.subjects v there,
            eq_iff v.id c.subject_id,
          ),
        )
      ]
    ]

disabled_row :
    (hash : String → String) (req : Request) (now id : String) (body : SubjectPatchBody)
    (s t : Accounts) (resource : SubjectResource)
    → body.status ≡ some disabled
    → patch_subject hash req now id body s ≡ returned (resource, t)
    → (u : Subject) × (find_by_id t id ≡ some u) × (is_enabled u.status ≡ false)
disabled_row hash req now id body s t resource off made =
    let (same, there) = patch_subject-effect hash req now id body s t resource made in
    elim (Option-cases (find_by_id s id)) [
      | inl missing ↦ ground arith
      | inr (u, found) ↦ (
        patched now body u,
        ground (
          arith,
          same,
          (change_subject-rows hash req now id body s).0,
          find-update_many (has_id id) (has_id id) (patched now body) (λ x. refl) s.subjects u
              found,
          find-passes (has_id id) s.subjects u found,
        ),
        ground arith,
      )
    ]

not_admitted :
    (s : Accounts) (id wanted : String) {u : Subject}
    → find_by_id s id ≡ some u
    → is_enabled u.status ≡ false
    → admits s id wanted ≡ false
unfolding admits
not_admitted s id wanted there off = ground arith

-- Once a subject was disabled, no identifier and password log it in, and a token that it still has
-- is admitted to no capability.
pub patch_subject-shut_out :
    (hash : String → String) (verify : String → String → Bool) (req : Request) (now id : String)
    (body : SubjectPatchBody) (s t : Accounts) (resource : SubjectResource)
    → body.status ≡ some disabled
    → patch_subject hash req now id body s ≡ returned (resource, t)
    → ((identifier password : String) (u : Subject)
        → signed_in verify identifier password t ≡ some u
        → u.id ≢ id)
      × ((wanted : String) → admits t id wanted ≡ false)
patch_subject-shut_out hash verify req now id body s t resource off made =
    let (gone, there, disabled_now) = disabled_row hash req now id body s t resource off made in
    (
      (λ identifier password u signed own.
          let (on, found) = signed_in-enabled verify identifier password t u signed in
          let same : find_by_id t id ≡ some u = subst (λ k. find_by_id t k ≡ some u) own found in
          ground arith),
      (λ wanted. not_admitted t id wanted there disabled_now),
    )
