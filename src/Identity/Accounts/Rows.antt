-- ===== src/Identity/Accounts/Rows.antt =====
-- The rows that app/pats/subject-admin.ts leaves when it sets a role or a password, counted.
use mathlib.Core.Path.{subst}
use bnpi_pats_api.Base.{
  String, List, [], ◌∷◌, ◌++◌, Option, none, some, Bool, true, false, ◌≡◌, ◌≤◌, ◌+◌, refl, arith,
  str_eq, eq_iff, find, any, is_some, All, All-append, if◌then◌else◌,
}
use bnpi_pats_api.Floor.{
  update_many, count, count-append, count-update_many, count-any, any-updated, All-update_many,
}
use bnpi_pats_api.Identity.Accounts.{Subject, Credential, AssignmentRow, has_id, belongs_to}
use bnpi_pats_api.Identity.Accounts.Subjects.{
  RoleBundle, admin, qi, operator, role_key, role_row, is_role_of,
}
use bnpi_pats_api.Identity.Accounts.Subjects.Patch.{
  set_role, grant_role, set_password, has_role, revoke, restore,
}

abbrev pub is_subject : List Subject → String → Bool
is_subject subjects id = is_some (find (has_id id) subjects)

module _ {A : Type 0} where
  -- An update that changes no row's answer to a test.
  pub count-same :
      (q p : A → Bool) (f : A → A)
      → ((x : A) → p x ≡ true → q (f x) ≡ q x)
      → (xs : List A) → count q (update_many p f xs) ≡ count q xs
  count-same q p f same [] = refl
  count-same q p f same (x ∷ xs) = ground (arith, same x, count-same q p f same xs)

  count-added :
      (q p : A → Bool) (f : A → A) (xs : List A)
      → count q (update_many p f xs) ≤ count q xs + count p xs
  count-added q p f [] = omega arith
  count-added q p f (x ∷ xs) = ground (arith, count-added q p f xs)

other_owner :
    (subjects : List Subject) (owner id : String)
    → find (has_id id) subjects ≡ none
    → is_subject subjects owner ≡ true
    → str_eq owner id ≡ false
other_owner subjects owner id fresh owned = decided (str_eq owner id) refl
  where
    decided : (b : Bool) → str_eq owner id ≡ b → b ≡ false
    decided false e = refl
    decided true e =
        absurd
          (contradicts (subst (λ o. is_subject subjects o ≡ true) ((eq_iff owner id).0 e) owned))
      where
        contradicts : is_subject subjects id ≡ true → ⊥
        contradicts there = ground arith

-- No row is that of a subject that does not exist.
pub count-unowned :
    {A : Type 0} (owner : A → String) (q : A → Bool) (subjects : List Subject) (id : String)
    → find (has_id id) subjects ≡ none
    → ((x : A) → q x ≡ true → str_eq (owner x) id ≡ true)
    → (xs : List A) → All (λ x. is_subject subjects (owner x) ≡ true) xs
    → count q xs ≡ 0
count-unowned owner q subjects id fresh own [] h = refl
count-unowned owner q subjects id fresh own (x ∷ xs) h = ground (
  arith,
  count-unowned owner q subjects id fresh own xs h.1,
  other_owner subjects (owner x) id fresh h.0,
  own x,
)

not_other :
    (id other : String) (x : AssignmentRow)
    → str_eq id other ≡ false
    → str_eq x.subject_id id ≡ true
    → str_eq x.subject_id other ≡ false
not_other id other x apart own =
    ground (arith, eq_iff x.subject_id id, eq_iff x.subject_id other, eq_iff id other)

same_role : (role r : RoleBundle) → str_eq (role_key role) (role_key r) ≡ true → role ≡ r
same_role admin admin e = refl
same_role admin qi e = cc
same_role admin operator e = cc
same_role qi admin e = cc
same_role qi qi e = refl
same_role qi operator e = cc
same_role operator admin e = cc
same_role operator qi e = cc
same_role operator operator e = refl

module _ (id : String) (role : RoleBundle) (rows : List AssignmentRow) where
  -- Granting a role to a subject that has no active one.
  grant_role-own :
      count (is_role_of id) rows ≡ 0
      → count (has_role id role) rows ≤ 1
      → count (is_role_of id) (grant_role id role rows) ≤ 1
  unfolding grant_role
  grant_role-own free once = ground (
    arith,
    count-added (is_role_of id) (has_role id role) restore rows,
    count-append (is_role_of id) rows (role_row id role ∷ []),
  )

  grant_role-others :
      (other : String)
      → str_eq id other ≡ false
      → count (is_role_of other) (grant_role id role rows) ≡ count (is_role_of other) rows
  unfolding grant_role
  grant_role-others other apart = ground (
    arith,
    count-same (is_role_of other) (has_role id role) restore
        (λ x hit. ground (arith, not_other id other x apart)) rows,
    count-append (is_role_of other) rows (role_row id role ∷ []),
  )

  grant_role-one_row :
      (other : String) (r : RoleBundle)
      → count (has_role other r) rows ≤ 1
      → count (has_role other r) (grant_role id role rows) ≤ 1
  unfolding grant_role
  grant_role-one_row other r once = ground (
    arith,
    count-same (has_role other r) (has_role id role) restore (λ x hit. refl) rows,
    count-append (has_role other r) rows (role_row id role ∷ []),
    count-any (has_role id role) rows,
    eq_iff id other,
    same_role role r,
  )

  grant_role-owned :
      (P : String → Type 0)
      → P id
      → All (λ a. P a.subject_id) rows
      → All (λ a. P a.subject_id) (grant_role id role rows)
  unfolding grant_role
  grant_role-owned P own h = chosen (any (has_role id role) rows)
    where
      chosen :
          (b : Bool)
          → All
              (λ a. P a.subject_id)
              (if b
                then update_many (has_role id role) restore rows
                else rows ++ role_row id role ∷ [])
      chosen true =
          All-update_many (λ a. P a.subject_id) (λ a. P a.subject_id) (has_role id role) restore
            (λ x hx hit. hx) (λ x hx miss. hx) rows h
      chosen false = All-append (λ a. P a.subject_id) rows (role_row id role ∷ []) h (own, tt)

module _ (now id : String) (rows : List AssignmentRow) where
  abbrev without_roles : List AssignmentRow
  without_roles = update_many (is_role_of id) (revoke now) rows

  revoked-role : count (is_role_of id) without_roles ≡ 0
  revoked-role =
      count-any (is_role_of id) without_roles
        (any-updated (is_role_of id) (revoke now) (λ x. ground arith) rows)

  revoked-others :
      (other : String) → count (is_role_of other) without_roles ≤ count (is_role_of other) rows
  revoked-others other =
      count-update_many (is_role_of other) (is_role_of id) (revoke now) (λ x. ground arith) rows

  revoked-rows :
      (other : String) (r : RoleBundle)
      → count (has_role other r) without_roles ≡ count (has_role other r) rows
  revoked-rows other r =
      count-same (has_role other r) (is_role_of id) (revoke now) (λ x hit. refl) rows

  pub set_role-one_role :
      (role : Option RoleBundle)
      → ((other : String) → count (is_role_of other) rows ≤ 1)
      → ((other : String) (r : RoleBundle) → count (has_role other r) rows ≤ 1)
      → (other : String) → count (is_role_of other) (set_role now id role rows) ≤ 1
  unfolding set_role
  set_role-one_role none one_role one_row other = one_role other
  set_role-one_role (some role) one_role one_row other = ground (
    arith,
    grant_role-own id role without_roles revoked-role,
    grant_role-others id role without_roles other,
    revoked-rows id role,
    revoked-others other,
    one_role other,
    one_row id role,
    eq_iff id other,
  )

  pub set_role-one_row :
      (role : Option RoleBundle)
      → ((other : String) (r : RoleBundle) → count (has_role other r) rows ≤ 1)
      → (other : String) (r : RoleBundle) → count (has_role other r) (set_role now id role rows) ≤ 1
  unfolding set_role
  set_role-one_row none one_row other r = one_row other r
  set_role-one_row (some role) one_row other r = ground (
    arith,
    grant_role-one_row id role without_roles other r,
    revoked-rows other r,
    one_row other r,
  )

  pub set_role-owned :
      (role : Option RoleBundle) (P : String → Type 0)
      → P id
      → All (λ a. P a.subject_id) rows
      → All (λ a. P a.subject_id) (set_role now id role rows)
  unfolding set_role
  set_role-owned none P own h = h
  set_role-owned (some role) P own h = grant_role-owned id role without_roles P own (
      All-update_many (λ a. P a.subject_id) (λ a. P a.subject_id) (is_role_of id) (revoke now)
        (λ x hx hit. hx) (λ x hx miss. hx) rows h)

module _ (hash : String → String) (id : String) (rows : List Credential) where
  pub set_password-count :
      (password : Option String) (q : Credential → Bool)
      → ((x : Credential) (h : String) → q (record x { password_hash = h }) ≡ q x)
      → count q (set_password hash id password rows) ≡ count q rows
  unfolding set_password
  set_password-count none q same = refl
  set_password-count (some p) q same =
      count-same q (belongs_to id) (λ c. record c { password_hash = hash p })
        (λ x hit. same x (hash p)) rows

  pub set_password-owned :
      (password : Option String) (P : String → Type 0)
      → All (λ c. P c.subject_id) rows
      → All (λ c. P c.subject_id) (set_password hash id password rows)
  unfolding set_password
  set_password-owned none P h = h
  set_password-owned (some p) P h =
      All-update_many (λ c. P c.subject_id) (λ c. P c.subject_id) (belongs_to id)
        (λ c. record c { password_hash = hash p }) (λ x hx hit. hx) (λ x hx miss. hx) rows h
