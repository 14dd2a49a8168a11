-- ===== src/Floor/Tables.antt =====
-- Tables as lists of rows, and what Prisma's `update`, `updateMany`, `deleteMany` and `count` make of
-- them: the commands of app/pats/command-router.ts on the floor reach their rows by such tests.
use bnpi_pats_api.Base.{
  ℕ, ◌≤◌, ◌+◌, List, [], ◌∷◌, ◌++◌, none, some, Bool, true, false, not, ◌≡◌, refl, arith, length,
  keep, find, any, is_some, All, if◌then◌else◌,
}

module _ {A : Type 0} where
  abbrev pub update_many : (A → Bool) → (A → A) → List A → List A
  update_many p f [] = []
  update_many p f (x ∷ xs) = (if p x then f x else x) ∷ update_many p f xs

  abbrev pub delete_many : (A → Bool) → List A → List A
  delete_many p xs = keep (λ x. not (p x)) xs

  abbrev pub count : (A → Bool) → List A → ℕ
  count p xs = length (keep p xs)

  pub count-append : (p : A → Bool) (xs ys : List A) → count p (xs ++ ys) ≡ count p xs + count p ys
  count-append p [] ys = omega arith
  count-append p (x ∷ xs) ys = ground (arith, count-append p xs ys)

  -- An update that makes no row pass the test raises no count.
  pub count-update_many :
      (q p : A → Bool) (f : A → A)
      → ((x : A) → q (f x) ≡ true → q x ≡ true)
      → (xs : List A) → count q (update_many p f xs) ≤ count q xs
  count-update_many q p f back [] = omega arith
  count-update_many q p f back (x ∷ xs) = ground (arith, back x, count-update_many q p f back xs)

  pub count-delete_many : (q p : A → Bool) (xs : List A) → count q (delete_many p xs) ≤ count q xs
  count-delete_many q p [] = omega arith
  count-delete_many q p (x ∷ xs) = ground (arith, count-delete_many q p xs)

  pub count-zero : (p : A → Bool) (xs : List A) → count p xs ≡ 0 → All (λ x. p x ≡ false) xs
  count-zero p [] h = tt
  count-zero p (x ∷ xs) h = ground (arith, count-zero p xs)

  pub any-count : (q : A → Bool) (xs : List A) → count q xs ≡ 0 → any q xs ≡ false
  any-count q [] h = refl
  any-count q (x ∷ xs) h = ground (arith, any-count q xs)

  pub count-any : (q : A → Bool) (xs : List A) → any q xs ≡ false → count q xs ≡ 0
  count-any q [] h = refl
  count-any q (x ∷ xs) h = ground (arith, count-any q xs)

  pub any-delete_many :
      (q p : A → Bool) (xs : List A) → any q xs ≡ false → any q (delete_many p xs) ≡ false
  any-delete_many q p [] h = refl
  any-delete_many q p (x ∷ xs) h = ground (arith, any-delete_many q p xs)

  -- No row passes a test after the rows that passed it were deleted, or changed not to pass it.
  pub any-deleted : (q : A → Bool) (xs : List A) → any q (delete_many q xs) ≡ false
  any-deleted q [] = refl
  any-deleted q (x ∷ xs) = ground (arith, any-deleted q xs)

  pub any-updated :
      (q : A → Bool) (f : A → A)
      → ((x : A) → q (f x) ≡ false)
      → (xs : List A) → any q (update_many q f xs) ≡ false
  any-updated q f off [] = refl
  any-updated q f off (x ∷ xs) = ground (arith, off x, any-updated q f off xs)

  pub find-deleted : (q : A → Bool) (xs : List A) → find q (delete_many q xs) ≡ none
  find-deleted q [] = refl
  find-deleted q (x ∷ xs) = ground (arith, find-deleted q xs)

  pub find-count : (p : A → Bool) (xs : List A) → find p xs ≡ none → count p xs ≡ 0
  find-count p [] h = omega arith
  find-count p (x ∷ xs) h = ground (arith, find-count p xs)

  -- A predicate that the update keeps, or sets, holds of every row afterwards.
  pub All-update_many {ℓ κ} :
      (P : A → Type ℓ) (Q : A → Type κ) (p : A → Bool) (f : A → A)
      → ((x : A) → P x → p x ≡ true → Q (f x))
      → ((x : A) → P x → p x ≡ false → Q x)
      → (xs : List A) → All P xs
      → All Q (update_many p f xs)
  All-update_many P Q p f hit miss [] h = tt
  All-update_many P Q p f hit miss (x ∷ xs) (h, hs) =
      (updated, All-update_many P Q p f hit miss xs hs)
    where
      chosen : (b : Bool) → p x ≡ b → Q (if b then f x else x)
      chosen true e = hit x h e
      chosen false e = miss x h e

      updated : Q (if p x then f x else x)
      updated = chosen (p x) refl

  pub All-delete_many {ℓ κ} :
      (P : A → Type ℓ) (Q : A → Type κ) (p : A → Bool)
      → ((x : A) → P x → p x ≡ false → Q x)
      → (xs : List A) → All P xs
      → All Q (delete_many p xs)
  All-delete_many P Q p kept [] h = tt
  All-delete_many P Q p kept (x ∷ xs) (h, hs) = chosen (All-delete_many P Q p kept xs hs) (p x) refl
    where
      chosen :
          All Q (delete_many p xs)
          → (b : Bool) → p x ≡ b
          → All Q (if not b then x ∷ delete_many p xs else delete_many p xs)
      chosen rest true e = rest
      chosen rest false e = (kept x h e, rest)

  pub All-map {ℓ κ} :
      (P : A → Type ℓ) (Q : A → Type κ)
      → ((x : A) → P x → Q x)
      → (xs : List A) → All P xs
      → All Q xs
  All-map P Q f [] h = tt
  All-map P Q f (x ∷ xs) (h, hs) = (f x h, All-map P Q f xs hs)

  -- A look-up by a test that the update leaves alone.
  pub find-update_many :
      (q p : A → Bool) (f : A → A)
      → ((x : A) → q (f x) ≡ q x)
      → (xs : List A) (a : A) → find q xs ≡ some a
      → find q (update_many p f xs) ≡ some (if p a then f a else a)
  find-update_many q p f same [] a h = cc
  find-update_many q p f same (x ∷ xs) a h =
      ground (arith, same x, find-update_many q p f same xs a)

  pub find-update_many-none :
      (q p : A → Bool) (f : A → A)
      → ((x : A) → q (f x) ≡ q x)
      → (xs : List A) → find q xs ≡ none
      → find q (update_many p f xs) ≡ none
  find-update_many-none q p f same [] h = refl
  find-update_many-none q p f same (x ∷ xs) h =
      ground (arith, same x, find-update_many-none q p f same xs)

  pub find-append :
      (q : A → Bool) (xs ys : List A) (a : A) → find q xs ≡ some a → find q (xs ++ ys) ≡ some a
  find-append q [] ys a h = cc
  find-append q (x ∷ xs) ys a h = ground (arith, find-append q xs ys a)

  pub find-append_none :
      (q : A → Bool) (xs ys : List A) → find q xs ≡ none → find q (xs ++ ys) ≡ find q ys
  find-append_none q [] ys h = refl
  find-append_none q (x ∷ xs) ys h = ground (arith, find-append_none q xs ys)

  -- A look-up of a row that is not deleted.
  pub find-delete_many :
      (q p : A → Bool)
      → ((x : A) → q x ≡ true → p x ≡ false)
      → (xs : List A) → find q (delete_many p xs) ≡ find q xs
  find-delete_many q p apart [] = refl
  find-delete_many q p apart (x ∷ xs) = ground (arith, apart x, find-delete_many q p apart xs)

  pub found-update_many :
      (q p : A → Bool) (f : A → A)
      → ((x : A) → q (f x) ≡ q x)
      → (xs : List A) → is_some (find q (update_many p f xs)) ≡ is_some (find q xs)
  found-update_many q p f same [] = refl
  found-update_many q p f same (x ∷ xs) = ground (arith, same x, found-update_many q p f same xs)

  pub found-append :
      (q : A → Bool) (xs ys : List A)
      → is_some (find q xs) ≡ true
      → is_some (find q (xs ++ ys)) ≡ true
  found-append q [] ys h = cc
  found-append q (x ∷ xs) ys h = ground (arith, found-append q xs ys)
