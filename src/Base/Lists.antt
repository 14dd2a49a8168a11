-- ===== src/Base/Lists.antt =====
-- JavaScript's array methods over a Boolean test, and lists measured by native numbers.
use Prim.Native.Nat.{ℕ, suc}
use Prim.Native.String.{String}
use mathlib.Core.Path.{◌≡◌}
use mathlib.Core.Bool.{Bool, true, false, ◌&&◌, ◌||◌}
use mathlib.Core.Logic.{◌⊎◌, inl, inr}
use mathlib.Core.List.{List, [], ◌∷◌, ◌++◌}
use mathlib.Core.Option.{Option, none, some}
use native.Mathlib.Omega.{arith}
use text.Mathlib.Text.{◌==◌ as str_eq}
use text.Mathlib.TextEquality.{eq_iff}
use bnpi_pats_api.Base.Tests.{if◌then◌else◌}

module _ {ℓ} {A : Type ℓ} where
  abbrev pub length : List A → ℕ
  length [] = 0
  length (x ∷ xs) = suc (length xs)

  -- `xs.find(p)`
  abbrev pub find : (A → Bool) → List A → Option A
  find p [] = none
  find p (x ∷ xs) = if p x then some x else find p xs

  -- `xs.filter(p)`
  abbrev pub keep : (A → Bool) → List A → List A
  keep p [] = []
  keep p (x ∷ xs) = let rest = keep p xs in if p x then x ∷ rest else rest

  -- `xs.some(p)`
  abbrev pub any : (A → Bool) → List A → Bool
  any p [] = false
  any p (x ∷ xs) = p x || any p xs

  -- `xs.every(p)`
  abbrev pub every : (A → Bool) → List A → Bool
  every p [] = true
  every p (x ∷ xs) = p x && every p xs

  -- `xs[0]`
  abbrev pub first : List A → Option A
  first [] = none
  first (x ∷ xs) = some x

module _ {ℓ κ} {A : Type ℓ} (P : A → Type κ) where
  abbrev pub All : List A → Type κ
  All [] = Unit
  All (x ∷ xs) = P x × All xs

  pub All-append : (xs ys : List A) → All xs → All ys → All (xs ++ ys)
  All-append [] ys _ k = k
  All-append (x ∷ xs) ys (p, h) k = (p, All-append xs ys h k)

  pub All-split : (xs ys : List A) → All (xs ++ ys) → All xs × All ys
  All-split [] ys h = (tt, h)
  All-split (x ∷ xs) ys (p, h) = let (l, r) = All-split xs ys h in ((p, l), r)

abbrev pub Any {ℓ} : {A : Type ℓ} → (A → Type 0) → List A → Type 0
Any P [] = ⊥
Any P (x ∷ xs) = P x ⊎ Any P xs

-- `xs.includes(s)` on an array of strings.
abbrev pub includes : List String → String → Bool
includes [] s = false
includes (x ∷ xs) s = str_eq x s || includes xs s

abbrev pub In : String → List String → Type 0
In s = Any (λ x. x ≡ s)

pub includes→In : (xs : List String) (s : String) → includes xs s ≡ true → In s xs
includes→In [] s h = ground arith
includes→In (x ∷ xs) s h = ground (arith, eq_iff x s, includes→In xs s)

pub In→includes : (xs : List String) (s : String) → In s xs → includes xs s ≡ true
In→includes [] s m = absurd m
In→includes (x ∷ xs) s (inl e) = ground (arith, eq_iff x s)
In→includes (x ∷ xs) s (inr m) = ground (arith, In→includes xs s m)

module _ {A : Type 0} (p : A → Bool) where
  -- What `find` returns passes the test, and stands in the list.
  pub find-passes : (xs : List A) (a : A) → find p xs ≡ some a → p a ≡ true
  find-passes [] a h = cc
  find-passes (x ∷ xs) a h = ground (arith, find-passes xs a)

  pub find-none : (xs : List A) → find p xs ≡ none → All (λ a. p a ≡ false) xs
  find-none [] h = tt
  find-none (x ∷ xs) h = ground (arith, find-none xs)

  pub find-Any : (xs : List A) (a : A) → find p xs ≡ some a → Any (λ x. x ≡ a) xs
  find-Any [] a h = cc
  find-Any (x ∷ xs) a h = ground (arith, find-Any xs a)

pub All-Any {ℓ} :
    {A : Type 0} (P : A → Type ℓ) (a : A) (xs : List A) → All P xs → Any (λ x. x ≡ a) xs → P a
All-Any P a [] h m = absurd m
All-Any P a (x ∷ xs) h (inl same) = rw (← same) h.0
All-Any P a (x ∷ xs) h (inr m) = All-Any P a xs h.1 m
