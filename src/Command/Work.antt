-- ===== src/Command/Work.antt =====
-- The work of a command inside `database.$transaction`: the writes that it issues, in order, with
-- its value, or what it throws, which rolls every write back. `W` is the type of its writes.
use bnpi_pats_api.Base.{
  List, [], ◌∷◌, ◌++◌, ◌≡◌, refl, ◌⊎◌, inl, inr, Option, none, some, Bool, true, false,
}
use bnpi_pats_api.Command.Problem.{Problem, Failure, problem_of}

pub data Work {ℓ κ} (W : Type ℓ) (A : Type κ) : Type (ℓ ⊔ κ) where
  done : List W → A → Work W A
  thrown : Failure → Work W A

abbrev pub after {ℓ κ} : {W : Type ℓ} {A : Type κ} → List W → Work W A → Work W A
after ws (done vs a) = done (ws ++ vs) a
after ws (thrown e) = thrown e

infixl 5 ◌>>=◌ ◌>>◌
abbrev pub ◌>>=◌ {ℓ κ μ} :
    {W : Type ℓ} {A : Type κ} {B : Type μ} → Work W A → (A → Work W B) → Work W B
done ws a >>= f = after ws (f a)
thrown e >>= f = thrown e

abbrev pub ◌>>◌ {ℓ κ} : {W : Type ℓ} {B : Type κ} → Work W (Unit {0}) → Work W B → Work W B
m >> k = m >>= λ _. k

module _ {ℓ κ} {W : Type ℓ} {A : Type κ} where
  abbrev pub pure : A → Work W A
  pure a = done [] a

  -- `throw new CommandProblem(…)`
  abbrev pub refuse : Problem → Work W A
  refuse p = thrown (problem_of p)

  -- `if (!row) notFound(detail)` on what a query returned.
  abbrev pub require : Option A → Problem → Work W A
  require none p = refuse p
  require (some a) p = pure a

module _ {ℓ} {W : Type ℓ} where
  -- `if (test) conflict(detail)`
  abbrev pub refuse_if : Bool → Problem → Work W (Unit {0})
  refuse_if true p = refuse p
  refuse_if false p = pure tt

  -- `await transaction.….create(…)` and the other writing calls.
  abbrev pub write : W → Work W (Unit {0})
  write w = done (w ∷ []) tt

after-eq-done {ℓ κ} :
    {W : Type ℓ} {A : Type κ} (vs : List W) (m : Work W A) {ws : List W} {a : A}
    → after vs m ≡ done ws a
    → (us : List W) × (m ≡ done us a) × (vs ++ us ≡ ws)
after-eq-done vs (done us a) h = (us, cc, cc)
after-eq-done vs (thrown e) h = cc

-- A block that returns ran its first part and then the rest, whose writes follow.
pub >>=-eq-done {ℓ κ μ} :
    {W : Type ℓ} {A : Type κ} {B : Type μ} (m : Work W A) (f : A → Work W B) {ws : List W} {b : B}
    → (m >>= f) ≡ done ws b
    → (vs : List W) × (a : A) × (us : List W) × (m ≡ done vs a)
      × (f a ≡ done us b)
      × (vs ++ us ≡ ws)
>>=-eq-done (done vs a) f h =
    let (us, e, same) = after-eq-done vs (f a) h in (vs, a, us, refl, e, same)
>>=-eq-done (thrown e) f h = cc

pub Work-cases {ℓ κ} :
    {W : Type ℓ} {A : Type κ} (m : Work W A)
    → ((ws : List W) × (a : A) × (m ≡ done ws a)) ⊎ ((e : Failure) × (m ≡ thrown e))
Work-cases (done ws a) = inl (ws, a, refl)
Work-cases (thrown e) = inr (e, refl)

pub pure_lem {ℓ κ μ} :
    {W : Type ℓ} {A : Type κ} {B : Type μ} (a : A) (f : A → Work W B) → (done [] a >>= f) ≡ f a
pure_lem a f = elim (Work-cases (f a)) [ inl (ws, b, e) ↦ rw e refl | inr (p, e) ↦ rw e refl ]
