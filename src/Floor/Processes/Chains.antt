-- ===== src/Floor/Processes/Chains.antt =====
-- Chains of parents among the work processes, and what the walk up a chain finds.
use bnpi_pats_api.Base.{
  ℕ, zero, suc, ◌≤◌, ◌<◌, String, List, [], ◌∷◌, Option, none, some, true, false, ◌≡◌, refl, sym,
  ap, ◌∙◌, arith, str_eq, eq_iff, includes, All, if◌then◌else◌, inl, inr, Bool-cases, Option-cases,
  get_or, find-passes,
}
use bnpi_pats_api.Base.Text
use bnpi_pats_api.Floor.{
  WorkProcess, process_of, update_many, find-update_many, find-update_many-none,
}
use bnpi_pats_api.Floor.Processes.{ProcessPatchBody, climb, renamed}

abbrev pub parent_in : Option WorkProcess → Option String
parent_in none = none
parent_in (some p) = p.parent_process_id

abbrev pub parent_of : List WorkProcess → String → Option String
parent_of ps c = parent_in (process_of ps c)

-- The chain of parents from `c` has `n` entries and ends: at a root, or at an id that no process has.
abbrev pub Chain : ℕ → List WorkProcess → Option String → Type 0
Chain zero ps c = c ≡ none
Chain (suc n) ps none = ⊥
Chain (suc n) ps (some c) = Chain n ps (parent_of ps c)

-- `x` is none of the entries.
abbrev pub Avoids : String → ℕ → List WorkProcess → Option String → Type 0
Avoids x zero ps c = Unit
Avoids x (suc n) ps none = Unit
Avoids x (suc n) ps (some c) = (str_eq c x ≡ false) × Avoids x n ps (parent_of ps c)

Chain-unique :
    (m n : ℕ) (ps : List WorkProcess) (c : Option String) → Chain m ps c → Chain n ps c → m ≡ n
Chain-unique zero zero ps c h k = refl
Chain-unique zero (suc n) ps none h k = absurd k
Chain-unique zero (suc n) ps (some c) h k = cc
Chain-unique (suc m) zero ps none h k = absurd h
Chain-unique (suc m) zero ps (some c) h k = cc
Chain-unique (suc m) (suc n) ps none h k = absurd h
Chain-unique (suc m) (suc n) ps (some c) h k = ap suc (Chain-unique m n ps (parent_of ps c) h k)

climb-next :
    (hops : ℕ) (ps : List WorkProcess) (x c : String) (seen : List String)
    → Text.is_empty c ≡ false
    → str_eq c x ≡ false
    → includes seen c ≡ false
    → climb (suc hops) ps x seen (some c) ≡ climb hops ps x (c ∷ seen) (parent_of ps c)
unfolding climb
climb-next zero ps x c seen a b d = ground arith
climb-next (suc hops) ps x c seen a b d = ground arith

climb-target :
    (hops : ℕ) (ps : List WorkProcess) (x c : String) (seen : List String)
    → Text.is_empty c ≡ false
    → str_eq c x ≡ true
    → climb (suc hops) ps x seen (some c) ≡ true
unfolding climb
climb-target hops ps x c seen a b = ground arith

-- What the walk has passed lies further from the end of the chain than what is ahead.
abbrev pub IsBehind : List WorkProcess → ℕ → String → Type 0
IsBehind ps n z = (m : ℕ) × Chain m ps (some z) × (n < m)

IsBehind-less :
    (ps : List WorkProcess) (n : ℕ) (seen : List String)
    → All (IsBehind ps (suc n)) seen
    → All (IsBehind ps n) seen
IsBehind-less ps n [] h = tt
IsBehind-less ps n (z ∷ seen) ((m, chain, less), h) =
    ((m, chain, omega arith), IsBehind-less ps n seen h)

not-includes :
    (ps : List WorkProcess) (n : ℕ) (c : String) (seen : List String)
    → Chain n ps (some c)
    → All (IsBehind ps n) seen
    → includes seen c ≡ false
not-includes ps n c [] chain h = refl
not-includes ps n c (z ∷ seen) chain ((m, other, less), h) = elim (Bool-cases (str_eq z c)) [
  | inl same ↦ absurd (
      let z_is_c : z ≡ c = (eq_iff z c).0 same in
      let m_is_n : m ≡ n = Chain-unique m n ps (some c) (rw z_is_c at other) chain in omega arith)
  | inr differs ↦ rw differs (not-includes ps n c seen chain h)
]

Avoids-none : (x : String) (n : ℕ) (ps : List WorkProcess) → Avoids x n ps none
Avoids-none x zero ps = tt
Avoids-none x (suc n) ps = tt

pub climb-Avoids :
    (hops n : ℕ) (ps : List WorkProcess) (x : String) (seen : List String) (c : Option String)
    → process_of ps "" ≡ none
    → str_eq "" x ≡ false
    → Chain n ps c
    → n ≤ hops
    → All (IsBehind ps n) seen
    → climb hops ps x seen c ≡ false
    → Avoids x n ps c
climb-Avoids hops zero ps x seen c no_empty x_full chain enough behind clear = tt
climb-Avoids hops (suc n) ps x seen none no_empty x_full chain enough behind clear = tt
climb-Avoids zero (suc n) ps x seen (some c) no_empty x_full chain enough behind clear =
    absurd (omega arith)
climb-Avoids (suc hops) (suc n) ps x seen (some String.[]) no_empty x_full chain enough behind
      clear =
    (x_full, rw no_empty (Avoids-none x n ps))
climb-Avoids (suc hops) (suc n) ps x seen (some (String.◌∷◌ a c)) no_empty x_full chain enough
      behind clear =
    elim (Bool-cases (str_eq (String.◌∷◌ a c) x)) [
      | inl met ↦ absurd (met_target met)
      | inr apart ↦ (
        apart,
        climb-Avoids hops n ps x (String.◌∷◌ a c ∷ seen) (parent_of ps (String.◌∷◌ a c)) no_empty
            x_full chain (omega arith) ((suc n, chain, omega arith), IsBehind-less ps n seen behind)
            (sym (
                climb-next hops ps x (String.◌∷◌ a c) seen refl apart
                  (not-includes ps (suc n) (String.◌∷◌ a c) seen chain behind))
              ∙ clear),
      )
    ]
  where
    met_target : str_eq (String.◌∷◌ a c) x ≡ true → ⊥
    met_target met = let h = climb-target hops ps x (String.◌∷◌ a c) seen refl met in cc

-- The processes after the patch of `x`.
abbrev pub after_patch : List WorkProcess → String → ProcessPatchBody → List WorkProcess
after_patch ps x body = update_many (λ p. str_eq p.id x) (renamed body) ps

module _ (ps : List WorkProcess) (x : String) (body : ProcessPatchBody) {moved : WorkProcess}
    (exists : process_of ps x ≡ some moved) where
  abbrev after : List WorkProcess
  after = after_patch ps x body

  parent-after :
      (c : String)
      → parent_of after c
        ≡ (if str_eq c x then get_or body.parent_process_id (parent_of ps c) else parent_of ps c)
  parent-after c = elim (Option-cases (process_of ps c)) [
    | inl missing ↦
        rw
          (
            find-update_many-none (λ p. str_eq p.id c) (λ p. str_eq p.id x) (renamed body)
                (λ p. refl) ps missing,
            missing,
          )
          (ground (arith, eq_iff c x, exists, missing))
    | inr (p, there) ↦
        rw
          (
            find-update_many (λ p. str_eq p.id c) (λ p. str_eq p.id x) (renamed body) (λ p. refl) ps
                p there,
            there,
            (eq_iff p.id c).0 (find-passes (λ p. str_eq p.id c) ps p there),
          )
          (ground arith)
  ]

  parent-after_hit :
      (q : Option String)
      → body.parent_process_id ≡ some q
      → (c : String) → str_eq c x ≡ true
      → parent_of after c ≡ q
  parent-after_hit q moves c hit = ground (arith, parent-after c)

  -- A chain that avoids `x` is the same after the move.
  pub Chain-after : (n : ℕ) (c : Option String) → Chain n ps c → Avoids x n ps c → Chain n after c
  Chain-after zero c chain apart = chain
  Chain-after (suc n) none chain apart = chain
  Chain-after (suc n) (some c) chain (apart, more) =
      rw (parent-after c, apart) (Chain-after n (parent_of ps c) chain more)

  -- Where the new parent's chain avoids `x`, every chain ends after the move.
  pub chains-after :
      (q : Option String) (k : ℕ)
      → body.parent_process_id ≡ some q
      → Chain k after q
      → (m : ℕ) (c : Option String) → Chain m ps c
      → (n : ℕ) × Chain n after c
  chains-after q k moves ends zero c chain = (0, chain)
  chains-after q k moves ends (suc m) none chain = absurd chain
  chains-after q k moves ends (suc m) (some c) chain = elim (Bool-cases (str_eq c x)) [
    | inl hit ↦ (suc k, rw (parent-after_hit q moves c hit) ends)
    | inr miss ↦
        let (n, more) = chains-after q k moves ends m (parent_of ps c) chain in
        (suc n, rw (parent-after c, miss) more)
  ]

  pub chains_kept :
      body.parent_process_id ≡ none → (m : ℕ) (c : Option String) → Chain m ps c → Chain m after c
  chains_kept same zero c chain = chain
  chains_kept same (suc m) none chain = chain
  chains_kept same (suc m) (some c) chain =
      rw (parent-after c, same) (ground (arith, chains_kept same m (parent_of ps c)))
