-- ===== src/Floor/Sections/Codes/Laws.antt =====
-- The loop for a free section code ends with one: among one more codes than there are sections, one is
-- free, since the codes differ.
use Prim.Native.String.{◌++◌ as join}
use text.Mathlib.TextLemmas.{cons-append, append-nil, append_cancel_left}
use bnpi_pats_api.Base.{
  ℕ, zero, suc, ◌+◌, ◌≤◌, ◌<◌, String, List, [], ◌∷◌, Option, some, Bool, true, false, ◌≡◌, ◌≢◌,
  refl, sym, ap, ◌∙◌, arith, str_eq, eq_iff, opt_eq, opt_eq_iff, length, inl, inr, Bool-cases,
}
use bnpi_pats_api.Base.Decimal.{decimal, quoted}
use bnpi_pats_api.Command.Request.{parse_if_match}
use bnpi_pats_api.Command.Request.EntityTag.{parse_if_match-quoted}
use bnpi_pats_api.Floor.{Section, delete_many}
use bnpi_pats_api.Floor.Sections.Codes.{code_taken, numbered, next_free, free_code}

some_injective : (m n : ℕ) → ◌≡◌ {A = Option ℕ} (some m) (some n) → m ≡ n
some_injective m n h = cc

decimal_injective : (m n : ℕ) → decimal m ≡ decimal n → m ≡ n
unfolding quoted
decimal_injective m n h =
    let same : quoted m ≡ quoted n = ap (λ d. join (join "\"" d) "\"") h in
    some_injective m n
      (sym (parse_if_match-quoted m) ∙ ap parse_if_match same ∙ parse_if_match-quoted n)

numbered_injective : (base : String) (m n : ℕ) → numbered base m ≡ numbered base n → m ≡ n
numbered_injective base m n h = decimal_injective m n (
    append_cancel_left "-" (decimal m) (decimal n)
      (append_cancel_left base (join "-" (decimal m)) (join "-" (decimal n)) h))

dash_nonempty : (s : String) → join "-" s ≢ ""
dash_nonempty s h = cc (cons-append "-" "" s, h)

base-ne-numbered : (base : String) (n : ℕ) → base ≢ numbered base n
base-ne-numbered base n h =
    dash_nonempty (decimal n)
      (sym (append_cancel_left base "" (join "-" (decimal n)) (append-nil base ∙ h)))

numbered_apart :
    (base : String) (m n : ℕ) → m < n → str_eq (numbered base m) (numbered base n) ≡ false
numbered_apart base m n less = elim (Bool-cases (str_eq (numbered base m) (numbered base n))) [
  | inr apart ↦ apart
  | inl same ↦ absurd (
      omega
        (arith, numbered_injective base m n ((eq_iff (numbered base m) (numbered base n)).0 same)))
]

base_apart : (base : String) (k : ℕ) → str_eq base (numbered base k) ≡ false
base_apart base k = elim (Bool-cases (str_eq base (numbered base k))) [
  | inr apart ↦ apart
  | inl same ↦ absurd (base-ne-numbered base k ((eq_iff base (numbered base k)).0 same))
]

-- The candidate differs from all that follow it.
abbrev IsEarlier : String → String → ℕ → Type 0
IsEarlier base candidate attempt =
    (k : ℕ) → attempt < k → str_eq candidate (numbered base k) ≡ false

abbrev has_code : String → Section → Bool
has_code c s = opt_eq s.section_code (some c)

taken_without :
    (ss : List Section) (gone c : String)
    → str_eq gone c ≡ false
    → code_taken (delete_many (has_code gone) ss) c ≡ code_taken ss c
taken_without [] gone c apart = refl
taken_without (s ∷ ss) gone c apart = ground (
  arith,
  taken_without ss gone c apart,
  opt_eq_iff s.section_code (some gone),
  opt_eq_iff s.section_code (some c),
  eq_iff gone c,
)

length-delete_many_le :
    (q : Section → Bool) (ss : List Section) → length (delete_many q ss) ≤ length ss
length-delete_many_le q [] = omega arith
length-delete_many_le q (s ∷ ss) = ground (arith, length-delete_many_le q ss)

length-without :
    (ss : List Section) (c : String)
    → code_taken ss c ≡ true
    → length (delete_many (has_code c) ss) < length ss
length-without [] c h = cc
length-without (s ∷ ss) c h =
    ground (arith, length-without ss c, length-delete_many_le (has_code c) ss)

-- The loop returns the candidate, or a numbered code that follows it.
next_free-numbered :
    (n : ℕ) (ss : List Section) (base : String) (attempt : ℕ)
    → (k : ℕ) × (attempt ≤ k)
      × (next_free n ss base (numbered base attempt) attempt ≡ numbered base k)
unfolding next_free
next_free-numbered zero ss base attempt = (attempt, omega arith, refl)
next_free-numbered (suc n) ss base attempt =
    elim (Bool-cases (code_taken ss (numbered base attempt))) [
      | inl taken ↦
          let (k, later, same) = next_free-numbered n ss base (attempt + 1) in
          (k, omega arith, rw taken same)
      | inr free ↦ (attempt, omega arith, rw free refl)
    ]

-- Sections with an earlier code play no part.
next_free-without :
    (n : ℕ) (ss : List Section) (base gone : String) (attempt : ℕ)
    → ((k : ℕ) → attempt ≤ k → str_eq gone (numbered base k) ≡ false)
    → next_free n (delete_many (has_code gone) ss) base (numbered base attempt) attempt
      ≡ next_free n ss base (numbered base attempt) attempt
unfolding next_free
next_free-without zero ss base gone attempt apart = refl
next_free-without (suc n) ss base gone attempt apart =
    rw
      (
        taken_without ss gone (numbered base attempt) (apart attempt (omega arith)),
        next_free-without n ss base gone (attempt + 1) (λ k later. apart k (omega arith)),
      )
      refl

next_free-hit :
    (n : ℕ) (ss : List Section) (base candidate : String) (attempt : ℕ)
    → code_taken ss candidate ≡ false
    → next_free (suc n) ss base candidate attempt ≡ candidate
unfolding next_free
next_free-hit n ss base candidate attempt free = rw free refl

next_free-miss :
    (n : ℕ) (ss : List Section) (base candidate : String) (attempt : ℕ)
    → code_taken ss candidate ≡ true
    → next_free (suc n) ss base candidate attempt
      ≡ next_free n ss base (numbered base (attempt + 1)) (attempt + 1)
unfolding next_free
next_free-miss n ss base candidate attempt taken = rw taken refl

next_free-free :
    (n : ℕ) (ss : List Section) (base candidate : String) (attempt : ℕ)
    → length ss ≤ n
    → IsEarlier base candidate attempt
    → code_taken ss (next_free n ss base candidate attempt) ≡ false
unfolding next_free
next_free-free n [] base candidate attempt short earlier = refl
next_free-free zero (s ∷ ss) base candidate attempt short earlier = absurd (omega arith)
next_free-free (suc n) (s ∷ ss) base candidate attempt short earlier =
    elim (Bool-cases (code_taken (s ∷ ss) candidate)) [
      | inr free ↦
          ap (code_taken (s ∷ ss)) (next_free-hit n (s ∷ ss) base candidate attempt free) ∙ free
      | inl taken ↦
          let fewer = length-without (s ∷ ss) candidate taken in
          let rest = delete_many (has_code candidate) (s ∷ ss) in
          let (k, later, found) = next_free-numbered n (s ∷ ss) base (attempt + 1) in
          let shut =
            next_free-free n rest base (numbered base (attempt + 1)) (attempt + 1) (omega arith)
              (λ j less. numbered_apart base (attempt + 1) j less) in
          let apart = earlier k (omega arith) in
          let same =
            next_free-without n (s ∷ ss) base candidate (attempt + 1)
              (λ j more. earlier j (omega arith)) in
          ap (code_taken (s ∷ ss)) (next_free-miss n (s ∷ ss) base candidate attempt taken ∙ found)
          ∙ (sym (taken_without (s ∷ ss) candidate (numbered base k) apart)
              ∙ (ap (code_taken rest) (sym (same ∙ found)) ∙ shut))
    ]

-- The code that the loop gives a new section is one that no section has, however many sections took
-- the codes before it: the loop ends after as many attempts as there are sections, and one.
pub free_code-free : (ss : List Section) (base : String) → code_taken ss (free_code ss base) ≡ false
unfolding free_code
free_code-free ss base =
    next_free-free (length ss) ss base base 1 (omega arith) (λ k more. base_apart base k)
