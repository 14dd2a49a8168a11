-- ===== src/Planning/Mint/Laws.antt =====
-- What a release plans: the sequence numbers, the size and the total of the trays of a part.
use bnpi_pats_api.Base.{
  ℕ, zero, suc, String, List, [], ◌∷◌, ◌++◌, map, ◌+◌, ◌-◌, ◌*◌, ◌/◌, ◌≤◌, ◌==◌, min, max, ◌≡◌, ◌≢◌,
  refl, ap, All, length, if◌then◌else◌, arith, Bool-cases, inl, inr, str_eq, eq_iff,
}
use bnpi_pats_api.Planning.Mint.{Tray, series_count, mint_series}

abbrev pub total : List Tray → ℕ
total [] = 0
total (t ∷ ts) = t.planned_quantity + total ts

-- `count` numbers after `start`.
abbrev pub numbers_after : ℕ → ℕ → List ℕ
numbers_after start zero = []
numbers_after start (suc count) = suc start ∷ numbers_after (suc start) count

ceiling-covers :
    (required batch_size : ℕ)
    → 1 ≤ batch_size
    → required ≤ (required + (batch_size - 1)) / batch_size * batch_size
ceiling-covers required batch_size h = omega arith

covers_max :
    (c required batch_size : ℕ) → required ≤ c * batch_size → required ≤ max 1 c * batch_size
covers_max zero required batch_size h = omega arith
covers_max (suc c) required batch_size h =
    let same : max 1 (suc c) ≡ suc c = omega arith in rw same h

pub series_count-covers :
    (required batch_size : ℕ)
    → 1 ≤ batch_size
    → required ≤ series_count required batch_size * batch_size
unfolding series_count
series_count-covers required batch_size h =
    covers_max ((required + (batch_size - 1)) / batch_size) required batch_size
      (ceiling-covers required batch_size h)

pub mint_series-total :
    (part_id requirement_id : String) (batch_size count slots series sequence left : ℕ)
    → total (mint_series part_id requirement_id batch_size count slots series sequence left)
      ≡ min left (slots * batch_size)
unfolding mint_series
mint_series-total p q size count zero series sequence left = ground arith
mint_series-total p q size count (suc slots) series sequence left = ground (
  arith,
  mint_series-total p q size count slots (suc series) (suc sequence) (left - min size left),
)

-- A tray of the part, of a positive quantity up to the batch size, with a series number up to the
-- count.
pub record IsTray (part_id : String) (batch_size count : ℕ) (t : Tray) : Type 0 where
  pub of_part : t.part_id ≡ part_id
  pub filled : 1 ≤ t.planned_quantity
  pub fits : t.planned_quantity ≤ batch_size
  pub numbered : t.series_number ≤ t.series_count
  pub counted : t.series_count ≡ count

pub mint_series-IsTray :
    (part_id requirement_id : String) (batch_size count slots series sequence left : ℕ)
    → 1 ≤ batch_size
    → slots ≤ suc count - series
    → All
        (IsTray part_id batch_size count)
        (mint_series part_id requirement_id batch_size count slots series sequence left)
unfolding mint_series
mint_series-IsTray p q size count zero series sequence left h k = tt
mint_series-IsTray p q size count (suc slots) series sequence left h k =
    elim (Bool-cases (left == 0)) [
      | inl planned ↦ rw planned tt
      | inr more ↦ rw more (
        record {
          of_part = refl;
          filled = ground arith;
          fits = omega arith;
          numbered = omega arith;
          counted = refl;
        },
        mint_series-IsTray p q size count slots (suc series) (suc sequence) (left - min size left) h
            (omega arith),
      )
    ]

pub mint_series-numbers :
    (part_id requirement_id : String) (batch_size count slots series sequence left : ℕ)
    → let trays = mint_series part_id requirement_id batch_size count slots series sequence left in
      map (λ (t : Tray). t.sequence) trays ≡ numbers_after sequence (length trays)
unfolding mint_series
mint_series-numbers p q size count zero series sequence left = refl
mint_series-numbers p q size count (suc slots) series sequence left =
    elim (Bool-cases (left == 0)) [
      | inl planned ↦ rw planned refl
      | inr more ↦ rw more (
          ap (λ (ns : List ℕ). suc sequence ∷ ns)
            (mint_series-numbers p q size count slots (suc series) (suc sequence)
              (left - min size left)))
    ]

pub length-append : (ts us : List Tray) → length (ts ++ us) ≡ length ts + length us
length-append [] us = omega arith
length-append (t ∷ ts) us = omega (arith, length-append ts us)

pub numbers_after-append :
    (start a b : ℕ)
    → numbers_after start (a + b) ≡ numbers_after start a ++ numbers_after (start + a) b
numbers_after-append start zero b =
    let same : start + zero ≡ start = omega arith in
    let left : zero + b ≡ b = omega arith in rw (same, left) refl
numbers_after-append start (suc a) b =
    let shifted : start + suc a ≡ suc start + a = omega arith in
    let split : suc a + b ≡ suc (a + b) = omega arith in
    rw (shifted, split)
      (ap (λ (ns : List ℕ). suc start ∷ ns) (numbers_after-append (suc start) a b))

pub map-append : (f : Tray → ℕ) (ts us : List Tray) → map f (ts ++ us) ≡ map f ts ++ map f us
map-append f [] us = refl
map-append f (t ∷ ts) us = ap (λ (ns : List ℕ). f t ∷ ns) (map-append f ts us)

-- The pieces of the trays that are of one part.
abbrev pub total_of : String → List Tray → ℕ
total_of part_id [] = 0
total_of part_id (t ∷ ts) =
    (if str_eq t.part_id part_id then t.planned_quantity else 0) + total_of part_id ts

pub total_of-append :
    (part_id : String) (ts us : List Tray)
    → total_of part_id (ts ++ us) ≡ total_of part_id ts + total_of part_id us
total_of-append part_id [] us = omega arith
total_of-append part_id (t ∷ ts) us = omega (arith, total_of-append part_id ts us)

pub total_of-own :
    (part_id : String) (batch_size count : ℕ) (ts : List Tray)
    → All (IsTray part_id batch_size count) ts
    → total_of part_id ts ≡ total ts
total_of-own part_id size count [] h = refl
total_of-own part_id size count (t ∷ ts) (h, hs) =
    ground (arith, h.of_part, eq_iff t.part_id part_id, total_of-own part_id size count ts hs)

pub total_of-other :
    (other part_id : String) (batch_size count : ℕ) (ts : List Tray)
    → part_id ≢ other
    → All (IsTray part_id batch_size count) ts
    → total_of other ts ≡ 0
total_of-other other part_id size count [] n h = refl
total_of-other other part_id size count (t ∷ ts) n (h, hs) =
    ground
      (arith, h.of_part, eq_iff t.part_id other, total_of-other other part_id size count ts n hs)
