-- ===== src/Command/Request/EntityTag.antt =====
-- The entity tag that a command sets is an `If-Match` that the next command accepts.
use Prim.Native.String.{String}
use text.Mathlib.TextLemmas.{cons-append, nil-append}
use bnpi_pats_api.Base.{
  ℕ, zero, suc, ◌+◌, ◌-◌, ◌*◌, ◌/◌, ◌%◌, ◌<◌, some, true, ◌≡◌, ap, ◌∙◌, arith, Bool-cases, inl, inr,
  ◌==◌,
}
use bnpi_pats_api.Base.Decimal.{
  digit, code-digit, decimal_before, decimal_before-join, quoted, is_digit,
}
use bnpi_pats_api.Command.Request.{digits_quote, starts_with_digit, parse_if_match}

digits_quote-digit :
    (d k : ℕ) (s : String)
    → d < 10
    → digits_quote (String.◌∷◌ (digit d) s) k ≡ digits_quote s (k * 10 + d)
unfolding digits_quote
digits_quote-digit d k s h =
    let same : k * 10 + (48 + d - 48) ≡ k * 10 + d = omega arith in
    rw (code-digit d h, same) (ground arith)

is_digit-digit : (d : ℕ) → d < 10 → is_digit (digit d) ≡ true
is_digit-digit d h = rw (code-digit d h) (ground arith)

-- The digits of a number read back as that number.
digits_quote-decimal_before :
    (fuel n : ℕ) (rest : String)
    → n < fuel
    → digits_quote (decimal_before fuel n rest) 0 ≡ digits_quote rest n
unfolding decimal_before
digits_quote-decimal_before zero n rest h = elim h [ ]
digits_quote-decimal_before (suc fuel) n rest h = elim (Bool-cases (n / 10 == 0)) [
  | inl short ↦
      let same : 0 * 10 + n % 10 ≡ n = ground arith in
      rw short (digits_quote-digit (n % 10) 0 rest (omega arith) ∙ ap (digits_quote rest) same)
  | inr long ↦
      let same : n / 10 * 10 + n % 10 ≡ n = omega arith in
      rw long (
        digits_quote-decimal_before fuel (n / 10) (String.◌∷◌ (digit (n % 10)) rest) (ground arith)
        ∙ digits_quote-digit (n % 10) (n / 10) rest (omega arith)
        ∙ ap (digits_quote rest) same)
]

starts-decimal_before :
    (fuel n : ℕ) (rest : String)
    → starts_with_digit rest ≡ true
    → starts_with_digit (decimal_before fuel n rest) ≡ true
unfolding decimal_before
starts-decimal_before zero n rest h = h
starts-decimal_before (suc fuel) n rest h = elim (Bool-cases (n / 10 == 0)) [
  | inl short ↦ rw short (is_digit-digit (n % 10) (omega arith))
  | inr long ↦ rw long (
      starts-decimal_before fuel (n / 10) (String.◌∷◌ (digit (n % 10)) rest)
        (is_digit-digit (n % 10) (omega arith)))
]

starts-decimal :
    (fuel n : ℕ) (rest : String) → starts_with_digit (decimal_before (suc fuel) n rest) ≡ true
unfolding decimal_before
starts-decimal fuel n rest = elim (Bool-cases (n / 10 == 0)) [
  | inl short ↦ rw short (is_digit-digit (n % 10) (omega arith))
  | inr long ↦ rw long (
      starts-decimal_before fuel (n / 10) (String.◌∷◌ (digit (n % 10)) rest)
        (is_digit-digit (n % 10) (omega arith)))
]

quoted_lem : (n : ℕ) → quoted n ≡ String.◌∷◌ "\"" (decimal_before (suc n) n "\"")
unfolding quoted
quoted_lem n = rw (cons-append, nil-append, cons-append, decimal_before-join (suc n) n "" "\"")

-- Every row version that a command sends as an entity tag reads back, as `If-Match`, as itself.
pub parse_if_match-quoted : (n : ℕ) → parse_if_match (quoted n) ≡ some n
parse_if_match-quoted n = rw quoted_lem (
    unfold parse_if_match in
    rw (starts-decimal n n "\"") (digits_quote-decimal_before (suc n) n "\"" (omega arith)))
