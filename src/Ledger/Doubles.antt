-- ===== src/Ledger/Doubles.antt =====
-- JavaScript's numbers, as far as the fees and the locks need them: values that are finite and not
-- negative, each a fraction, with operations that round to the nearest double, ties to even. What is
-- outside the exponents of normal doubles, from which the ledger's numbers are far, is left out.
mod Rounding
use sidetree_js.Prelude.{
  ℕ, zero, suc, ◌+◌, ◌*◌, ◌/◌, ◌%◌, ◌<◌, Bool, true, false, arith, ltb, leb, if◌then◌else◌,
  Bool-cases, inl, inr,
}

pub record Double : Type 0 where
  pub numerator : ℕ
  pub denominator : ℕ

-- an integer that a double has exactly: one below 2 ^ 53
abbrev pub integer : ℕ → Double
integer n = record { numerator = n; denominator = 1 }

-- the least significand
abbrev pub significand : ℕ
significand = 4503599627370496

-- more than the exponents of doubles have either way
abbrev pub exponents : ℕ
exponents = 1100

-- `p / q`, rounded to an integer
unfoldable pub round_half_even : ℕ → ℕ → ℕ
round_half_even p q =
    if ltb (2 * (p % q)) q
    then p / q
    else if ltb q (2 * (p % q))
    then p / q + 1
    else p / q + (p / q) % 2

-- Doubles the numerator until the quotient has enough bits, and the denominator of the result.
unfoldable pub scale_up : ℕ → ℕ → ℕ → ℕ → ℕ × ℕ
scale_up zero p q d = (p, d)
scale_up (suc fuel) p q d = elim (ltb p (significand * q)) [
  | false ↦ (p, d)
  | true ↦ scale_up fuel (2 * p) q (2 * d)
]

-- Doubles the denominator until the quotient has no bit too many, and the numerator of the result.
unfoldable pub scale_down : ℕ → ℕ → ℕ → ℕ → ℕ × ℕ
scale_down zero p q n = (q, n)
scale_down (suc fuel) p q n = elim (leb (2 * significand * q) p) [
  | false ↦ (q, n)
  | true ↦ scale_down fuel p (2 * q) (2 * n)
]

-- the double nearest to `p / q`, for a positive `q`
unfoldable pub round : ℕ → ℕ → Double
round zero q = integer 0
round (suc p) q =
    let up = scale_up exponents (suc p) q 1 in
    let down = scale_down exponents up.0 q 1 in
    record { numerator = round_half_even up.0 down.0 * down.1; denominator = up.1 }

unfoldable pub times : Double → Double → Double
times a b = round (a.numerator * b.numerator) (a.denominator * b.denominator)

-- the quotient by what is not zero
unfoldable pub over : Double → Double → Double
over a b = round (a.numerator * b.denominator) (a.denominator * b.numerator)

unfoldable pub less : Double → Double → Bool
less a b = ltb (a.numerator * b.denominator) (b.numerator * a.denominator)

scale_up-positive : (fuel p q d : ℕ) → 0 < d → 0 < (scale_up fuel p q d).1
unfolding scale_up
scale_up-positive zero p q d h = h
scale_up-positive (suc fuel) p q d h = elim (Bool-cases (ltb p (significand * q))) [
  | inl low ↦ rw (scale_up, low) (scale_up-positive fuel (2 * p) q (2 * d) (omega arith))
  | inr high ↦ rw (scale_up, high) h
]

round-positive : (p q : ℕ) → 0 < (round p q).denominator
unfolding round
round-positive zero q = omega arith
round-positive (suc p) q = scale_up-positive exponents (suc p) q 1 (omega arith)

-- A quotient has a denominator.
pub over-positive : (a b : Double) → 0 < (over a b).denominator
unfolding over
over-positive a b = round-positive (a.numerator * b.denominator) (a.denominator * b.numerator)
