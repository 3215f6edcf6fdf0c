-- ===== src/Ledger/Doubles/Rounding.antt =====
-- The scaling before a quotient is rounded: it keeps the value, and its fuel is enough.
use sidetree_js.Prelude.{
  ℕ, zero, suc, ◌*◌, ◌≤◌, ◌<◌, ◌≡◌, refl, inl, inr, arith, ltb, leb, Bool-cases,
}
use sidetree_js.Ledger.Doubles.{significand, exponents, scale_up, scale_down}

-- `n * 2 ^ k`
abbrev doubled : ℕ → ℕ → ℕ
doubled zero n = n
doubled (suc k) n = doubled k (2 * n)

scale_up-value : (fuel p q d : ℕ) → (scale_up fuel p q d).0 * d ≡ p * (scale_up fuel p q d).1
unfolding scale_up
scale_up-value zero p q d = refl
scale_up-value (suc fuel) p q d = elim (Bool-cases (ltb p (significand * q))) [
  | inl low ↦ rw (scale_up, low) (grind (arith, scale_up-value fuel (2 * p) q (2 * d)))
  | inr high ↦ rw (scale_up, high) refl
]

scale_up-enough :
    (fuel p q d : ℕ) → significand * q ≤ doubled fuel p → significand * q ≤ (scale_up fuel p q d).0
unfolding scale_up
scale_up-enough zero p q d h = h
scale_up-enough (suc fuel) p q d h = elim (Bool-cases (ltb p (significand * q))) [
  | inl low ↦ rw (scale_up, low) (scale_up-enough fuel (2 * p) q (2 * d) h)
  | inr high ↦ rw (scale_up, high) (ground arith)
]

scale_down-value : (fuel p q n : ℕ) → (scale_down fuel p q n).0 * n ≡ q * (scale_down fuel p q n).1
unfolding scale_down
scale_down-value zero p q n = refl
scale_down-value (suc fuel) p q n = elim (Bool-cases (leb (2 * significand * q) p)) [
  | inl high ↦ rw (scale_down, high) (grind (arith, scale_down-value fuel p (2 * q) (2 * n)))
  | inr low ↦ rw (scale_down, low) refl
]

-- The quotient keeps enough bits, and gets none too many.
scale_down-enough :
    (fuel p q n : ℕ)
    → significand * q ≤ p
    → p < 2 * significand * doubled fuel q
    → (significand * (scale_down fuel p q n).0 ≤ p)
      × (p < 2 * significand * (scale_down fuel p q n).0)
unfolding scale_down
scale_down-enough zero p q n least h = (least, h)
scale_down-enough (suc fuel) p q n least h = elim (Bool-cases (leb (2 * significand * q) p)) [
  | inl high ↦ rw (scale_down, high) (scale_down-enough fuel p (2 * q) (2 * n) (ground arith) h)
  | inr low ↦ rw (scale_down, low) (least, ground arith)
]

-- Where the exponent of a quotient is one of a double, the scaled quotient has exactly the bits of a
-- significand.
round-significand :
    (p q : ℕ)
    → significand * q ≤ doubled exponents p
    → (scale_up exponents p q 1).0 < 2 * significand * doubled exponents q
    → let up = (scale_up exponents p q 1).0 in
      let down = (scale_down exponents up q 1).0 in
      (significand * down ≤ up) × (up < 2 * significand * down)
round-significand p q least h =
    scale_down-enough exponents (scale_up exponents p q 1).0 q 1
      (scale_up-enough exponents p q 1 least) h
