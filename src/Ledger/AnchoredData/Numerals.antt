-- ===== src/Ledger/AnchoredData/Numerals.antt =====
-- Decimal numerals: printing and reading are inverse to one another.
use sidetree_js.Prelude.{
  ℕ, zero, suc, ◌+◌, ◌-◌, ◌*◌, ◌/◌, ◌%◌, ◌≤◌, ◌<◌, ◌≡◌, refl, ap, ◌∙◌, inl, inr, true, false, [],
  ◌∷◌, ◌++◌, append-nil, arith, ltb, Bool-cases,
}
use sidetree_js.Prelude.Text.{Text}
use sidetree_js.Ledger.AnchoredData.{
  print_from, print_number, all_digits, is_positive_integer, read_from,
}

read_from-print_from :
    (fuel n : ℕ) (rest : Text) → n ≤ fuel → read_from 0 (print_from fuel n rest) ≡ read_from n rest
unfolding print_from read_from
read_from-print_from zero n rest h = ap (λ k. read_from k rest) (omega arith)
read_from-print_from (suc fuel) n rest h = elim (Bool-cases (ltb n 10)) [
  | inl small ↦ rw small (ap (λ k. read_from k rest) (ground arith))
  | inr large ↦ rw large (
      read_from-print_from fuel (n / 10) ((b'0' + n % 10) ∷ rest) (ground arith)
      ∙ ap (λ k. read_from k rest) (omega arith))
]

pub read-print_number : (n : ℕ) → read_from 0 (print_number n) ≡ n
unfolding print_number read_from
read-print_number n = read_from-print_from n n [] (omega arith)

all_digits-print_from :
    (fuel n : ℕ) (rest : Text) → all_digits rest ≡ true → all_digits (print_from fuel n rest) ≡ true
unfolding print_from
all_digits-print_from zero n rest h = ground arith
all_digits-print_from (suc fuel) n rest h =
    ground (arith, all_digits-print_from fuel (n / 10) ((b'0' + n % 10) ∷ rest))

pub all_digits-print_number : (n : ℕ) → all_digits (print_number n) ≡ true
unfolding print_number
all_digits-print_number n = all_digits-print_from n n [] refl

positive-print_from :
    (fuel n : ℕ) (rest : Text)
    → 0 < n
    → n ≤ fuel
    → all_digits rest ≡ true
    → is_positive_integer (print_from fuel n rest) ≡ true
unfolding print_from is_positive_integer
positive-print_from zero n rest p h d = absurd (omega arith)
positive-print_from (suc fuel) n rest p h d =
    ground (arith, positive-print_from fuel (n / 10) ((b'0' + n % 10) ∷ rest))

pub positive-print_number : (n : ℕ) → 0 < n → is_positive_integer (print_number n) ≡ true
unfolding print_number
positive-print_number n p = positive-print_from n n [] p (omega arith) refl

-- any sufficient fuel prints the same
print_from_fuel :
    (f g n : ℕ) (rest : Text) → n ≤ f → n ≤ g → print_from f n rest ≡ print_from g n rest
unfolding print_from
print_from_fuel zero zero n rest h k = refl
print_from_fuel zero (suc g) n rest h k = ground arith
print_from_fuel (suc f) zero n rest h k = ground arith
print_from_fuel (suc f) (suc g) n rest h k =
    ground (arith, print_from_fuel f g (n / 10) ((b'0' + n % 10) ∷ rest))

print_from_step :
    (f n d : ℕ) (rest : Text)
    → 0 < n
    → d < 10
    → n * 10 + d ≤ f
    → print_from f (n * 10 + d) rest ≡ print_from n n ((b'0' + d) ∷ rest)
unfolding print_from
print_from_step zero n d rest p s h = absurd (omega arith)
print_from_step (suc f) n d rest p s h =
    let quotient : (n * 10 + d) / 10 ≡ n = omega arith in
    let remainder : (n * 10 + d) % 10 ≡ d = omega arith in
    let large : ltb (n * 10 + d) 10 ≡ false = ground arith in
    rw (large, quotient, remainder)
      (print_from_fuel f n n ((b'0' + d) ∷ rest) (omega arith) (omega arith))

print_from-read_from :
    (s : Text) (acc : ℕ) (rest : Text)
    → 0 < acc
    → all_digits s ≡ true
    → print_from (read_from acc s) (read_from acc s) rest ≡ print_from acc acc (s ++ rest)
unfolding read_from
print_from-read_from [] acc rest p d = refl
print_from-read_from (c ∷ s) acc rest p d =
    let digit : b'0' + (c - b'0') ≡ c = ground arith in
    print_from-read_from s (acc * 10 + (c - b'0')) rest (omega arith) (ground arith)
    ∙ print_from_step (acc * 10 + (c - b'0')) acc (c - b'0') (s ++ rest) p (ground arith)
        (omega arith)
    ∙ ap (λ k. print_from acc acc (k ∷ (s ++ rest))) digit

print_from_digit : (d : ℕ) (rest : Text) → d < 10 → print_from d d rest ≡ (b'0' + d) ∷ rest
unfolding print_from
print_from_digit zero rest h = refl
print_from_digit (suc d) rest h = ground arith

-- A numeral without leading zeros is the print of its number.
pub print-read : (s : Text) → is_positive_integer s ≡ true → print_number (read_from 0 s) ≡ s
unfolding print_number is_positive_integer read_from
print-read [] h = cc
print-read (c ∷ s) h =
    let digit : b'0' + (c - b'0') ≡ c = ground arith in
    let start : 0 * 10 + (c - b'0') ≡ c - b'0' = omega arith in
    rw start (
      print_from-read_from s (c - b'0') [] (ground arith) (ground arith)
      ∙ print_from_digit (c - b'0') (s ++ []) (ground arith)
      ∙ rw (append-nil, digit) refl)

read_from-ge : (s : Text) (acc : ℕ) → acc ≤ read_from acc s
unfolding read_from
read_from-ge [] acc = omega arith
read_from-ge (c ∷ s) acc = omega (arith, read_from-ge s (acc * 10 + (c - b'0')))

pub read-positive : (s : Text) → is_positive_integer s ≡ true → 0 < read_from 0 s
unfolding is_positive_integer read_from
read-positive [] h = cc
read-positive (c ∷ s) h = ground (arith, read_from-ge s (0 * 10 + (c - b'0')))
