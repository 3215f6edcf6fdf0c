-- ===== src/Arrays/Duplicates.antt =====
-- The checks of arrays against sets of values.
use sidetree_js.Prelude.{
  ◌≡◌, refl, ◌↔◌, inl, inr, true, false, List, [], ◌∷◌, arith, Bool-cases, All,
}
use sidetree_js.Prelude.Text.{Text, text_eq_iff, member, Distinct}
use sidetree_js.Arrays.{has_duplicates_from, has_duplicates, are_mutually_exclusive}

-- no value of an array is in another
abbrev pub Apart : List Text → List Text → Type 0
Apart seen array = All (λ v. member v seen ≡ false) array

Apart-cons :
    (v : Text) (seen array : List Text)
    → member v array ≡ false
    → Apart seen array
    → Apart (v ∷ seen) array
unfolding member
Apart-cons v seen [] h a = tt
Apart-cons v seen (w ∷ array) h (a, b) =
    (ground (arith, text_eq_iff v w, text_eq_iff w v), Apart-cons v seen array (ground arith) b)

pub Apart-tail : (v : Text) (seen array : List Text) → Apart (v ∷ seen) array → Apart seen array
unfolding member
Apart-tail v seen [] a = tt
Apart-tail v seen (w ∷ array) (a, b) = (ground arith, Apart-tail v seen array b)

pub Apart-head :
    (v : Text) (seen array : List Text) → Apart (v ∷ seen) array → member v array ≡ false
unfolding member
Apart-head v seen [] a = refl
Apart-head v seen (w ∷ array) (a, b) =
    ground (arith, text_eq_iff v w, text_eq_iff w v, Apart-head v seen array b)

pub Distinct-from :
    (seen array : List Text)
    → (has_duplicates_from seen array ≡ false) ↔ (Distinct array × Apart seen array)
unfolding has_duplicates_from
Distinct-from seen [] = (λ h. (tt, tt), λ h. refl)
Distinct-from seen (v ∷ array) =
    let (to, from) = Distinct-from (v ∷ seen) array in
    elim (Bool-cases (member v seen)) [
      | inl found ↦ (λ h. absurd (ground arith), λ h. absurd (ground arith))
      | inr new ↦ (
        λ h.
            (let (d, a) = to (ground arith) in
              ((Apart-head v seen array a, d), (new, Apart-tail v seen array a))),
        λ ((n, d), (m, a)). (let rest = from (d, Apart-cons v seen array n a) in ground arith),
      )
    ]

pub Apart-nil : (array : List Text) → Apart [] array
unfolding member
Apart-nil [] = tt
Apart-nil (v ∷ array) = (refl, Apart-nil array)

-- `hasDuplicates` is false exactly on the arrays in which no value occurs twice.
pub has_duplicates_iff : (array : List Text) → (has_duplicates array ≡ false) ↔ Distinct array
unfolding has_duplicates
has_duplicates_iff array =
    let (to, from) = Distinct-from [] array in (λ h. (to h).0, λ d. from (d, Apart-nil array))

-- `areMutuallyExclusive` is true exactly if no value of the second array is in the first.
pub are_mutually_exclusive_iff :
    (array1 array2 : List Text)
    → (are_mutually_exclusive array1 array2 ≡ true) ↔ Apart array1 array2
unfolding are_mutually_exclusive
are_mutually_exclusive_iff array1 [] = (λ h. tt, λ h. refl)
are_mutually_exclusive_iff array1 (v ∷ array2) =
    let (to, from) = are_mutually_exclusive_iff array1 array2 in
    (λ h. (ground arith, to (ground arith)), λ (n, a). (let rest = from a in ground arith))
