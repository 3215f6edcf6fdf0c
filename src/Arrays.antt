-- ===== src/Arrays.antt =====
-- packages/common/src/util/SortedArray.ts and packages/core/src/util/ArrayMethods.ts.
pub mod Search
pub mod Duplicates
use sidetree_js.Prelude.{
  ℕ, zero, suc, ◌+◌, ◌-◌, ◌*◌, ◌/◌, ◌%◌, ◌≤◌, ◌<◌, max, ◌≡◌, refl, sym, ap, ◌∙◌, ◌≢◌, ◌↔◌, ◌⊎◌, inl,
  inr, Bool, true, false, not, ◌&&◌, ◌||◌, Option, none, some, List, [], ◌∷◌, ◌++◌, map, append-nil,
  append_assoc, arith, ltb, leb, ◌==◌, if◌then◌else◌, ltb→lt, leb→le, ==_iff, Bool-cases,
  Option-cases, length, get_elem?, take, drop, filter, length-append, All, All-append, All-filter,
  All-of_mem,
}
use sidetree_js.Prelude.Text.{
  Text, codes, text_eq, text_eq_sound, text_eq_refl, text_eq_iff, member, Distinct,
}

-- the sign of what `compare` returns
pub data Sign : Type 0 where
  negative zero_ positive : Sign

module _ {ℓ κ} {A : Type ℓ} {B : Type κ} (compare : A → B → Sign) (search_item : B) where
  -- The loop on fuel, from `lowerBoundaryIndex` to before `end`, which is `upperBoundaryIndex + 1`.
  -- `none` is running out of fuel, or reading outside of the array.
  unfoldable pub search_from : ℕ → List A → ℕ → ℕ → Option (Option ℕ)
  search_from zero sorted_array lower end = none
  search_from (suc fuel) sorted_array lower end =
      let middle = (lower + (end - 1)) / 2 in
      elim (ltb lower end) [
        | false ↦ some none
        | true ↦ elim (get_elem? sorted_array middle) [
          | none ↦ none
          | some x ↦ elim (compare x search_item) [
            | positive ↦ search_from fuel sorted_array lower middle
            | negative ↦ search_from fuel sorted_array (middle + 1) end
            | zero_ ↦ some (some middle)
          ]
        ]
      ]

  -- `binarySearch`, with fuel for every halving
  unfoldable pub binary_search : List A → Option (Option ℕ)
  binary_search sorted_array =
      search_from (suc (length sorted_array)) sorted_array 0 (length sorted_array)

-- the loop of `hasDuplicates`, with the set of the values before
unfoldable pub has_duplicates_from : List Text → List Text → Bool
has_duplicates_from unique_values [] = false
has_duplicates_from unique_values (value ∷ array) =
    let rest = has_duplicates_from (value ∷ unique_values) array in
    if member value unique_values then true else rest

unfoldable pub has_duplicates : List Text → Bool
has_duplicates array = has_duplicates_from [] array

-- `areMutuallyExclusive`
unfoldable pub are_mutually_exclusive : List Text → List Text → Bool
are_mutually_exclusive array1 [] = true
are_mutually_exclusive array1 (value ∷ array2) =
    let rest = are_mutually_exclusive array1 array2 in if member value array1 then false else rest
