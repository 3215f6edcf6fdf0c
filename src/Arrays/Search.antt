-- ===== src/Arrays/Search.antt =====
-- Binary search: it ends, and finds what a search of the whole array finds.
use sidetree_js.Prelude.{
  ℕ, zero, suc, ◌+◌, ◌-◌, ◌/◌, ◌≤◌, ◌<◌, ◌≡◌, refl, ◌≢◌, ◌⊎◌, inl, inr, Option, none, some, List,
  [], ◌∷◌, arith, ltb, Bool-cases, length, get_elem?,
}
use sidetree_js.Arrays.{Sign, negative, zero_, positive, search_from, binary_search}

Sign-cases : (s : Sign) → (s ≡ negative) ⊎ ((s ≡ zero_) ⊎ (s ≡ positive))
Sign-cases negative = inl refl
Sign-cases zero_ = inr (inl refl)
Sign-cases positive = inr (inr refl)

get_elem?-some {ℓ} :
    {A : Type ℓ} (xs : List A) (i : ℕ) → i < length xs → (x : A) × (get_elem? xs i ≡ some x)
get_elem?-some [] i h = absurd (omega arith)
get_elem?-some (x ∷ xs) zero h = (x, refl)
get_elem?-some (x ∷ xs) (suc i) h = get_elem?-some xs i (omega arith)

get_elem?-outside {ℓ} :
    {A : Type ℓ} (xs : List A) (i : ℕ) (x : A) → length xs ≤ i → get_elem? xs i ≡ some x → ⊥
get_elem?-outside [] i x h e = cc e
get_elem?-outside (y ∷ xs) zero x h e = omega arith
get_elem?-outside (y ∷ xs) (suc i) x h e = get_elem?-outside xs i x (omega arith) e

module _ {ℓ κ} {A : Type ℓ} {B : Type κ} (compare : A → B → Sign) (search_item : B)
    (array : List A) where
  -- A sorted array: after an item that is greater than the one searched come greater ones, and
  -- before a smaller one smaller ones.
  pub record IsSortedFor : Type ℓ where
    pub after_greater :
        (i j : ℕ) (x y : A)
        → i ≤ j
        → get_elem? array i ≡ some x
        → get_elem? array j ≡ some y
        → compare x search_item ≡ positive
        → compare y search_item ≡ positive
    pub before_smaller :
        (i j : ℕ) (x y : A)
        → i ≤ j
        → get_elem? array i ≡ some x
        → get_elem? array j ≡ some y
        → compare y search_item ≡ negative
        → compare x search_item ≡ negative

  -- what a search may return
  abbrev pub IsAnswer : Option ℕ → Type ℓ
  IsAnswer (some i) = (x : A) × (get_elem? array i ≡ some x) × (compare x search_item ≡ zero_)
  IsAnswer none = (i : ℕ) (x : A) → get_elem? array i ≡ some x → compare x search_item ≢ zero_

  -- outside of the boundaries there is no match
  record Bounded (lower end : ℕ) : Type ℓ where
    in_array : end ≤ length array
    below : (i : ℕ) (x : A) → i < lower → get_elem? array i ≡ some x → compare x search_item ≢ zero_
    above : (i : ℕ) (x : A) → end ≤ i → get_elem? array i ≡ some x → compare x search_item ≢ zero_

  module _ (sorted : IsSortedFor) where
    search_from-IsAnswer :
        (fuel lower end : ℕ)
        → end - lower < fuel
        → Bounded lower end
        → (answer : Option ℕ) × (search_from compare search_item fuel array lower end ≡ some answer)
          × IsAnswer answer
    unfolding search_from
    search_from-IsAnswer zero lower end h b = absurd (omega arith)
    search_from-IsAnswer (suc fuel) lower end h b = elim (Bool-cases (ltb lower end)) [
      | inr empty ↦ (
        none,
        rw (search_from, empty) refl,
        λ i x e. elim (Bool-cases (ltb i lower)) [
          | inl before ↦ b.below i x (ground arith) e
          | inr after ↦ b.above i x (ground arith) e
        ],
      )
      | inl more ↦
          (let middle = (lower + (end - 1)) / 2 in
            let lower_middle : lower ≤ middle = ground arith in
            let middle_end : middle < end = ground arith in
            let (x, found) = get_elem?-some array middle (omega (arith, b.in_array)) in
            elim (Sign-cases (compare x search_item)) [
              | inl smaller ↦
                  (let (answer, run, right) =
                      search_from-IsAnswer fuel (middle + 1) end (omega arith) (record {
                        in_array = b.in_array;
                        below = λ i y le e z. absurd (
                            cc (
                              sorted.before_smaller i middle y x (omega arith) e found smaller,
                              z,
                            ));
                        above = b.above;
                      }) in
                    (answer, rw (search_from, more, found, smaller) run, right))
              | inr (inl match) ↦
                  (some middle, rw (search_from, more, found, match) refl, (x, found, match))
              | inr (inr greater) ↦
                  (let (answer, run, right) =
                      search_from-IsAnswer fuel lower middle (omega arith) (record {
                        in_array = omega (arith, b.in_array);
                        below = b.below;
                        above = λ i y le e z.
                            absurd (cc (sorted.after_greater middle i x y le found e greater, z));
                      }) in
                    (answer, rw (search_from, more, found, greater) run, right))
            ])
    ]

    -- On a sorted array the search ends, and never reads outside of the array. An index that it
    -- returns is of an item that matches, and if it returns none, no item of the array matches.
    pub binary_search-IsAnswer :
        (answer : Option ℕ) × (binary_search compare search_item array ≡ some answer)
        × IsAnswer answer
    unfolding binary_search
    binary_search-IsAnswer =
        search_from-IsAnswer (suc (length array)) 0 (length array) (omega arith) (record {
          in_array = omega arith;
          below = λ i x h e z. absurd (omega arith);
          above = λ i x h e z. absurd (get_elem?-outside array i x h e);
        })
