-- ===== src/Document/Find.antt =====
-- A list of keys or services as the view that its readers have of it: the entry with a given id.
use sidetree_js.Prelude.{
  ◌≡◌, refl, false, not, Option, none, some, List, [], ◌∷◌, map, filter, arith, if◌then◌else◌,
}
use sidetree_js.Prelude.Text.{Text, text_eq, text_eq_iff, member, Distinct}

-- `a ?? b`
abbrev pub or_else {ℓ} : {A : Type ℓ} → Option A → Option A → Option A
or_else none b = b
or_else (some a) b = some a

pub or_else-none {ℓ} : {A : Type ℓ} (a : Option A) → or_else a none ≡ a
or_else-none none = refl
or_else-none (some a) = refl

module _ {A : Type 0} (ident : A → Text) where
  -- the first entry with the id
  unfoldable pub find : Text → List A → Option A
  find k [] = none
  find k (x ∷ xs) = if text_eq (ident x) k then some x else find k xs

  -- the last entry with the id
  unfoldable pub find_last : Text → List A → Option A
  find_last k [] = none
  find_last k (x ∷ xs) = or_else (find_last k xs) (if text_eq (ident x) k then some x else none)

  abbrev pub HasDistinctIds : List A → Type 0
  HasDistinctIds xs = Distinct (map ident xs)

  pub find-eq-none : (k : Text) (xs : List A) → member k (map ident xs) ≡ false → find k xs ≡ none
  unfolding find member
  find-eq-none k [] h = refl
  find-eq-none k (x ∷ xs) h = ground (arith, find-eq-none k xs)

  -- Where ids are distinct, the first entry with an id is the last.
  pub find_last-eq-find : (k : Text) (xs : List A) → HasDistinctIds xs → find_last k xs ≡ find k xs
  unfolding find find_last
  find_last-eq-find k [] h = refl
  find_last-eq-find k (x ∷ xs) h =
      ground
        (arith, find_last-eq-find k xs h.1, find-eq-none (ident x) xs h.0, text_eq_iff (ident x) k)

  pub member-filter :
      (ids : List Text) (k : Text) (xs : List A)
      → member k (map ident xs) ≡ false
      → member k (map ident (filter (λ x. not (member (ident x) ids)) xs)) ≡ false
  unfolding member
  member-filter ids k [] h = refl
  member-filter ids k (x ∷ xs) h = ground (arith, member-filter ids k xs)

  pub filter-HasDistinctIds :
      (ids : List Text) (xs : List A)
      → HasDistinctIds xs
      → HasDistinctIds (filter (λ x. not (member (ident x) ids)) xs)
  filter-HasDistinctIds ids [] h = tt
  filter-HasDistinctIds ids (x ∷ xs) h =
      ground (arith, filter-HasDistinctIds ids xs h.1, member-filter ids (ident x) xs h.0)

  -- Filtering by id removes the entries with the ids, and no other.
  pub find-filter :
      (ids : List Text) (k : Text) (xs : List A)
      → find k (filter (λ x. not (member (ident x) ids)) xs)
        ≡ (if member k ids then none else find k xs)
  unfolding find
  find-filter ids k [] = ground arith
  find-filter ids k (x ∷ xs) = ground (arith, find-filter ids k xs, text_eq_iff (ident x) k)
