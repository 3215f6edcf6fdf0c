-- ===== src/Prelude/JsMap.antt =====
-- JavaScript's `Map` with string keys: the entries in the order in which their keys were first set.
use mathlib.Core.Path.{◌≡◌, refl}
use mathlib.Core.Bool.{Bool, false, ◌||◌}
use mathlib.Core.List.{List, [], ◌∷◌}
use mathlib.Core.Option.{Option, none, some}
use native.Mathlib.Omega.{arith}
use sidetree_js.Prelude.Tests.{if◌then◌else◌}
use sidetree_js.Prelude.Text.{Text, text_eq, text_eq_iff, member, Distinct}

module _ {ℓ} {V : Type ℓ} where
  -- `map.get(k)`
  unfoldable pub get : Text → List (Text × V) → Option V
  get k [] = none
  get k ((j, v) ∷ m) = if text_eq j k then some v else get k m

  -- `map.has(k)`
  unfoldable pub has : Text → List (Text × V) → Bool
  has k [] = false
  has k ((j, v) ∷ m) = text_eq j k || has k m

  -- `map.set(k, v)`: a key that is there keeps its place
  unfoldable pub set : Text → V → List (Text × V) → List (Text × V)
  set k v [] = (k, v) ∷ []
  set k v ((j, w) ∷ m) = if text_eq j k then (j, v) ∷ m else (j, w) ∷ set k v m

  -- `Array.from(map.values())`
  unfoldable pub values : List (Text × V) → List V
  values [] = []
  values ((k, v) ∷ m) = v ∷ values m

  pub get-set :
      (k j : Text) (v : V) (m : List (Text × V))
      → get j (set k v m) ≡ (if text_eq k j then some v else get j m)
  unfolding get set
  get-set k j v [] = refl
  get-set k j v ((i, w) ∷ m) =
      ground (arith, text_eq_iff i k, text_eq_iff i j, text_eq_iff k j, get-set k j v m)

  pub get-eq-none : (k : Text) (m : List (Text × V)) → has k m ≡ false → get k m ≡ none
  unfolding get has
  get-eq-none k [] h = refl
  get-eq-none k ((j, v) ∷ m) h = ground (arith, get-eq-none k m)

  abbrev pub keys : List (Text × V) → List Text
  keys [] = []
  keys ((k, v) ∷ m) = k ∷ keys m

  -- No key has two entries.
  abbrev pub IsMap : List (Text × V) → Type 0
  IsMap m = Distinct (keys m)

  pub member-keys-set :
      (k j : Text) (v : V) (m : List (Text × V))
      → member j (keys (set k v m)) ≡ (text_eq k j || member j (keys m))
  unfolding set member
  member-keys-set k j v [] = refl
  member-keys-set k j v ((i, w) ∷ m) =
      ground (arith, text_eq_iff i k, text_eq_iff i j, text_eq_iff k j, member-keys-set k j v m)

  pub set-IsMap : (k : Text) (v : V) (m : List (Text × V)) → IsMap m → IsMap (set k v m)
  unfolding set member
  set-IsMap k v [] h = (refl, tt)
  set-IsMap k v ((i, w) ∷ m) h =
      ground (arith, text_eq_iff i k, text_eq_iff k i, set-IsMap k v m h.1, member-keys-set k i v m)

module _ {ℓ κ} {V : Type ℓ} (P : Text → V → Type κ) where
  -- Every entry satisfies a predicate.
  abbrev pub Entries : List (Text × V) → Type κ
  Entries [] = Unit
  Entries ((k, v) ∷ m) = P k v × Entries m
