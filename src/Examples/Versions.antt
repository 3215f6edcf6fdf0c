-- ===== src/Examples/Versions.antt =====
-- The theorem on the choice of versions, with two versions.
use sidetree_js.Prelude.{ℕ, ◌≡◌, refl, ◌⊎◌, some, List, [], ◌∷◌, length}
use sidetree_js.Prelude.Text.{Text, codes}
use sidetree_js.Errors.{sidetree, Result, ok, err}
use sidetree_js.Errors.{version_manager_version_string_not_found}
use sidetree_js.Versions.{Version, reverse_sort, initialize, get_implementation}
use sidetree_js.Versions.Choice.{NoneStarted, IsLatest, get_implementation-IsLatest}

abbrev first : Version
first = record { starting_blockchain_time = 5; version = codes "1" }

abbrev second : Version
second = record { starting_blockchain_time = 9; version = codes "2" }

-- an implementation is the length of its name
abbrev load : Text → Result ℕ
load name = ok (length name)

abbrev loaded : List (Text × ℕ)
loaded = (codes "2", 1) ∷ (codes "1", 1) ∷ []

initialize_run : initialize load (reverse_sort (first ∷ second ∷ [])) ≡ ok loaded
unfolding initialize sidetree_js.Versions.initialize_from reverse_sort
    sidetree_js.Versions.insert_version sidetree_js.Prelude.JsMap.set
    sidetree_js.Prelude.Text.text_eq
initialize_run = refl

get_implementation-IsLatest_example :
    ((get_implementation (reverse_sort (first ∷ second ∷ [])) loaded 7
        ≡ err (sidetree version_manager_version_string_not_found))
      × NoneStarted (first ∷ second ∷ []) 7)
    ⊎ ((v : Version) × (a : ℕ) × (get_implementation (reverse_sort (first ∷ second ∷ [])) loaded 7
          ≡ ok (some a))
        × (load v.version ≡ ok a)
        × IsLatest (first ∷ second ∷ []) 7 v)
get_implementation-IsLatest_example =
    get_implementation-IsLatest load (first ∷ second ∷ []) loaded 7 initialize_run
