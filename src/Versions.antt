-- ===== src/Versions.antt =====
-- packages/core/src/VersionManager.ts: which implementation serves a blockchain time.
mod Order
pub mod Choice
use sidetree_js.Prelude.{
  ℕ, zero, suc, ◌+◌, ◌-◌, ◌*◌, ◌/◌, ◌%◌, ◌≤◌, ◌<◌, max, ◌≡◌, refl, sym, ap, ◌∙◌, ◌≢◌, ◌↔◌, ◌⊎◌, inl,
  inr, Bool, true, false, not, ◌&&◌, ◌||◌, Option, none, some, List, [], ◌∷◌, ◌++◌, map, append-nil,
  append_assoc, arith, ltb, leb, ◌==◌, if◌then◌else◌, ltb→lt, leb→le, ==_iff, Bool-cases,
  Option-cases, length, get_elem?, take, drop, filter, length-append, All, All-append, All-filter,
  All-of_mem,
}
use sidetree_js.Prelude.Text.{
  Text, codes, text_eq, text_eq_sound, text_eq_refl, text_eq_iff, member, Distinct,
}
use sidetree_js.Prelude.JsMap.{get, set}
use sidetree_js.Errors.{
  ErrorCode, Failure, sidetree, unexpected, Result, ok, err, ◌>>=◌, ◌>>◌, throw_if, >>=-eq-ok,
  Result-cases,
}
use sidetree_js.Errors.{version_manager_version_string_not_found}

-- packages/common/src/models/VersionModel.ts
pub record Version : Type 0 where
  pub starting_blockchain_time : ℕ
  pub version : Text

-- `sort((a, b) => b.startingBlockchainTime - a.startingBlockchainTime)`, which is stable
unfoldable pub insert_version : Version → List Version → List Version
insert_version v [] = v ∷ []
insert_version v (w ∷ ws) =
    if leb w.starting_blockchain_time v.starting_blockchain_time
    then v ∷ w ∷ ws
    else w ∷ insert_version v ws

unfoldable pub reverse_sort : List Version → List Version
reverse_sort [] = []
reverse_sort (v ∷ vs) = insert_version v (reverse_sort vs)

-- `getVersionString`
unfoldable pub get_version_string : List Version → ℕ → Result Text
get_version_string [] blockchain_time = err (sidetree version_manager_version_string_not_found)
get_version_string (v ∷ vs) blockchain_time =
    if leb v.starting_blockchain_time blockchain_time
    then ok v.version
    else get_version_string vs blockchain_time

module _ {A : Type 0} where
  -- The loop of `initialize` on one of its maps; to load and to construct an implementation may
  -- throw.
  unfoldable pub initialize_from :
      (Text → Result A) → List Version → List (Text × A) → Result (List (Text × A))
  initialize_from load [] implementations = ok implementations
  initialize_from load (v ∷ vs) implementations = do
    implementation ← load v.version
    initialize_from load vs (set v.version implementation implementations)

  unfoldable pub initialize : (Text → Result A) → List Version → Result (List (Text × A))
  initialize load versions_reverse_sorted = initialize_from load versions_reverse_sorted []

  -- `getOperationProcessor` and the other five: the map's `get` may give `undefined`
  unfoldable pub get_implementation : List Version → List (Text × A) → ℕ → Result (Option A)
  get_implementation versions_reverse_sorted implementations blockchain_time = do
    version ← get_version_string versions_reverse_sorted blockchain_time
    ok (get version implementations)
