-- ===== src/Ledger/Selector/Ranking.antt =====
-- The transactions that are selected are in the order of the priority queue.
use mathlib.Core.List.{Perm}
use mathlib.Core.List.Perm
use sidetree_js.Prelude.{◌≡◌, false, List, [], ◌∷◌, All}
use sidetree_js.Ledger.{Transaction}
use sidetree_js.Ledger.Selector.{comes_before}

-- nothing of a list comes before a transaction
abbrev IsFirst : List Transaction → Transaction → Type 0
IsFirst us t = All (λ u. comes_before u t ≡ false) us

-- No transaction comes before an earlier one.
abbrev pub IsRanked : List Transaction → Type 0
IsRanked [] = Unit
IsRanked (t ∷ ts) = IsFirst ts t × IsRanked ts

-- every transaction taken comes first before what waits
abbrev Ahead : List Transaction → List Transaction → Type 0
Ahead taken waiting = All (IsFirst waiting) taken
