-- ===== src/Examples/ToyQueue.antt =====
-- A concrete priority queue for the examples: a list, from which `pop` takes the best.
use mathlib.Core.List.{Perm}
use mathlib.Core.List.Perm
use mathlib.Core.Path.{subst}
use sidetree_js.Prelude.{
  suc, ◌≡◌, refl, sym, ap, ◌∙◌, inl, inr, true, false, Option, none, some, List, [], ◌∷◌, arith,
  if◌then◌else◌, Bool-cases, length, All,
}
use sidetree_js.Ledger.{Transaction}
use sidetree_js.Ledger.Selector.{comes_before}
use sidetree_js.Ledger.Selector.Queue.{PriorityQueue, IsPriorityQueue}

-- the best of a transaction and a list, and what is left
abbrev extract : Transaction → List Transaction → Transaction × List Transaction
extract t [] = (t, [])
extract t (u ∷ us) =
    let best = extract u us in
    if comes_before t best.0 then (t, best.0 ∷ best.1) else (best.0, t ∷ best.1)

abbrev pop_best : List Transaction → Option (Transaction × List Transaction)
pop_best [] = none
pop_best (t ∷ ts) = some (extract t ts)

abbrev pub toy_queue : PriorityQueue
toy_queue = record {
  Queue = List Transaction;
  empty = [];
  push = λ t q. t ∷ q;
  pop = pop_best;
  size = length;
}

extract-perm :
    (t : Transaction) (ts : List Transaction) → Perm (t ∷ ts) ((extract t ts).0 ∷ (extract t ts).1)
extract-perm t [] = Perm.refl _
extract-perm t (u ∷ us) = elim (Bool-cases (comes_before t (extract u us).0)) [
  | inl first ↦ rw first (Perm.cons t (extract-perm u us))
  | inr later ↦ rw later (Perm.trans (Perm.cons t (extract-perm u us)) (Perm.swap _ _ _))
]

extract-length :
    (t : Transaction) (ts : List Transaction) → length (t ∷ ts) ≡ suc (length (extract t ts).1)
extract-length t [] = refl
extract-length t (u ∷ us) = elim (Bool-cases (comes_before t (extract u us).0)) [
  | inl first ↦ rw first (omega (arith, extract-length u us))
  | inr later ↦ rw later (omega (arith, extract-length u us))
]

not_before :
    (t m x : Transaction)
    → comes_before t m ≡ true
    → comes_before x m ≡ false
    → comes_before x t ≡ false
unfolding comes_before
not_before t m x h k = ground arith

not_back : (t m : Transaction) → comes_before t m ≡ true → comes_before m t ≡ false
unfolding comes_before
not_back t m h = ground arith

none_before :
    (t m : Transaction) (xs : List Transaction)
    → comes_before t m ≡ true
    → All (λ x. comes_before x m ≡ false) xs
    → All (λ x. comes_before x t ≡ false) xs
none_before t m [] h a = tt
none_before t m (x ∷ xs) h a = (not_before t m x h a.0, none_before t m xs h a.1)

extract-first :
    (t : Transaction) (ts : List Transaction)
    → All (λ u. comes_before u (extract t ts).0 ≡ false) (extract t ts).1
extract-first t [] = tt
extract-first t (u ∷ us) = elim (Bool-cases (comes_before t (extract u us).0)) [
  | inl first ↦ rw first (
    not_back t (extract u us).0 first,
    none_before t (extract u us).0 (extract u us).1 first (extract-first u us),
  )
  | inr later ↦ rw later (later, extract-first u us)
]

pop_best-contents :
    (t : Transaction) (q q' : List Transaction) → pop_best q ≡ some (t, q') → Perm q (t ∷ q')
pop_best-contents t [] q' h = absurd (cc h)
pop_best-contents t (u ∷ us) q' h =
    let e : extract u us ≡ (t, q') = cc h in rw (ap (λ p. p.0 ∷ p.1) (sym e)) (extract-perm u us)

pop_best-first :
    (t : Transaction) (q q' : List Transaction)
    → pop_best q ≡ some (t, q')
    → All (λ u. comes_before u t ≡ false) q'
pop_best-first t [] q' h = absurd (cc h)
pop_best-first t (u ∷ us) q' h =
    let e : extract u us ≡ (t, q') = cc h in
    subst (λ (p : Transaction × List Transaction). All (λ u. comes_before u p.0 ≡ false) p.1) e
      (extract-first u us)

pop_best-length :
    (t : Transaction) (q q' : List Transaction)
    → pop_best q ≡ some (t, q')
    → length q ≡ suc (length q')
pop_best-length t [] q' h = absurd (cc h)
pop_best-length t (u ∷ us) q' h =
    let e : extract u us ≡ (t, q') = cc h in
    extract-length u us ∙ ap (λ (p : Transaction × List Transaction). suc (length p.1)) e

pop_best-none : (q : List Transaction) → pop_best q ≡ none → length q ≡ 0
pop_best-none [] h = refl
pop_best-none (t ∷ ts) h = absurd (cc h)

pub toy_queue-IsPriorityQueue : IsPriorityQueue toy_queue comes_before
toy_queue-IsPriorityQueue = record {
  contents = λ q. q;
  contents-empty = refl;
  contents-push = λ t q. Perm.refl _;
  size-empty = refl;
  size-push = λ t q. omega arith;
  pop-none = pop_best-none;
  pop-size = pop_best-length;
  pop-contents = pop_best-contents;
  pop-first = pop_best-first;
}
