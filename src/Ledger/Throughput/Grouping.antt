-- ===== src/Ledger/Throughput/Grouping.antt =====
-- The groups of the throughput limiter: each is of one time, and together they are the transactions.
use mathlib.Core.Path.{subst}
use sidetree_js.Prelude.{
  ℕ, ◌≡◌, ◌≢◌, refl, sym, ap, ◌∙◌, inl, inr, true, false, Option, none, some, List, [], ◌∷◌, ◌++◌,
  append-nil, append_assoc, arith, ◌==◌, Bool-cases, All, All-append,
}
use sidetree_js.Errors.{Result, ok}
use sidetree_js.Ledger.{Transaction}
use sidetree_js.Ledger.Throughput.{
  push_last, is_new_time, group_from, group_by_time, Selectors, select_groups,
  get_qualified_transactions,
}

abbrev pub concat : List (List Transaction) → List Transaction
concat [] = []
concat (g ∷ gs) = g ++ concat gs

-- transactions of one time, and at least one
abbrev pub IsGroup : List Transaction → Type 0
IsGroup [] = ⊥
IsGroup (t ∷ ts) = All (λ (u : Transaction). u.transaction_time ≡ t.transaction_time) ts

-- The time of a group.
abbrev pub time_of : List Transaction → Option ℕ
time_of [] = none
time_of (t ∷ ts) = some t.transaction_time

-- Each group is of another time than the next.
abbrev pub AreApart : List (List Transaction) → Type 0
AreApart [] = Unit
AreApart (g ∷ []) = Unit
AreApart (g ∷ h ∷ gs) = (time_of g ≢ time_of h) × AreApart (h ∷ gs)

AreApart-same :
    (gs : List (List Transaction)) (g h : List Transaction)
    → time_of g ≡ time_of h
    → AreApart (gs ++ g ∷ [])
    → AreApart (gs ++ h ∷ [])
AreApart-same [] g h e a = tt
AreApart-same (k ∷ []) g h e a = (λ same. a.0 (same ∙ sym e), tt)
AreApart-same (k ∷ l ∷ gs) g h e a = (a.0, AreApart-same (l ∷ gs) g h e a.1)

AreApart-next :
    (gs : List (List Transaction)) (g h : List Transaction)
    → time_of g ≢ time_of h
    → AreApart (gs ++ g ∷ [])
    → AreApart ((gs ++ g ∷ []) ++ h ∷ [])
AreApart-next [] g h e a = (e, tt)
AreApart-next (k ∷ []) g h e a = (a.0, (e, tt))
AreApart-next (k ∷ l ∷ gs) g h e a = (a.0, AreApart-next (l ∷ gs) g h e a.1)

-- the last group, with the time of the loop
abbrev IsOpen : ℕ → List Transaction → Type 0
IsOpen time g = IsGroup g × All (λ (u : Transaction). u.transaction_time ≡ time) g

push_last-append :
    (gs : List (List Transaction)) (g : List Transaction) (t : Transaction)
    → push_last (gs ++ g ∷ []) t ≡ gs ++ (g ++ t ∷ []) ∷ []
unfolding push_last
push_last-append [] g t = refl
push_last-append (h ∷ []) g t = refl
push_last-append (h ∷ i ∷ gs) g t = ap (λ k. h ∷ k) (push_last-append (i ∷ gs) g t)

concat-append : (gs hs : List (List Transaction)) → concat (gs ++ hs) ≡ concat gs ++ concat hs
concat-append [] hs = refl
concat-append (g ∷ gs) hs =
    ap (λ k. g ++ k) (concat-append gs hs) ∙ sym (append_assoc g (concat gs) (concat hs))

concat-last :
    (gs : List (List Transaction)) (g : List Transaction) (t : Transaction) (ts : List Transaction)
    → concat (gs ++ (g ++ t ∷ []) ∷ []) ++ ts ≡ concat (gs ++ g ∷ []) ++ (t ∷ ts)
concat-last gs g t ts =
    rw (concat-append, append-nil, append_assoc, append_assoc)
      (rw (concat-append, append-nil, append_assoc) refl)

concat-opened :
    (groups : List (List Transaction)) (t : Transaction) (ts : List Transaction)
    → concat (groups ++ (t ∷ []) ∷ []) ++ ts ≡ concat groups ++ (t ∷ ts)
concat-opened groups t ts = rw (concat-append, append_assoc) refl

grow-IsOpen :
    (time : ℕ) (g : List Transaction) (t : Transaction)
    → IsOpen time g
    → t.transaction_time ≡ time
    → IsOpen time (g ++ t ∷ [])
grow-IsOpen time [] t (o, a) e = absurd o
grow-IsOpen time (u ∷ g) t (o, (a, b)) e = (
  All-append (λ (v : Transaction). v.transaction_time ≡ u.transaction_time) g (t ∷ []) o
      (e ∙ sym a, tt),
  (a, All-append (λ (v : Transaction). v.transaction_time ≡ time) g (t ∷ []) b (e, tt)),
)

continued :
    (time : ℕ) (gs : List (List Transaction)) (g : List Transaction) (t : Transaction)
    (ts : List Transaction)
    → (t.transaction_time == time) ≡ true
    → group_from (some time) (gs ++ g ∷ []) (t ∷ ts)
      ≡ group_from (some time) (gs ++ (g ++ t ∷ []) ∷ []) ts
unfolding group_from is_new_time
continued time gs g t ts same =
    rw (group_from, is_new_time, same)
      (ap (λ k. group_from (some time) k ts) (push_last-append gs g t))

opened :
    (time : ℕ) (groups : List (List Transaction)) (t : Transaction) (ts : List Transaction)
    → (t.transaction_time == time) ≡ false
    → group_from (some time) groups (t ∷ ts)
      ≡ group_from (some t.transaction_time) (groups ++ (t ∷ []) ∷ []) ts
unfolding group_from is_new_time
opened time groups t ts new =
    rw (group_from, is_new_time, new)
      (ap (λ k. group_from (some t.transaction_time) k ts) (push_last-append groups [] t))

-- The transactions in their order, cut where the time changes.
abbrev pub AreGroups : List Transaction → List (List Transaction) → Type 0
AreGroups ts groups = (concat groups ≡ ts) × All IsGroup groups × AreApart groups

time_of-open : (time : ℕ) (g : List Transaction) → IsOpen time g → time_of g ≡ some time
time_of-open time [] (o, a) = absurd o
time_of-open time (u ∷ g) (o, (a, b)) = ap (λ n. some n) a

time_of-append :
    (time : ℕ) (g : List Transaction) (t : Transaction)
    → IsOpen time g
    → time_of g ≡ time_of (g ++ t ∷ [])
time_of-append time [] t (o, a) = absurd o
time_of-append time (u ∷ g) t o = refl

time_of-other :
    (time : ℕ) (g : List Transaction) (t : Transaction)
    → IsOpen time g
    → (t.transaction_time == time) ≡ false
    → time_of g ≢ time_of (t ∷ [])
time_of-other time g t o new e =
    let same : some time ≡ some t.transaction_time = sym (time_of-open time g o) ∙ e in
    let times : time ≡ t.transaction_time = cc same in ground arith

group_from-AreGroups :
    (time : ℕ) (gs : List (List Transaction)) (g : List Transaction) (ts : List Transaction)
    → All IsGroup gs
    → IsOpen time g
    → AreApart (gs ++ g ∷ [])
    → AreGroups (concat (gs ++ g ∷ []) ++ ts) (group_from (some time) (gs ++ g ∷ []) ts)
unfolding group_from
group_from-AreGroups time gs g [] a o d =
    (sym (append-nil _), All-append IsGroup gs (g ∷ []) a (o.0, tt), d)
group_from-AreGroups time gs g (t ∷ ts) a o d = elim (Bool-cases (t.transaction_time == time)) [
  | inl same ↦
      subst (AreGroups (concat (gs ++ g ∷ []) ++ t ∷ ts)) (sym (continued time gs g t ts same)) (
        rw (← concat-last gs g t ts) (
          group_from-AreGroups time gs (g ++ t ∷ []) ts a (grow-IsOpen time g t o (ground arith))
            (AreApart-same gs g (g ++ t ∷ []) (time_of-append time g t o) d)))
  | inr new ↦
      subst (AreGroups (concat (gs ++ g ∷ []) ++ t ∷ ts))
        (sym (opened time (gs ++ g ∷ []) t ts new))
        (rw (← concat-opened (gs ++ g ∷ []) t ts) (
          group_from-AreGroups t.transaction_time (gs ++ g ∷ []) (t ∷ []) ts
            (All-append IsGroup gs (g ∷ []) a (o.0, tt)) (tt, (refl, tt))
            (AreApart-next gs g (t ∷ []) (time_of-other time g t o new) d)))
]

-- The groups are the transactions in their order, cut exactly where the time changes: no group is
-- empty, the transactions of a group have one time, and those of the next group have another.
pub group_by_time-AreGroups : (ts : List Transaction) → AreGroups ts (group_by_time ts)
unfolding group_by_time group_from push_last is_new_time
group_by_time-AreGroups [] = (refl, tt, tt)
group_by_time-AreGroups (t ∷ ts) =
    group_from-AreGroups t.transaction_time [] (t ∷ []) ts tt (tt, (refl, tt)) tt

-- What the selector of a group's time chooses of that group, group by group.
abbrev pub AreChosen : Selectors → List (List Transaction) → List (List Transaction) → Type 0
AreChosen get_transaction_selector [] [] = Unit
AreChosen get_transaction_selector [] (c ∷ cs) = ⊥
AreChosen get_transaction_selector (g ∷ gs) [] = ⊥
AreChosen get_transaction_selector ([] ∷ gs) (c ∷ cs) = ⊥
AreChosen get_transaction_selector ((t ∷ ts) ∷ gs) (c ∷ cs) =
    ((select : List Transaction → Result (List Transaction)) × (get_transaction_selector
          t.transaction_time
        ≡ ok select)
      × (select (t ∷ ts) ≡ ok c))
    × AreChosen get_transaction_selector gs cs

-- Every time has a selector, which returns from transactions of that time.
abbrev pub Selects : Selectors → Type 0
Selects get_transaction_selector =
    (t : Transaction) (ts : List Transaction)
    → IsGroup (t ∷ ts)
    → (select : List Transaction → Result (List Transaction)) × (chosen : List Transaction)
      × (get_transaction_selector t.transaction_time ≡ ok select)
      × (select (t ∷ ts) ≡ ok chosen)

select_groups-AreChosen :
    (get_transaction_selector : Selectors) (groups : List (List Transaction))
    → Selects get_transaction_selector
    → All IsGroup groups
    → (choices : List (List Transaction)) × AreChosen get_transaction_selector groups choices
      × (select_groups get_transaction_selector groups ≡ ok (concat choices))
unfolding select_groups
select_groups-AreChosen s [] h a = ([], tt, refl)
select_groups-AreChosen s ([] ∷ groups) h (a, b) = absurd a
select_groups-AreChosen s ((t ∷ ts) ∷ groups) h (a, b) =
    let (select, chosen, got, selected) = h t ts a in
    let (choices, are_chosen, run) = select_groups-AreChosen s groups h b in
    (chosen ∷ choices, ((select, got, selected), are_chosen), rw (got, selected, run) refl)

-- If every time has a selector, which returns from transactions of that time, the limiter returns:
-- the transactions in their order are cut exactly where the time changes, and what the selector of
-- each group's time chooses of that group is returned, in the order of the groups.
pub get_qualified_transactions-AreChosen :
    (get_transaction_selector : Selectors) (ts : List Transaction)
    → Selects get_transaction_selector
    → (groups : List (List Transaction)) × (choices : List (List Transaction)) × AreGroups ts groups
      × AreChosen get_transaction_selector groups choices
      × (get_qualified_transactions get_transaction_selector ts ≡ ok (concat choices))
unfolding get_qualified_transactions
get_qualified_transactions-AreChosen s ts h =
    let cut = group_by_time-AreGroups ts in
    let (choices, are_chosen, run) = select_groups-AreChosen s (group_by_time ts) h cut.1 in
    (group_by_time ts, choices, cut, are_chosen, run)
