-- ===== src/Versions/Order.antt =====
-- The order of the versions, latest first.
use mathlib.Core.List.{Memᴰ}
use mathlib.Core.Path.{subst}
use sidetree_js.Prelude.{
  ℕ, ◌≤◌, ◌≡◌, refl, ◌⊎◌, inl, inr, List, [], ◌∷◌, arith, leb, Bool-cases, All,
}
use sidetree_js.Versions.{Version, insert_version, reverse_sort}

-- No version of a list starts after a time.
abbrev pub NoLater : ℕ → List Version → Type 0
NoLater time vs = All (λ (w : Version). w.starting_blockchain_time ≤ time) vs

abbrev pub IsDescending : List Version → Type 0
IsDescending [] = Unit
IsDescending (v ∷ vs) = NoLater v.starting_blockchain_time vs × IsDescending vs

NoLater-trans : (a b : ℕ) (vs : List Version) → a ≤ b → NoLater a vs → NoLater b vs
NoLater-trans a b [] h n = tt
NoLater-trans a b (v ∷ vs) h n = (omega (arith, n.0), NoLater-trans a b vs h n.1)

NoLater-insert :
    (time : ℕ) (v : Version) (vs : List Version)
    → v.starting_blockchain_time ≤ time
    → NoLater time vs
    → NoLater time (insert_version v vs)
unfolding insert_version
NoLater-insert time v [] h n = (h, tt)
NoLater-insert time v (w ∷ ws) h n =
    elim (Bool-cases (leb w.starting_blockchain_time v.starting_blockchain_time)) [
      | inl here ↦ rw (insert_version, here) (h, n)
      | inr later ↦ rw (insert_version, later) (n.0, NoLater-insert time v ws h n.1)
    ]

insert-IsDescending :
    (v : Version) (vs : List Version) → IsDescending vs → IsDescending (insert_version v vs)
unfolding insert_version
insert-IsDescending v [] d = (tt, tt)
insert-IsDescending v (w ∷ ws) (n, d) =
    elim (Bool-cases (leb w.starting_blockchain_time v.starting_blockchain_time)) [
      | inl here ↦
          rw (insert_version, here)
            (
              (
                ground arith,
                NoLater-trans w.starting_blockchain_time v.starting_blockchain_time ws
                    (ground arith) n,
              ),
              (n, d),
            )
      | inr later ↦
          rw (insert_version, later)
            (
              NoLater-insert w.starting_blockchain_time v ws (ground arith) n,
              insert-IsDescending v ws d,
            )
    ]

mem_cons : (x v : Version) (vs : List Version) → Memᴰ x (v ∷ vs) → (x ≡ v) ⊎ Memᴰ x vs
mem_cons x v vs (Memᴰ.head e) = inl e
mem_cons x v vs (Memᴰ.tail m) = inr m

pub reverse_sort-IsDescending : (vs : List Version) → IsDescending (reverse_sort vs)
unfolding reverse_sort
reverse_sort-IsDescending [] = tt
reverse_sort-IsDescending (v ∷ vs) =
    insert-IsDescending v (reverse_sort vs) (reverse_sort-IsDescending vs)

insert_cases :
    (v w : Version) (ws : List Version)
    → (insert_version v (w ∷ ws) ≡ v ∷ w ∷ ws)
      ⊎ (insert_version v (w ∷ ws) ≡ w ∷ insert_version v ws)
unfolding insert_version
insert_cases v w ws =
    elim (Bool-cases (leb w.starting_blockchain_time v.starting_blockchain_time)) [
      | inl here ↦ inl (rw (insert_version, here) refl)
      | inr later ↦ inr (rw (insert_version, later) refl)
    ]

All-insert :
    (P : Version → Type 0) (v : Version) (vs : List Version)
    → All P (insert_version v vs)
    → P v × All P vs
unfolding insert_version
All-insert P v [] a = a
All-insert P v (w ∷ ws) a = elim (insert_cases v w ws) [
  | inl e ↦ subst (All P) e a
  | inr e ↦ (let (p, b) = subst (All P) e a in let (q, c) = All-insert P v ws b in (q, (p, c)))
]

pub All-sort : (P : Version → Type 0) (vs : List Version) → All P (reverse_sort vs) → All P vs
unfolding reverse_sort
All-sort P [] a = tt
All-sort P (v ∷ vs) a = let (p, b) = All-insert P v (reverse_sort vs) a in (p, All-sort P vs b)

Mem-insert :
    (x v : Version) (vs : List Version) → Memᴰ x (insert_version v vs) → (x ≡ v) ⊎ Memᴰ x vs
unfolding insert_version
Mem-insert x v [] (Memᴰ.head e) = inl e
Mem-insert x v [] (Memᴰ.tail m) = inr m
Mem-insert x v (w ∷ ws) m = elim (insert_cases v w ws) [
  | inl e ↦ mem_cons x v (w ∷ ws) (subst (λ k. Memᴰ x k) e m)
  | inr e ↦ elim (mem_cons x w (insert_version v ws) (subst (λ k. Memᴰ x k) e m)) [
    | inl same ↦ inr (Memᴰ.head same)
    | inr later ↦ elim (Mem-insert x v ws later) [
      | inl same ↦ inl same
      | inr old ↦ inr (Memᴰ.tail old)
    ]
  ]
]

pub Mem-sort : (x : Version) (vs : List Version) → Memᴰ x (reverse_sort vs) → Memᴰ x vs
unfolding reverse_sort
Mem-sort x [] m = m
Mem-sort x (v ∷ vs) m = elim (Mem-insert x v (reverse_sort vs) m) [
  | inl same ↦ Memᴰ.head same
  | inr old ↦ Memᴰ.tail (Mem-sort x vs old)
]
