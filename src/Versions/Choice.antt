-- ===== src/Versions/Choice.antt =====
-- The implementation that serves a blockchain time is that of the latest version that has started.
use mathlib.Core.List.{Memᴰ}
use mathlib.Core.Path.{subst}
use sidetree_js.Prelude.{
  ℕ, ◌≤◌, ◌<◌, ◌≡◌, refl, ap, ◌∙◌, ◌⊎◌, inl, inr, some, List, [], ◌∷◌, arith, leb, Bool-cases, All,
  All-at_mem,
}
use sidetree_js.Prelude.Text.{Text, text_eq, text_eq_sound, text_eq_refl}
use sidetree_js.Prelude.JsMap.{get, set, get-set}
use sidetree_js.Errors.{sidetree, Result, ok, err, >>=-eq-ok}
use sidetree_js.Errors.{version_manager_version_string_not_found}
use sidetree_js.Versions.Order.{
  NoLater, IsDescending, reverse_sort-IsDescending, All-sort, Mem-sort,
}
use sidetree_js.Versions.{
  Version, reverse_sort, get_version_string, initialize_from, initialize, get_implementation,
}

-- The version that serves a time: of those that have started, the one that started last.
pub record IsLatest (vs : List Version) (time : ℕ) (v : Version) : Type 0 where
  pub listed : Memᴰ v vs
  pub started : v.starting_blockchain_time ≤ time
  pub last :
      All
        (λ (w : Version).
          w.starting_blockchain_time ≤ time
          → w.starting_blockchain_time ≤ v.starting_blockchain_time)
        vs

-- no version has started
abbrev pub NoneStarted : List Version → ℕ → Type 0
NoneStarted vs time = All (λ (w : Version). time < w.starting_blockchain_time) vs

imply_last :
    (bound time : ℕ) (vs : List Version)
    → NoLater bound vs
    → All
        (λ (w : Version). w.starting_blockchain_time ≤ time → w.starting_blockchain_time ≤ bound)
        vs
imply_last bound time [] n = tt
imply_last bound time (w ∷ ws) n = (λ h. n.0, imply_last bound time ws n.1)

chosen_of_sorted :
    (vs : List Version) (time : ℕ)
    → IsDescending vs
    → ((get_version_string vs time ≡ err (sidetree version_manager_version_string_not_found))
        × NoneStarted vs time)
      ⊎ ((v : Version) × (get_version_string vs time ≡ ok v.version) × IsLatest vs time v)
unfolding get_version_string
chosen_of_sorted [] time d = inl (refl, tt)
chosen_of_sorted (v ∷ vs) time (n, d) = elim (Bool-cases (leb v.starting_blockchain_time time)) [
  | inl started ↦ inr (
    v,
    rw (get_version_string, started) refl,
    record {
      listed = Memᴰ.head refl;
      started = ground arith;
      last = (λ h. omega arith, imply_last v.starting_blockchain_time time vs n);
    },
  )
  | inr later ↦ elim (chosen_of_sorted vs time d) [
    | inl (e, all_later) ↦ inl (rw (get_version_string, later) e, (ground arith, all_later))
    | inr (u, e, l) ↦ inr (
      u,
      rw (get_version_string, later) e,
      record {
        listed = Memᴰ.tail l.listed;
        started = l.started;
        last = (λ h. ground arith, l.last);
      },
    )
  ]
]

module _ {A : Type 0} (load : Text → Result A) where
  -- a map of loaded implementations
  abbrev Loaded : List (Text × A) → Type 0
  Loaded m = (k : Text) (a : A) → get k m ≡ some a → load k ≡ ok a

  Loaded-set :
      (k : Text) (a : A) (m : List (Text × A)) → load k ≡ ok a → Loaded m → Loaded (set k a m)
  Loaded-set k a m h l j b e = elim (Bool-cases (text_eq k j)) [
    | inl same ↦
        (let there : get j (set k a m) ≡ some a = get-set k j a m ∙ rw same refl in
          cc (h, text_eq_sound k j same, there, e))
    | inr other ↦ l j b (ground (arith, get-set k j a m))
  ]

  abbrev Has : List (Text × A) → Text → Type 0
  Has m k = (a : A) × (get k m ≡ some a)

  Has-set : (k j : Text) (a : A) (m : List (Text × A)) → Has m j → Has (set k a m) j
  Has-set k j a m (b, e) = elim (Bool-cases (text_eq k j)) [
    | inl same ↦ (a, get-set k j a m ∙ rw same refl)
    | inr other ↦ (b, get-set k j a m ∙ rw other e)
  ]

  initialize_from-Loaded :
      (vs : List Version) (m m' : List (Text × A))
      → Loaded m
      → initialize_from load vs m ≡ ok m'
      → Loaded m' × ((k : Text) → Has m k → Has m' k) × All (λ (v : Version). Has m' v.version) vs
  unfolding initialize_from
  initialize_from-Loaded [] m m' l h =
      let e : m ≡ m' = cc h in (subst Loaded e l, (λ k x. subst (λ z. Has z k) e x), tt)
  initialize_from-Loaded (v ∷ vs) m m' l h =
      let (a, got, rest) = >>=-eq-ok (load v.version) _ h in
      let (l', keeps, has_all) =
        initialize_from-Loaded vs (set v.version a m) m' (Loaded-set v.version a m got l) rest in
      (
        l',
        λ k old. keeps k (Has-set v.version k a m old),
        (
          keeps v.version (a, get-set v.version v.version a m ∙ rw (text_eq_refl v.version) refl),
          has_all,
        ),
      )

  -- What `getOperationProcessor` and its like return after the versions were initialised: no version
  -- has started, and the call throws, or it returns the implementation that was loaded for the latest
  -- version that has started, and never `undefined`.
  pub get_implementation-IsLatest :
      (versions : List Version) (implementations : List (Text × A)) (time : ℕ)
      → initialize load (reverse_sort versions) ≡ ok implementations
      → ((get_implementation (reverse_sort versions) implementations time
            ≡ err (sidetree version_manager_version_string_not_found))
          × NoneStarted versions time)
        ⊎ ((v : Version) × (a : A) × (get_implementation
                (reverse_sort versions)
                implementations
                time
              ≡ ok (some a))
            × (load v.version ≡ ok a)
            × IsLatest versions time v)
  unfolding initialize get_implementation get
  get_implementation-IsLatest versions implementations time h =
      let (loaded, keeps, present) =
        initialize_from-Loaded (reverse_sort versions) [] implementations (λ k a e. absurd (cc e))
          h in
      elim (chosen_of_sorted (reverse_sort versions) time (reverse_sort-IsDescending versions)) [
        | inl (e, later) ↦ inl (
          rw (get_implementation, e) refl,
          All-sort (λ (w : Version). time < w.starting_blockchain_time) versions later,
        )
        | inr (v, e, l) ↦
            (let (a, found) =
                All-at_mem (λ (w : Version). Has implementations w.version) v
                  (reverse_sort versions) l.listed present in
              inr (
                v,
                a,
                rw (get_implementation, e) (ap ok found),
                loaded v.version a found,
                record {
                  listed = Mem-sort v versions l.listed;
                  started = l.started;
                  last =
                      All-sort
                        (λ (w : Version).
                          w.starting_blockchain_time ≤ time
                          → w.starting_blockchain_time ≤ v.starting_blockchain_time)
                        versions l.last;
                },
              ))
      ]
