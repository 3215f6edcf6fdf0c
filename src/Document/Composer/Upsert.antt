-- ===== src/Document/Composer/Upsert.antt =====
-- `addServices` as an update of the list by id, which needs no map of indices: what the loop with
-- `idToIndexMapper` computes where no id is repeated.
use sidetree_js.Prelude.{
  ℕ, zero, suc, ◌+◌, ◌≡◌, refl, inl, inr, false, ◌||◌, Option, none, some, List, [], ◌∷◌, ◌++◌, map,
  arith, if◌then◌else◌, Option-cases, All,
}
use sidetree_js.Prelude.Text.{Text, text_eq, text_eq_iff, member}
use sidetree_js.Prelude.JsMap
use sidetree_js.Prelude.JsMap.{get-set}
use sidetree_js.Document.{Service}
use sidetree_js.Document.Find.{or_else, find, find-eq-none, HasDistinctIds}
use sidetree_js.Document.Composer.{set_service, index_services, put_service, put_services}

abbrev pub service_id : Service → Text
service_id s = s.id

-- the service takes the place of the one with its id, or the last place
unfoldable pub upsert : Service → List Service → List Service
upsert s [] = s ∷ []
upsert s (t ∷ ts) = if text_eq t.id s.id then s ∷ ts else t ∷ upsert s ts

unfoldable pub upsert_all : List Service → List Service → List Service
upsert_all [] ts = ts
upsert_all (s ∷ ss) ts = upsert_all ss (upsert s ts)

position : Text → List Service → Option ℕ
position k [] = none
position k (t ∷ ts) =
    let later = position k ts in
    if text_eq t.id k then some 0 else elim later [ none ↦ none | some i ↦ some (suc i) ]

pub find-upsert :
    (k : Text) (s : Service) (ts : List Service)
    → find service_id k (upsert s ts) ≡ (if text_eq s.id k then some s else find service_id k ts)
unfolding find upsert
find-upsert k s [] = refl
find-upsert k s (t ∷ ts) =
    ground
      (arith, find-upsert k s ts, text_eq_iff t.id s.id, text_eq_iff t.id k, text_eq_iff s.id k)

pub member-upsert :
    (k : Text) (s : Service) (ts : List Service)
    → member k (map service_id (upsert s ts)) ≡ (text_eq s.id k || member k (map service_id ts))
unfolding member upsert
member-upsert k s [] = refl
member-upsert k s (t ∷ ts) =
    ground
      (arith, member-upsert k s ts, text_eq_iff t.id s.id, text_eq_iff t.id k, text_eq_iff s.id k)

pub upsert-HasDistinctIds :
    (s : Service) (ts : List Service)
    → HasDistinctIds service_id ts
    → HasDistinctIds service_id (upsert s ts)
unfolding upsert member
upsert-HasDistinctIds s [] h = (refl, tt)
upsert-HasDistinctIds s (t ∷ ts) h = ground (
  arith,
  upsert-HasDistinctIds s ts h.1,
  member-upsert t.id s ts,
  text_eq_iff t.id s.id,
  text_eq_iff s.id t.id,
)

pub upsert_all-HasDistinctIds :
    (ss ts : List Service)
    → HasDistinctIds service_id ts
    → HasDistinctIds service_id (upsert_all ss ts)
unfolding upsert_all
upsert_all-HasDistinctIds [] ts h = h
upsert_all-HasDistinctIds (s ∷ ss) ts h =
    upsert_all-HasDistinctIds ss (upsert s ts) (upsert-HasDistinctIds s ts h)

position-eq-none :
    (k : Text) (ts : List Service) → member k (map service_id ts) ≡ false → position k ts ≡ none
unfolding position member
position-eq-none k [] h = refl
position-eq-none k (t ∷ ts) h = ground (arith, position-eq-none k ts)

-- the index map holds the position of each id
get-index_services :
    (k : Text) (ts : List Service) (i : ℕ) (m : List (Text × ℕ))
    → HasDistinctIds service_id ts
    → JsMap.get k (index_services ts i m)
      ≡ elim (position k ts) [ none ↦ JsMap.get k m | some p ↦ some (p + i) ]
unfolding index_services position
get-index_services k [] i m h = refl
get-index_services k (t ∷ ts) i m h = ground (
  arith,
  get-index_services k ts (suc i) (JsMap.set t.id i m) h.1,
  get-set t.id k i m,
  text_eq_iff t.id k,
  position-eq-none t.id ts h.0,
)

set_service-eq-upsert :
    (s : Service) (ts : List Service) (i : ℕ)
    → position s.id ts ≡ some i
    → set_service ts i s ≡ upsert s ts
unfolding set_service upsert position
set_service-eq-upsert s [] i h = cc
set_service-eq-upsert s (t ∷ ts) zero h = ground arith
set_service-eq-upsert s (t ∷ ts) (suc i) h = ground (arith, set_service-eq-upsert s ts i)

append-eq-upsert :
    (s : Service) (ts : List Service) → position s.id ts ≡ none → ts ++ s ∷ [] ≡ upsert s ts
unfolding upsert position
append-eq-upsert s [] h = refl
append-eq-upsert s (t ∷ ts) h = ground (arith, append-eq-upsert s ts)

put_service-eq-upsert :
    (m : List (Text × ℕ)) (s : Service) (ts : List Service)
    → JsMap.get s.id m ≡ position s.id ts
    → put_service m ts s ≡ upsert s ts
unfolding put_service
put_service-eq-upsert m s ts h = elim (Option-cases (position s.id ts)) [
  | inl new ↦ ground (arith, append-eq-upsert s ts new)
  | inr (i, old) ↦ ground (arith, set_service-eq-upsert s ts i old)
]

position-upsert :
    (k : Text) (s : Service) (ts : List Service)
    → text_eq s.id k ≡ false
    → position k (upsert s ts) ≡ position k ts
unfolding upsert position
position-upsert k s [] h = ground arith
position-upsert k s (t ∷ ts) h =
    ground
      (arith, position-upsert k s ts, text_eq_iff t.id s.id, text_eq_iff t.id k, text_eq_iff s.id k)

-- the index map has the position of every id of a list
abbrev Located : List (Text × ℕ) → List Service → List Service → Type 0
Located m ts ss = All (λ s. JsMap.get s.id m ≡ position s.id ts) ss

Located-upsert :
    (m : List (Text × ℕ)) (s : Service) (ts ss : List Service)
    → member s.id (map service_id ss) ≡ false
    → Located m ts ss
    → Located m (upsert s ts) ss
unfolding member
Located-upsert m s ts [] new h = tt
Located-upsert m s ts (r ∷ ss) new h = (
  ground (arith, position-upsert r.id s ts, text_eq_iff r.id s.id, text_eq_iff s.id r.id),
  Located-upsert m s ts ss (ground arith) h.1,
)

-- The loop of `addServices` updates by id, if the ids of the patch are distinct.
put_services-eq-upsert_all :
    (m : List (Text × ℕ)) (ss ts : List Service)
    → HasDistinctIds service_id ss
    → Located m ts ss
    → put_services m ts ss ≡ upsert_all ss ts
unfolding put_services upsert_all
put_services-eq-upsert_all m [] ts d h = refl
put_services-eq-upsert_all m (s ∷ ss) ts d h =
    rw (put_service-eq-upsert m s ts h.0)
      (put_services-eq-upsert_all m ss (upsert s ts) d.1 (Located-upsert m s ts ss d.0 h.1))

Located-index_services :
    (ts ss : List Service) → HasDistinctIds service_id ts → Located (index_services ts 0 []) ts ss
unfolding JsMap.get
Located-index_services ts [] d = tt
Located-index_services ts (s ∷ ss) d =
    (ground (arith, get-index_services s.id ts 0 [] d), Located-index_services ts ss d)

pub find-upsert_all :
    (k : Text) (ss ts : List Service)
    → HasDistinctIds service_id ss
    → find service_id k (upsert_all ss ts) ≡ or_else (find service_id k ss) (find service_id k ts)
unfolding upsert_all find
find-upsert_all k [] ts d = refl
find-upsert_all k (s ∷ ss) ts d = ground (
  arith,
  find-upsert_all k ss (upsert s ts) d.1,
  find-upsert k s ts,
  text_eq_iff s.id k,
  find-eq-none service_id s.id ss d.0,
)

-- If neither the document nor the patch repeats an id, the loop of `addServices` over its map from id
-- to index replaces each service that the document has by id, and appends the others.
pub add_services-eq-upsert_all :
    (ss ts : List Service)
    → HasDistinctIds service_id ss
    → HasDistinctIds service_id ts
    → put_services (index_services ts 0 []) ts ss ≡ upsert_all ss ts
add_services-eq-upsert_all ss ts ds dt =
    put_services-eq-upsert_all (index_services ts 0 []) ss ts ds (Located-index_services ts ss dt)
