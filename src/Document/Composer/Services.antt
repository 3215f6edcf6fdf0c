-- ===== src/Document/Composer/Services.antt =====
-- `addServices` and `removeServices` on the view of a document by service id.
use sidetree_js.Prelude.{◌≡◌, inl, inr, Option, none, List, arith, if◌then◌else◌, Option-cases}
use sidetree_js.Prelude.Text.{Text, member}
use sidetree_js.Document.{Service, Document}
use sidetree_js.Document.Find.{or_else, find, HasDistinctIds, find-filter, filter-HasDistinctIds}
use sidetree_js.Document.Composer.{or_empty, merge_services, drop_services}
use sidetree_js.Document.Composer.Upsert.{
  service_id, find-upsert_all, upsert_all-HasDistinctIds, add_services-eq-upsert_all,
}

-- The service of a document with a given id.
abbrev pub find_service : Text → Document → Option Service
find_service k d = find service_id k (or_empty d.services)

abbrev pub HasDistinctServices : Document → Type 0
HasDistinctServices d = HasDistinctIds service_id (or_empty d.services)

module _ (d : Document) (ss : List Service) (ds : HasDistinctIds service_id ss)
    (dd : HasDistinctServices d) where
  pub find_service-merge_services :
      (j : Text)
      → find_service j (merge_services d ss) ≡ or_else (find service_id j ss) (find_service j d)
  unfolding merge_services
  find_service-merge_services j =
      rw (add_services-eq-upsert_all ss (or_empty d.services) ds dd)
        (find-upsert_all j ss (or_empty d.services) ds)

  pub merge_services-HasDistinctServices : HasDistinctServices (merge_services d ss)
  unfolding merge_services
  merge_services-HasDistinctServices =
      rw (add_services-eq-upsert_all ss (or_empty d.services) ds dd)
        (upsert_all-HasDistinctIds ss (or_empty d.services) dd)

pub find_service-drop_services :
    (d : Document) (ids : List Text) (j : Text)
    → find_service j (drop_services d ids) ≡ (if member j ids then none else find_service j d)
unfolding drop_services find
find_service-drop_services d ids j = elim (Option-cases d.services) [
  | inl absent ↦ ground arith
  | inr (services, present) ↦ rw (present, drop_services) (find-filter service_id ids j services)
]

pub drop_services-HasDistinctServices :
    (d : Document) (ids : List Text)
    → HasDistinctServices d
    → HasDistinctServices (drop_services d ids)
unfolding drop_services
drop_services-HasDistinctServices d ids h = elim (Option-cases d.services) [
  | inl absent ↦ rw (absent, drop_services) (rw absent tt)
  | inr (services, present) ↦
      rw (present, drop_services) (filter-HasDistinctIds service_id ids services (rw present at h))
]
