-- ===== src/Operation/Resolver/Tables.antt =====
-- The tables that `resolve` builds: the operations by type, sorted by transaction number, and by
-- the commitment that they reveal.
use sidetree_js.Prelude.{
  ◌≡◌, refl, sym, ap, ◌∙◌, inl, inr, Bool, true, false, none, some, List, [], ◌∷◌, ◌++◌, append-nil,
  append_assoc, arith, if◌then◌else◌, Option-cases, filter,
}
use sidetree_js.Prelude.Text.{Text, text_eq, text_eq_iff}
use sidetree_js.Prelude.JsMap
use sidetree_js.Prelude.JsMap.{get-set}
use sidetree_js.Errors.{ok, err, >>=-eq-ok}
use sidetree_js.Crypto.{CryptoLib}
use sidetree_js.Operation.{
  OperationType, create, update, recover, deactivate, other, AnchoredOperation,
}
use sidetree_js.Operation.Resolver.{
  Processors, OperationsByType, push_by_type, categorize_from, categorize_operations_by_type,
  OperationMap, push_operation, commit_value, construct_map_from, construct_map,
}

abbrev pub is_create : OperationType → Bool
is_create create = true
is_create _ = false

abbrev pub is_recover : OperationType → Bool
is_recover recover = true
is_recover _ = false

abbrev pub is_update : OperationType → Bool
is_update update = true
is_update _ = false

-- the last branch of the loop takes every other type
abbrev pub is_deactivate : OperationType → Bool
is_deactivate deactivate = true
is_deactivate other = true
is_deactivate _ = false

-- the operations whose type passes a test, in their order
abbrev pub of_type : (OperationType → Bool) → List AnchoredOperation → List AnchoredOperation
of_type test os = filter (λ (o : AnchoredOperation). test o.type) os

abbrev by_filter : OperationsByType → List AnchoredOperation → OperationsByType
by_filter t os = record {
  create_operations = t.create_operations ++ of_type is_create os;
  recover_operations = t.recover_operations ++ of_type is_recover os;
  update_operations = t.update_operations ++ of_type is_update os;
  deactivate_operations = t.deactivate_operations ++ of_type is_deactivate os;
}

push_by_type-filter :
    (type : OperationType) (o : AnchoredOperation) (t : OperationsByType)
    (os : List AnchoredOperation)
    → o.type ≡ type
    → by_filter (push_by_type type o t) os ≡ by_filter t (o ∷ os)
unfolding push_by_type
push_by_type-filter create o t os e = simp (e, append_assoc)
push_by_type-filter recover o t os e = simp (e, append_assoc)
push_by_type-filter update o t os e = simp (e, append_assoc)
push_by_type-filter deactivate o t os e = simp (e, append_assoc)
push_by_type-filter other o t os e = simp (e, append_assoc)

categorize_from-eq-filter :
    (t : OperationsByType) (os : List AnchoredOperation) → categorize_from t os ≡ by_filter t os
unfolding categorize_from
categorize_from-eq-filter t [] = simp append-nil
categorize_from-eq-filter t (o ∷ os) =
    categorize_from-eq-filter (push_by_type o.type o t) os ∙ push_by_type-filter o.type o t os refl

-- Each list of `categorizeOperationsByType` holds the operations of its type, in their order; an
-- operation that is no create, recovery or update is taken for a deactivation.
pub categorize-eq-filter :
    (os : List AnchoredOperation)
    → categorize_operations_by_type os ≡ record {
      create_operations = of_type is_create os;
      recover_operations = of_type is_recover os;
      update_operations = of_type is_update os;
      deactivate_operations = of_type is_deactivate os;
    }
unfolding categorize_operations_by_type
categorize-eq-filter os = categorize_from-eq-filter _ os

shift :
    (b : Bool) (before : List AnchoredOperation) (o : AnchoredOperation)
    (after : List AnchoredOperation)
    → (if b then before ++ o ∷ [] else before) ++ after ≡ before ++ (if b then o ∷ after else after)
shift true before o after = append_assoc before (o ∷ []) after
shift false before o after = refl

module _ (processors : Processors) (lib : CryptoLib) where
  -- whether an operation reveals a commitment
  abbrev pub reveals : Text → AnchoredOperation → Bool
  reveals c o = elim (commit_value processors lib o) [ ok d ↦ text_eq d c | err e ↦ false ]

  -- the operations under a key, where no key is no operation
  abbrev pub entry : Text → OperationMap → List AnchoredOperation
  entry c m = elim (JsMap.get c m) [ some os ↦ os | none ↦ [] ]

  entry-push_operation :
      (c d : Text) (o : AnchoredOperation) (m : OperationMap)
      → entry c (push_operation d o m) ≡ (if text_eq d c then entry c m ++ o ∷ [] else entry c m)
  unfolding push_operation
  entry-push_operation c d o m = elim (Option-cases (JsMap.get d m)) [
    | inl new ↦
        rw (new, push_operation) (ground (arith, get-set d c (o ∷ []) m, text_eq_iff d c, new))
    | inr (os, old) ↦
        rw (old, push_operation)
          (ground (arith, get-set d c (os ++ o ∷ []) m, text_eq_iff d c, old))
  ]

  filter-reveals-cons :
      (c d : Text) (o : AnchoredOperation) (os : List AnchoredOperation)
      → commit_value processors lib o ≡ ok d
      → filter (reveals c) (o ∷ os)
        ≡ (if text_eq d c then o ∷ filter (reveals c) os else filter (reveals c) os)
  filter-reveals-cons c d o os e = ground arith

  construct_map_from-entry :
      (os : List AnchoredOperation) (m m' : OperationMap) (c : Text)
      → construct_map_from processors lib m os ≡ ok m'
      → entry c m' ≡ entry c m ++ filter (reveals c) os
  unfolding construct_map_from
  construct_map_from-entry [] m m' c h = rw append-nil (ground arith)
  construct_map_from-entry (o ∷ os) m m' c h =
      let (d, e, h1) = >>=-eq-ok (commit_value processors lib o) _ h in
      construct_map_from-entry os (push_operation d o m) m' c h1
      ∙ ap (λ t. t ++ filter (reveals c) os) (entry-push_operation c d o m)
      ∙ shift (text_eq d c) (entry c m) o (filter (reveals c) os)
      ∙ ap (λ t. entry c m ++ t) (sym (filter-reveals-cons c d o os e))

  -- The lookup map has under each commitment the operations that reveal it, in their order.
  pub construct_map-entry :
      (os : List AnchoredOperation) (m : OperationMap) (c : Text)
      → construct_map processors lib os ≡ ok m
      → entry c m ≡ filter (reveals c) os
  unfolding construct_map JsMap.get
  construct_map-entry os m c h = construct_map_from-entry os [] m c h
