-- ===== src/Files/Suffixes.antt =====
-- What the validation of the index files establishes of the DID suffixes of a batch.
use mathlib.Core.Path.{subst}
use sidetree_js.Prelude.{
  ℕ, suc, ◌+◌, ◌≡◌, refl, ap, ◌∙◌, Bool, true, false, not, ◌||◌, Option, none, some, List, [], ◌∷◌,
  ◌++◌, map, arith, ltb, ◌==◌, if◌then◌else◌, length,
}
use sidetree_js.Prelude.Text.{Text, codes, Distinct}
use sidetree_js.Errors.{unexpected, ok, err, ◌>>=◌, >>=-eq-ok, ok-injective, throw_if-eq-ok}
use sidetree_js.Json.{Json, property, has_only}
use sidetree_js.Arrays.{has_duplicates}
use sidetree_js.Arrays.Duplicates.{has_duplicates_iff}
use sidetree_js.Parameters.{
  max_core_index_file_size_in_bytes, max_provisional_index_file_size_in_bytes,
}
use sidetree_js.Crypto.{CryptoLib}
use sidetree_js.Input.{
  OperationReference, validate_object_contains_only_allowed_properties,
  validate_operation_references, validate_cas_file_uri,
}
use sidetree_js.Json.Typing.{array_or}
use sidetree_js.Document.Validation.{if_present, is_object}
use sidetree_js.Operation.Parsing.{ParserLib, compute_unique_suffix}
use sidetree_js.Files.{FileLib, read_file}
use sidetree_js.Files.CoreIndex.{
  CoreIndexFile, suffix_of, unless_undefined, validate_writer_lock_id, validate_create_references,
  unwrap_create_references, compute_unique_suffixes, validate_creates, validate_references,
  operations_or_empty, validate_provisional_uri, validate_proof_uri, finish_core_index,
  validate_core_index, parse_core_index,
}
use sidetree_js.Files.Provisional.{
  ProvisionalIndexFile, validate_chunks_property, validate_provisional_proof_uri,
  validate_operations_property, validate_provisional_index, parse_provisional_index,
}

pub record IsCoreIndex (f : CoreIndexFile) : Type 0 where
  pub all_suffixes :
      f.did_unique_suffixes
      ≡ f.create_did_suffixes ++ f.recover_did_suffixes ++ f.deactivate_did_suffixes
  pub distinct : Distinct f.did_unique_suffixes
  pub creates : length f.create_did_suffixes ≡ length f.model.create_suffix_data
  pub recovers : f.recover_did_suffixes ≡ map suffix_of f.model.recover_references
  pub deactivates : f.deactivate_did_suffixes ≡ map suffix_of f.model.deactivate_references
  pub proof_uri :
      f.model.core_proof_file_uri ≡ none
      → (f.recover_did_suffixes ≡ []) × (f.deactivate_did_suffixes ≡ [])
  pub provisional_uri :
      f.model.provisional_index_file_uri ≡ none
      → (f.create_did_suffixes ≡ []) × (f.recover_did_suffixes ≡ [])

pub record IsProvisionalIndex (f : ProvisionalIndexFile) : Type 0 where
  pub suffixes : f.did_unique_suffixes ≡ map suffix_of f.update_references
  pub distinct : Distinct f.did_unique_suffixes
  pub proof_uri : f.provisional_proof_file_uri ≡ none → f.did_unique_suffixes ≡ []

pub length-eq-zero : {A : Type 0} (xs : List A) → length xs ≡ 0 → xs ≡ []
length-eq-zero [] h = refl
length-eq-zero (x ∷ xs) h = absurd (ground arith)

empty_of_no_proof_uri :
    (b : Bool) (value : Option Json) → validate_proof_uri b value ≡ ok none → b ≡ false
unfolding validate_proof_uri
empty_of_no_proof_uri false value h = refl
empty_of_no_proof_uri true value h =
    let (uri, valid, h1) = >>=-eq-ok (validate_cas_file_uri value) _ h in cc

empty_of_no_provisional_uri :
    (count : ℕ) (value : Option Json) → validate_provisional_uri count value ≡ ok none → count ≡ 0
unfolding validate_provisional_uri
empty_of_no_provisional_uri count none h =
    let (zero_count, h1) = throw_if-eq-ok (not (count == 0)) _ _ h in ground arith
empty_of_no_provisional_uri count (some value) h =
    let (uri, valid, h1) = >>=-eq-ok (validate_cas_file_uri (some value)) _ h in cc

empty_of_no_update_proof_uri :
    (b : Bool) (value : Option Json) → validate_provisional_proof_uri b value ≡ ok none → b ≡ false
unfolding validate_provisional_proof_uri
empty_of_no_update_proof_uri false value h = refl
empty_of_no_update_proof_uri true value h =
    let (uri, valid, h1) = >>=-eq-ok (validate_cas_file_uri value) _ h in cc

finish_core_index-IsCoreIndex :
    (content : Json) (lock : Option Text) (contents : List Json) (suffixes : List Text)
    (recovers deactivates : List OperationReference) (f : CoreIndexFile)
    → length suffixes ≡ length contents
    → finish_core_index content lock (contents, suffixes) recovers deactivates ≡ ok f
    → IsCoreIndex f
unfolding finish_core_index
finish_core_index-IsCoreIndex content lock contents suffixes recovers deactivates f n h =
    let all_suffixes = suffixes ++ map suffix_of recovers ++ map suffix_of deactivates in
    let (distinct, h1) = throw_if-eq-ok (has_duplicates all_suffixes) _ _ h in
    let (provisional_uri, valid_provisional, h2) =
      >>=-eq-ok
        (property content (codes "provisionalIndexFileUri")
          >>= validate_provisional_uri (length suffixes + length (map suffix_of recovers)))
        _ h1 in
    let (proof_uri, valid_proof, h3) =
      >>=-eq-ok
        (property content (codes "coreProofFileUri")
          >>= validate_proof_uri (
              ltb 0 (length (map suffix_of recovers))
              || ltb 0 (length (map suffix_of deactivates))))
        _ h2 in
    let (provisional_value, at_provisional, is_provisional) =
      >>=-eq-ok (property content (codes "provisionalIndexFileUri")) _ valid_provisional in
    let (proof_value, at_proof, is_proof) =
      >>=-eq-ok (property content (codes "coreProofFileUri")) _ valid_proof in
    subst IsCoreIndex (ok-injective h3) (record {
      all_suffixes = refl;
      distinct = (has_duplicates_iff all_suffixes).0 distinct;
      creates = n;
      recovers = refl;
      deactivates = refl;
      proof_uri = λ e.
          (let none_here = empty_of_no_proof_uri _ proof_value (is_proof ∙ ap (λ o. ok o) e) in
            (
              length-eq-zero (map suffix_of recovers) (ground arith),
              length-eq-zero (map suffix_of deactivates) (ground arith),
            ));
      provisional_uri = λ e.
          (let none_here =
              empty_of_no_provisional_uri _ provisional_value (is_provisional ∙ ap (λ o. ok o) e) in
            (
              length-eq-zero suffixes (omega arith),
              length-eq-zero (map suffix_of recovers) (omega arith),
            ));
    })

module _ (lib : CryptoLib) (node : ParserLib) (files : FileLib) where
  length-compute_unique_suffixes :
      (contents : List Json) (suffixes : List Text)
      → compute_unique_suffixes lib node files contents ≡ ok suffixes
      → length suffixes ≡ length contents
  unfolding compute_unique_suffixes
  length-compute_unique_suffixes [] suffixes h = rw (← ok-injective h) refl
  length-compute_unique_suffixes (c ∷ cs) suffixes h =
      let (s, computed, h1) = >>=-eq-ok (compute_unique_suffix lib node c) _ h in
      let (ss, rest, h2) = >>=-eq-ok (compute_unique_suffixes lib node files cs) _ h1 in
      rw (← ok-injective h2) (ap suc (length-compute_unique_suffixes cs ss rest))

  length-validate_creates :
      (value : Option Json) (contents : List Json) (suffixes : List Text)
      → unless_undefined ([], []) (validate_creates lib node files) value ≡ ok (contents, suffixes)
      → length suffixes ≡ length contents
  unfolding validate_creates
  length-validate_creates none contents suffixes h =
      let e = ok-injective h in
      rw (← ap (λ (p : List Json × List Text). p.0) e, ← ap (λ (p : List Json × List Text). p.1) e)
        refl
  length-validate_creates (some value) contents suffixes h =
      let (items, is_array, h1) = >>=-eq-ok (array_or _ (some value)) _ h in
      let (unwrapped, done, h2) = >>=-eq-ok (unwrap_create_references items) _ h1 in
      let (cs, valid, h3) = >>=-eq-ok (validate_create_references lib node files unwrapped) _ h2 in
      let (ss, computed, h4) = >>=-eq-ok (compute_unique_suffixes lib node files cs) _ h3 in
      let e = ok-injective h4 in
      rw (← ap (λ (p : List Json × List Text). p.0) e, ← ap (λ (p : List Json × List Text). p.1) e)
        (length-compute_unique_suffixes cs ss computed)

  validate_core_index-IsCoreIndex :
      (content : Json) (f : CoreIndexFile)
      → validate_core_index lib node files content ≡ ok f
      → IsCoreIndex f
  unfolding validate_core_index
  validate_core_index-IsCoreIndex content f h =
      let (only, h1) =
        throw_if-eq-ok
          (not (
            has_only
              (codes "provisionalIndexFileUri"
                ∷ codes "coreProofFileUri"
                ∷ codes "operations"
                ∷ codes "writerLockId"
                ∷ [])
              content))
          _ _ h in
      let (u, object, h2) = >>=-eq-ok (if is_object content then ok tt else err unexpected) _ h1 in
      let (lock, is_lock, h3) =
        >>=-eq-ok
          (property content (codes "writerLockId")
            >>= if_present (validate_writer_lock_id lib node files))
          _ h2 in
      let (value, at_operations, h4) = >>=-eq-ok (property content (codes "operations")) _ h3 in
      let (only_three, h5) =
        throw_if-eq-ok
          (not (
            has_only (codes "create" ∷ codes "recover" ∷ codes "deactivate" ∷ [])
              (operations_or_empty value)))
          _ _ h4 in
      let ((contents, suffixes), are_creates, h6) =
        >>=-eq-ok
          (property (operations_or_empty value) (codes "create")
            >>= unless_undefined ([], []) (validate_creates lib node files))
          _ h5 in
      let (recovers, are_recovers, h7) =
        >>=-eq-ok
          (property (operations_or_empty value) (codes "recover")
            >>= unless_undefined [] (validate_references lib node files _))
          _ h6 in
      let (deactivates, are_deactivates, h8) =
        >>=-eq-ok
          (property (operations_or_empty value) (codes "deactivate")
            >>= unless_undefined [] (validate_references lib node files _))
          _ h7 in
      let (creates_value, at_creates, valid) =
        >>=-eq-ok (property (operations_or_empty value) (codes "create")) _ are_creates in
      finish_core_index-IsCoreIndex content lock contents suffixes recovers deactivates f
        (length-validate_creates creates_value contents suffixes valid) h8

  -- A core index file that `parse` returns has the suffixes of its creates, recovers and
  -- deactivates, in that order and all distinct, one for each reference; without a URI of a core
  -- proof file it has no recovers and no deactivates, without a URI of a provisional index file no
  -- creates and no recovers.
  pub parse_core_index-IsCoreIndex :
      (buffer : Text) (f : CoreIndexFile)
      → parse_core_index lib node files buffer ≡ ok f
      → IsCoreIndex f
  unfolding parse_core_index
  parse_core_index-IsCoreIndex buffer f h =
      let (content, is_read, h1) =
        >>=-eq-ok (read_file files max_core_index_file_size_in_bytes _ _ buffer) _ h in
      validate_core_index-IsCoreIndex content f h1

  update_suffixes-Distinct :
      (value : Option Json) (references : List OperationReference)
      → validate_operations_property lib node files value ≡ ok references
      → Distinct (map suffix_of references)
  unfolding validate_operations_property
  update_suffixes-Distinct none references h = rw (← ok-injective h) tt
  update_suffixes-Distinct (some operations) references h =
      let (u, only, h1) =
        >>=-eq-ok
          (validate_object_contains_only_allowed_properties operations (codes "update" ∷ [])) _ h in
      let (items, is_array, h2) =
        >>=-eq-ok (property operations (codes "update") >>= array_or _) _ h1 in
      let (found, valid, h3) = >>=-eq-ok (validate_operation_references lib items) _ h2 in
      let (distinct, h4) = throw_if-eq-ok (has_duplicates (map suffix_of found)) _ _ h3 in
      rw (← ok-injective h4) ((has_duplicates_iff (map suffix_of found)).0 distinct)

  validate_provisional_index-IsProvisionalIndex :
      (content : Json) (f : ProvisionalIndexFile)
      → validate_provisional_index lib node files content ≡ ok f
      → IsProvisionalIndex f
  unfolding validate_provisional_index
  validate_provisional_index-IsProvisionalIndex content f h =
      let (only, h1) =
        throw_if-eq-ok
          (not (
            has_only (codes "chunks" ∷ codes "operations" ∷ codes "provisionalProofFileUri" ∷ [])
              content))
          _ _ h in
      let (uri, is_uri, h2) =
        >>=-eq-ok (property content (codes "chunks") >>= validate_chunks_property) _ h1 in
      let (references, are_references, h3) =
        >>=-eq-ok
          (property content (codes "operations") >>= validate_operations_property lib node files) _
          h2 in
      let (proof_uri, valid_proof, h4) =
        >>=-eq-ok
          (property content (codes "provisionalProofFileUri")
            >>= validate_provisional_proof_uri (ltb 0 (length references)))
          _ h3 in
      let (value, at_operations, valid) =
        >>=-eq-ok (property content (codes "operations")) _ are_references in
      let (proof_value, at_proof, is_proof) =
        >>=-eq-ok (property content (codes "provisionalProofFileUri")) _ valid_proof in
      subst IsProvisionalIndex (ok-injective h4) (record {
        suffixes = refl;
        distinct = update_suffixes-Distinct value references valid;
        proof_uri = λ e.
            (let none_here =
                empty_of_no_update_proof_uri _ proof_value (is_proof ∙ ap (λ o. ok o) e) in
              ap (map suffix_of) (length-eq-zero references (ground arith)));
      })

  -- A provisional index file that `parse` returns has distinct suffixes, one for each update, and
  -- without a URI of a proof file it has no updates.
  pub parse_provisional_index-IsProvisionalIndex :
      (buffer : Text) (f : ProvisionalIndexFile)
      → parse_provisional_index lib node files buffer ≡ ok f
      → IsProvisionalIndex f
  unfolding parse_provisional_index
  parse_provisional_index-IsProvisionalIndex buffer f h =
      let (content, is_read, h1) =
        >>=-eq-ok (read_file files max_provisional_index_file_size_in_bytes _ _ buffer) _ h in
      validate_provisional_index-IsProvisionalIndex content f h1
