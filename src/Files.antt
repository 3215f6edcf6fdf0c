-- ===== src/Files.antt =====
-- packages/core/src: the files of a batch of operations, as the node that reads them parses and
-- validates them. CoreIndexFile.ts is in CoreIndex, CoreProofFile.ts and ProvisionalProofFile.ts
-- in Proofs, ProvisionalIndexFile.ts and ChunkFile.ts in Provisional.
pub mod CoreIndex
pub mod Proofs
pub mod Provisional
pub mod Suffixes
use sidetree_js.Prelude.{
  ℕ, zero, suc, ◌+◌, ◌-◌, ◌*◌, ◌/◌, ◌%◌, ◌≤◌, ◌<◌, max, ◌≡◌, refl, sym, ap, ◌∙◌, ◌≢◌, ◌↔◌, ◌⊎◌, inl,
  inr, Bool, true, false, not, ◌&&◌, ◌||◌, Option, none, some, List, [], ◌∷◌, ◌++◌, map, append-nil,
  append_assoc, arith, ltb, leb, ◌==◌, if◌then◌else◌, ltb→lt, leb→le, ==_iff, Bool-cases,
  Option-cases, length, get_elem?, take, drop, filter, length-append, All, All-append, All-filter,
  All-of_mem, All-at_mem,
}
use sidetree_js.Prelude.Text.{
  Text, codes, text_eq, text_eq_sound, text_eq_refl, text_eq_iff, member, Distinct,
}
use sidetree_js.Errors.{
  ErrorCode, Failure, sidetree, unexpected, Result, ok, err, ◌>>=◌, ◌>>◌, throw_if, >>=-eq-ok,
  Result-cases, ok-injective, throw_if-eq-ok, if-eq-ok,
}
use sidetree_js.Errors.{compressor_max_allowed_decompressed_data_size_exceeded}
use sidetree_js.Json.{Json, Items, Fields, null, arr, obj, nil, cons, end, field}

-- What the files call of node and of other packages.
pub record FileLib : Type 0 where
  -- the chunks that node's `gunzip` emits, and whether it comes to its end without an error
  pub gunzip : Text → List Text × Bool
  -- `JsonAsync.parse` of a buffer
  pub json_parse_buffer : Text → Result Json
  -- `Buffer.from(text)`
  pub buffer_from : Text → Text
  -- `JSON.stringify(value)`
  pub stringify : Json → Text

abbrev pub estimated_decompression_multiplier : ℕ
estimated_decompression_multiplier = 3

-- `Compressor.decompress`, from the content so far on
unfoldable pub decompress_from : List Text → Bool → Text → ℕ → Result Text
decompress_from [] true content max_size = ok content
decompress_from [] false content max_size = err unexpected
decompress_from (chunk ∷ chunks) ended content max_size =
    let rest = decompress_from chunks ended (content ++ chunk) max_size in
    if ltb max_size (length content + length chunk)
    then err (sidetree compressor_max_allowed_decompressed_data_size_exceeded)
    else rest

unfoldable pub decompress : FileLib → Text → ℕ → Result Text
decompress files buffer max_size =
    let (chunks, ended) = files.gunzip buffer in decompress_from chunks ended [] max_size

-- `try { e } catch (e) { throw SidetreeError.createFromError(code, e); }`
unfoldable pub rethrow_as {ℓ} : {A : Type ℓ} → ErrorCode → Result A → Result A
rethrow_as code (ok a) = ok a
rethrow_as code (err e) = err (sidetree code)

-- the buffer of a file, decompressed and parsed, with the codes of the two failures
unfoldable pub read_file : FileLib → ℕ → ErrorCode → ErrorCode → Text → Result Json
read_file files max_size not_decompressed not_json buffer = do
  decompressed ←
      rethrow_as not_decompressed
        (decompress files buffer (max_size * estimated_decompression_multiplier))
  rethrow_as not_json (files.json_parse_buffer decompressed)

-- `value[0]` of an array that is not empty, the value itself otherwise
unfoldable pub first_of : Json → Json
first_of (arr (cons item items)) = item
first_of value = value

-- an assignment to a field that is there
unfoldable pub map_field : (Json → Json) → Text → Fields → Fields
map_field f name end = end
map_field f name (field key value fields) =
    let rest = map_field f name fields in
    if text_eq key name then field key (f value) fields else field key value rest

unfoldable pub map_property : (Json → Json) → Text → Json → Json
map_property f name (obj fields) = obj (map_field f name fields)
map_property f name value = value

-- an assignment to a field of each element, which throws where the element is `null`
unfoldable pub map_each : (Json → Json) → Items → Result Items
map_each f nil = ok nil
map_each f (cons null items) = err unexpected
map_each f (cons item items) = do rest ← map_each f items; ok (cons (f item) rest)
