-- ===== src/Operation/Resolver/Termination.antt =====
-- The resolver of a node ends, if no operation commits to what it, or one before it, reveals.
use mathlib.Core.List.{Memᴰ}
use sidetree_js.Prelude.{ℕ, suc, ◌<◌, ◌≡◌, true, Option, none, some, List}
use sidetree_js.Prelude.Text.{Text}
use sidetree_js.Errors.{ok}
use sidetree_js.Json.{Json}
use sidetree_js.Crypto.{CryptoLib}
use sidetree_js.Crypto.Multihash.{canonicalize_and_verify_double_hash}
use sidetree_js.Operation.{
  update, recover, AnchoredOperation, Delta, UpdateOperation, RecoverOperation, OperationParser,
}
use sidetree_js.Operation.Resolver.{recovery_commitment, update_commitment}

-- `undefined` is below every commitment
abbrev pub rank_of : (Text → ℕ) → Option Text → ℕ
rank_of rank none = 0
rank_of rank (some c) = suc (rank c)

-- Commitments have ranks that fall along the given operations: an update or a recovery of them that
-- parses, whose key hashes to a commitment and whose signature is valid under that key commits to one
-- of lower rank. With a hash function nobody can build a circle without reusing a key; a controller
-- that signs an operation with a key that it commits to again breaks this.
pub record IsForward (lib : CryptoLib) (parser : OperationParser) (rank : Text → ℕ)
    (operations : List AnchoredOperation) : Type 0 where
  pub of_update :
      (model : AnchoredOperation) (o : UpdateOperation) (d : Delta) (c : Text)
      → Memᴰ model operations
      → model.type ≡ update
      → parser.parse_update model.operation_buffer ≡ ok o
      → canonicalize_and_verify_double_hash lib o.update_key (some c) ≡ true
      → parser.verify_signature o.signed_data_jws o.update_key ≡ ok true
      → o.delta ≡ some d
      → rank d.update_commitment < rank c
  pub of_recover :
      (model : AnchoredOperation) (o : RecoverOperation) (c : Text)
      → Memᴰ model operations
      → model.type ≡ recover
      → parser.parse_recover model.operation_buffer ≡ ok o
      → canonicalize_and_verify_double_hash lib o.recovery_key (some c) ≡ true
      → parser.verify_signature o.signed_data_jws o.recovery_key ≡ ok true
      → rank o.recovery_commitment < rank c
