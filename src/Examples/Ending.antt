-- ===== src/Examples/Ending.antt =====
-- The theorem on the end of the resolver, with the parsers of the program, at a DID whose update
-- reveals the key that its create commits to.
use sidetree_js.Prelude.{ℕ, some, List, [], ◌∷◌, if◌then◌else◌}
use sidetree_js.Prelude.Text.{Text}
use sidetree_js.Crypto.Multihash.{canonicalize_and_verify_double_hash}
use sidetree_js.Operation.{AnchoredOperation}
use sidetree_js.Operation.Resolver.Node
use sidetree_js.Examples.ToyNetwork.{lib, jwk}
use sidetree_js.Examples.Parsers.{next_create_model, update_model}

abbrev operations : List AnchoredOperation
operations = next_create_model ∷ update_model ∷ []

-- what the key of the update hashes to is above all else
abbrev rank : Text → ℕ
rank c = if canonicalize_and_verify_double_hash lib jwk (some c) then 1 else 0
