-- ===== src/Lib.antt =====
-- Sidetree: decentralised identifiers (DIDs) on a ledger.
--
-- A controller signs operations on a DID: a create, updates, recoveries, a deactivation. Writers
-- anchor batches of operations on a ledger. A node reads the transactions of the ledger, stores the
-- operations of each DID, and resolves a DID by applying its operations to one another.
--
-- The parts of the program, the files that model them, and how they correspond:
--
-- - Document/Validation: packages/core/src/DocumentComposer.ts, `validateDocumentPatches` and what it
--   calls, on JSON values. A validator returns what it validated, at its type. The proofs are in
--   Document/Validation/{Ids,Patches}. Input is packages/core/src/InputValidator.ts.
-- - Document, Document/Composer: packages/core/src/DocumentComposer.ts from `applyPatches` on. A
--   document is a record of optional lists. Patches are a data type in the shape that validation
--   leaves them. `addPublicKeys` is `add_keys` over JavaScript's `Map` (Prelude/JsMap), `addServices`
--   is `merge_services`, with its map from id to index. The composer mutates the document; here each
--   operation returns the new one. Document/Composer/{Keys,Upsert,Services,Refinement} hold the
--   proofs.
-- - Crypto, Crypto/Multihash: packages/common/src/util/Multihash.ts and Encoder.ts. What they call of
--   other packages is the record `CryptoLib`, and what the documentation of these packages promises is
--   `IsCryptoLib`. `try` with a result in its `catch` is `caught`. Crypto/Commitment has the proofs.
-- - Operation, Operation/Processor: packages/core/src/OperationProcessor.ts. `apply` is by cases on
--   the type of the operation. The parsers of operations are the record `OperationParser`. The
--   proofs are in Operation/Processor/{Authorization,Shape,Documents}.
-- - Operation/Parsing: the parsers themselves, from a buffer: packages/core/src/util/Jws.ts and
--   util/Jwk.ts, validateDelta.ts, Delta.ts and computeUniqueSuffix.ts; in Operation/Parsing/Operations
--   the `parse` of CreateOperation.ts, UpdateOperation.ts, RecoverOperation.ts, DeactivateOperation.ts
--   and Operation.ts, and the `OperationParser` that they make. What they call of other packages is
--   the record `ParserLib`. The proofs are in Operation/Parsing/{Compact,Reads,Fields,Deltas}.
-- - Operation/Resolver: packages/core/src/Resolver.ts. `resolve` takes what the operation store
--   returned. The processors come from a function of the blockchain time, as the version manager
--   gives them; Operation/Resolver/Node is the resolver over the processor of Operation/Processor. The
--   two loops of the source are one function `apply_operations` over the commitment that it follows,
--   on fuel. Operation/Resolver/{Tables,Steps,Derivation,Loops,Termination,Denial,Reuse} have the
--   proofs.
-- - Ledger, Ledger/AnchoredData: packages/core/src/AnchoredDataSerializer.ts, the anchor string.
-- - Ledger/Fee: packages/core/src/FeeManager.ts. Ledger/Lock:
--   packages/core/src/ValueTimeLockVerifier.ts. Both compute with Ledger/Doubles: fractions, rounded to
--   the nearest double after each product and quotient. The rounding is on fuel, more than doubles have
--   exponents; Ledger/Doubles/Rounding has the proof that this is enough.
-- - Ledger/Selector: packages/core/src/TransactionSelector.ts, over the record of a priority queue
--   in Ledger/Selector/Queue, whose documented behaviour is `IsPriorityQueue`. The transaction store
--   is a function of the time. The loop over the queue is on fuel; the number of the transactions is
--   enough. The proofs are in Ledger/Selector/{Limits,Ranking}.
-- - Ledger/Throughput: packages/core/src/ThroughputLimiter.ts. The selectors, which the version
--   manager gives by the time, are an argument.
-- - Arrays: packages/common/src/util/SortedArray.ts and packages/core/src/util/ArrayMethods.ts. Binary
--   search is on fuel, of which the length of the array is enough; its upper boundary is kept as the
--   index after it, since it may be -1.
-- - Versions: packages/core/src/VersionManager.ts. The six maps from version to implementation are
--   filled and read in the same way, and are one map here. Versions/Choice has the proofs.
-- - Files: the files of a batch as a node parses them, over the decompression and the JSON parser of
--   the record `FileLib`. Files/CoreIndex is packages/core/src/CoreIndexFile.ts, Files/Proofs
--   CoreProofFile.ts and ProvisionalProofFile.ts, Files/Provisional ProvisionalIndexFile.ts and
--   ChunkFile.ts; Files/Suffixes has the proofs.
-- - Transactions: packages/core/src/TransactionProcessor.ts. `process_transaction` is
--   `processTransaction` with the operation store passed through; the downloads of its first `try` are
--   `download_core_files`, those of the second `download_provisional_files`. Transactions/Download has
--   the download and the checks of each file over the record `Network`, Transactions/Compose the
--   composition of operations; Transactions/{Runs,Composition,Stored,Returns,Completion}
--   the proofs.
-- - Observer: the live loop of packages/core/src/Observer.ts. The record `Stores` is its interface to
--   the three stores; `fetch`, `finish_processing`, `store_then_trim`, `clear_transactions` and
--   `revert_invalid_transactions` are what its parts do to the list of transactions under processing
--   and to the stores. Observer/Steps has the states that they reach in any order, Observer/Rounds one
--   reading of the blockchain, Observer/{Trimming,Progress} the proofs. `process_transaction` of a
--   transaction happens at once, where the source awaits its downloads.
-- - Errors, Json, Parameters, Prelude: the errors, JSON values, the protocol parameters of
--   packages/common/src/util/parameters.ts, and the helpers that the other files share.
-- - Examples: the theorems at concrete inputs, with a concrete library and DID.
--
-- A function that may throw returns a `Result`. A string is the list of its UTF-16 code units, a
-- buffer the list of its bytes, a number a natural number. The loops of the resolver are on fuel,
-- and `none` is running out of it: how much is enough is a theorem, under a hypothesis on
-- commitments without which the loops of the source need not end. Printing a number is on fuel too,
-- which is the number itself, so that it never runs out.
--
-- Not modelled: the writing of files and the batch writer; the historical synchronization of the
-- observer; the external form of documents; the stores, the ledgers, logging and the HTTP service,
-- which are input and output; what other packages compute (hashes, signatures, JSON, compression),
-- which is a parameter; amounts and fees that are no integers or reach 2 ^ 53.
mod Prelude
pub mod Errors
pub mod Json
pub mod Input
pub mod Document
pub mod Crypto
pub mod Operation
pub mod Parameters
pub mod Ledger
pub mod Files
pub mod Transactions
pub mod Observer
pub mod Arrays
pub mod Versions
mod Examples
