-- ===== src/Ledger.antt =====
-- The transactions of the ledger: what is anchored, what it costs, and which transactions of a block
-- the node processes.
pub mod AnchoredData
pub mod Doubles
pub mod Fee
pub mod Lock
pub mod Selector
pub mod Throughput
use sidetree_js.Prelude.{
  ℕ, zero, suc, ◌+◌, ◌-◌, ◌*◌, ◌/◌, ◌%◌, ◌≤◌, ◌<◌, max, ◌≡◌, refl, sym, ap, ◌∙◌, ◌≢◌, ◌↔◌, ◌⊎◌, inl,
  inr, Bool, true, false, not, ◌&&◌, ◌||◌, Option, none, some, List, [], ◌∷◌, ◌++◌, map, append-nil,
  append_assoc, arith, ltb, leb, ◌==◌, if◌then◌else◌, ltb→lt, leb→le, ==_iff, Bool-cases,
  Option-cases, length, get_elem?, take, drop, filter, length-append, All, All-append, All-filter,
  All-of_mem,
}
use sidetree_js.Prelude.Text.{
  Text, codes, text_eq, text_eq_sound, text_eq_refl, text_eq_iff, member, Distinct,
}

-- packages/common/src/models/TransactionModel.ts
pub record Transaction : Type 0 where
  pub transaction_number : ℕ
  pub transaction_time : ℕ
  pub transaction_time_hash : Text
  pub anchor_string : Text
  pub transaction_fee_paid : ℕ
  pub normalized_transaction_fee : Option ℕ
  pub writer : Text
