-- ===== src/Ledger/Lock.antt =====
-- packages/core/src/ValueTimeLockVerifier.ts: how many operations a value time lock allows. The
-- amounts and fees of a lock are integers below 2 ^ 53, which JavaScript's numbers have exactly; what
-- is computed of them is rounded as it rounds it.
use sidetree_js.Prelude.{
  ℕ, ◌*◌, ◌/◌, ◌≤◌, ◌<◌, max, ◌≡◌, refl, ◌↔◌, ◌⊎◌, inl, inr, Bool, true, false, not, ◌||◌, Option,
  none, some, arith, ltb, leb, ◌==◌, ==_iff, if◌then◌else◌, Bool-cases,
}
use native.Mathlib.Nat.{le-div_iff_mul-le}
use sidetree_js.Prelude.Text.{Text, text_eq, text_eq_sound, text_eq_refl}
use sidetree_js.Errors.{ErrorCode, Result, ok, ◌>>=◌, ◌>>◌, throw_if, >>=-eq-ok, Result-cases}
use sidetree_js.Errors.{
  value_time_lock_verifier_invalid_number_of_operations,
  value_time_lock_verifier_transaction_time_outside_lock_range,
  value_time_lock_verifier_transaction_writer_lock_owner_mismatch,
}
use sidetree_js.Ledger.Doubles.{Double, integer, times, over, over-positive}
use sidetree_js.Parameters.{max_number_of_operations_for_no_value_time_lock}

-- packages/common/src/models/ValueTimeLockModel.ts
pub record ValueTimeLock : Type 0 where
  pub amount_locked : ℕ
  pub identifier : Text
  pub lock_transaction_time : ℕ
  pub unlock_transaction_time : ℕ
  pub normalized_fee : ℕ
  pub owner : Text

-- what `getVersionMetadata` gives
pub record VersionMetadata : Type 0 where
  pub normalized_fee_to_per_operation_fee_multiplier : Double
  pub value_time_lock_amount_multiplier : Double

-- the numbers that the division gives: by zero it is `Infinity` or `NaN`
pub data Limit : Type 0 where
  finite : ℕ → Limit
  infinity : Limit
  not_a_number : Limit

-- `Math.floor(amount / divisor)`
unfoldable pub floor_quotient : ℕ → Double → Limit
floor_quotient amount divisor = elim (divisor.numerator == 0) [
  | true ↦ if amount == 0 then not_a_number else infinity
  | false ↦
      let quotient = over (integer amount) divisor in
      finite (quotient.numerator / quotient.denominator)
]

-- `Math.max(limit, n)`
unfoldable pub max_limit : Limit → ℕ → Limit
max_limit (finite k) n = finite (max k n)
max_limit infinity n = infinity
max_limit not_a_number n = not_a_number

-- `n > limit`
unfoldable pub is_over : ℕ → Limit → Bool
is_over n (finite k) = ltb k n
is_over n infinity = false
is_over n not_a_number = false

-- the divisor `feePerOperation * valueTimeLockAmountMultiplier`
unfoldable pub lock_divisor : ValueTimeLock → VersionMetadata → Double
lock_divisor lock metadata =
    times
      (times (integer lock.normalized_fee) metadata.normalized_fee_to_per_operation_fee_multiplier)
      metadata.value_time_lock_amount_multiplier

unfoldable pub calculate_max_number_of_operations_allowed :
    (ℕ → Result VersionMetadata) → Option ValueTimeLock → Result Limit
calculate_max_number_of_operations_allowed get_version_metadata none =
    ok (finite max_number_of_operations_for_no_value_time_lock)
calculate_max_number_of_operations_allowed get_version_metadata (some lock) = do
  metadata ← get_version_metadata lock.lock_transaction_time
  ok (
      max_limit (floor_quotient lock.amount_locked (lock_divisor lock metadata))
        max_number_of_operations_for_no_value_time_lock)

-- the checks of the owner and of the duration
unfoldable pub check_lock : Option ValueTimeLock → ℕ → Text → Result (Unit {0})
check_lock none time writer = ok tt
check_lock (some lock) time writer = do
  throw_if (not (text_eq lock.owner writer))
      value_time_lock_verifier_transaction_writer_lock_owner_mismatch
  throw_if (ltb time lock.lock_transaction_time || leb lock.unlock_transaction_time time)
      value_time_lock_verifier_transaction_time_outside_lock_range

unfoldable pub verify_lock_amount_and_throw_on_error :
    (ℕ → Result VersionMetadata) → Option ValueTimeLock → ℕ → ℕ → Text → Result (Unit {0})
verify_lock_amount_and_throw_on_error get_version_metadata lock number_of_operations time writer =
    if leb number_of_operations max_number_of_operations_for_no_value_time_lock then ok tt else do
      check_lock lock time writer
      limit ← calculate_max_number_of_operations_allowed get_version_metadata lock
      throw_if (is_over number_of_operations limit)
          value_time_lock_verifier_invalid_number_of_operations

-- What an amount is divided by is zero, or the quotient, as it is rounded, is no less than `n`.
abbrev pub IsEnough : ℕ → ℕ → Double → Type 0
IsEnough n amount divisor =
    (divisor.numerator ≡ 0)
    ⊎ (n * (over (integer amount) divisor).denominator ≤ (over (integer amount) divisor).numerator)

-- The locks that let a writer anchor `n` operations at a time: the lock is the writer's, its period
-- holds the time, and its amount divided by the amount for one operation is at least `n`.
abbrev pub Allows : (ℕ → Result VersionMetadata) → Option ValueTimeLock → ℕ → ℕ → Text → Type 0
Allows get_version_metadata none n time writer = ⊥
Allows get_version_metadata (some lock) n time writer =
    (lock.owner ≡ writer)
    × (lock.lock_transaction_time ≤ time)
    × (time < lock.unlock_transaction_time)
    × (metadata : VersionMetadata) × (get_version_metadata lock.lock_transaction_time ≡ ok metadata)
    × IsEnough n lock.amount_locked (lock_divisor lock metadata)

over_iff :
    (n amount divisor least : ℕ)
    → least < n
    → 0 < divisor
    → (ltb (max (amount / divisor) least) n ≡ false) ↔ (n * divisor ≤ amount)
over_iff n amount divisor least h p =
    let (to, from) = le-div_iff_mul-le {k = divisor} {x = n} {y = amount} p in
    (λ o. to (ground arith), λ m. ground (arith, from m))

floor_quotient-zero :
    (n amount least : ℕ) (divisor : Double)
    → (divisor.numerator == 0) ≡ true
    → is_over n (max_limit (floor_quotient amount divisor) least) ≡ false
unfolding is_over max_limit floor_quotient
floor_quotient-zero n amount least divisor h = elim (Bool-cases (amount == 0)) [
  | inl nothing ↦ rw (floor_quotient, h, nothing) refl
  | inr something ↦ rw (floor_quotient, h, something) refl
]

floor_quotient-positive :
    (amount : ℕ) (divisor : Double)
    → (divisor.numerator == 0) ≡ false
    → floor_quotient amount divisor
      ≡ finite
          ((over (integer amount) divisor).numerator / (over (integer amount) divisor).denominator)
unfolding floor_quotient
floor_quotient-positive amount divisor h = rw (floor_quotient, h) refl

is_over_iff :
    (n amount least : ℕ) (divisor : Double)
    → least < n
    → (is_over n (max_limit (floor_quotient amount divisor) least) ≡ false)
      ↔ IsEnough n amount divisor
unfolding is_over max_limit
is_over_iff n amount least divisor h = elim (Bool-cases (divisor.numerator == 0)) [
  | inl zero_divisor ↦ (
    λ _. inl ((==_iff divisor.numerator 0).0 zero_divisor),
    λ _. floor_quotient-zero n amount least divisor zero_divisor,
  )
  | inr positive ↦
      let quotient = over (integer amount) divisor in
      let (to, from) =
        over_iff n quotient.numerator quotient.denominator least h
          (over-positive (integer amount) divisor) in
      rw (floor_quotient-positive amount divisor positive) (
        λ o. inr (to o),
        λ e. elim e [
          | inl nothing ↦
              absurd (let z = (==_iff divisor.numerator 0).1 nothing in cc (z, positive))
          | inr enough ↦ from enough
        ],
      )
]

throw_if_iff : (b : Bool) (code : ErrorCode) → (throw_if b code ≡ ok tt) ↔ (b ≡ false)
throw_if_iff true code = (λ h. absurd (cc h), λ h. absurd (cc h))
throw_if_iff false code = (λ _. refl, λ _. refl)

check_lock_iff :
    (lock : ValueTimeLock) (time : ℕ) (writer : Text)
    → (check_lock (some lock) time writer ≡ ok tt) ↔ (
        (lock.owner ≡ writer)
        × (lock.lock_transaction_time ≤ time)
        × (time < lock.unlock_transaction_time))
unfolding check_lock
check_lock_iff lock time writer = (
  λ h.
      (let (u, p, q) = >>=-eq-ok (throw_if (not (text_eq lock.owner writer)) _) _ h in
        let mine = (throw_if_iff (not (text_eq lock.owner writer)) _).0 p in
        let inside =
          (throw_if_iff
              (ltb time lock.lock_transaction_time || leb lock.unlock_transaction_time time) _).0
            q in
        (
          text_eq_sound lock.owner writer (ground (arith, mine)),
          ground (arith, inside),
          ground (arith, inside),
        )),
  λ (e, a, b).
      (let mine : text_eq lock.owner writer ≡ true = rw e (text_eq_refl writer) in
        let early : ltb time lock.lock_transaction_time ≡ false = ground arith in
        let late : leb lock.unlock_transaction_time time ≡ false = ground arith in
        rw (mine, early, late) refl),
)

metered_iff :
    (g : ℕ → Result VersionMetadata) (lock : ValueTimeLock) (n : ℕ)
    → max_number_of_operations_for_no_value_time_lock < n
    → ((calculate_max_number_of_operations_allowed g (some lock) >>= λ limit.
          throw_if (is_over n limit) value_time_lock_verifier_invalid_number_of_operations)
        ≡ ok tt)
      ↔ ((metadata : VersionMetadata) × (g lock.lock_transaction_time ≡ ok metadata)
          × IsEnough n lock.amount_locked (lock_divisor lock metadata))
unfolding calculate_max_number_of_operations_allowed
metered_iff g lock n h = elim (Result-cases (g lock.lock_transaction_time)) [
  | inl (e, p) ↦ (rw p (λ k. absurd (cc k)), λ (metadata, q, _). absurd (cc (p, q)))
  | inr (metadata, p) ↦
      (let iff =
          is_over_iff n lock.amount_locked max_number_of_operations_for_no_value_time_lock
            (lock_divisor lock metadata) h in
        (
          rw p (λ k. (metadata, refl, iff.0 ((throw_if_iff _ _).0 k))),
          λ (other, q, m). rw q (
              (throw_if_iff _ _).1 (
                (is_over_iff n lock.amount_locked max_number_of_operations_for_no_value_time_lock
                    (lock_divisor lock other) h).1
                  m)),
        ))
]

-- A transaction of at most 100 operations needs no lock. One of more is accepted exactly when it has a
-- lock that is the writer's and whose period holds the time, the metadata at the time of the lock is
-- there, and the locked amount divided by the amount for one operation, both rounded to doubles, is no
-- less than the number of operations; where the amount for one operation is zero, any locked amount
-- does.
pub verify_lock_amount_iff :
    (get_version_metadata : ℕ → Result VersionMetadata) (lock : Option ValueTimeLock) (n time : ℕ)
    (writer : Text)
    → (verify_lock_amount_and_throw_on_error get_version_metadata lock n time writer ≡ ok tt) ↔ (
        (n ≤ max_number_of_operations_for_no_value_time_lock)
        ⊎ Allows get_version_metadata lock n time writer)
unfolding verify_lock_amount_and_throw_on_error check_lock
    calculate_max_number_of_operations_allowed is_over
verify_lock_amount_iff g none n time writer =
    elim (Bool-cases (leb n max_number_of_operations_for_no_value_time_lock)) [
      | inl b ↦ (λ h. inl (ground arith), λ _. rw b refl)
      | inr b ↦ rw b (
        λ h. absurd (
            ground (
              arith,
              (throw_if_iff (ltb max_number_of_operations_for_no_value_time_lock n) _).0 h,
            )),
        λ h. absurd (ground arith),
      )
    ]
verify_lock_amount_iff g (some lock) n time writer =
    elim (Bool-cases (leb n max_number_of_operations_for_no_value_time_lock)) [
      | inl b ↦ (λ h. inl (ground arith), λ _. rw b refl)
      | inr b ↦
          (let metered = metered_iff g lock n (ground arith) in
            let checked = check_lock_iff lock time writer in
            rw b (
              λ h.
                  (let (u, p, q) = >>=-eq-ok (check_lock (some lock) time writer) _ h in
                    let (mine, early, late) = checked.0 p in
                    let (metadata, got, enough) = metered.0 q in
                    inr (mine, early, late, metadata, got, enough)),
              λ h. elim h [
                | inl small ↦ absurd (ground arith)
                | inr (mine, early, late, metadata, got, enough) ↦
                    rw (checked.1 (mine, early, late)) (metered.1 (metadata, got, enough))
              ],
            ))
    ]
