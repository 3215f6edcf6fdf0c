-- ===== src/Ledger/AnchoredData/RoundTrip.antt =====
-- Anchor strings: `deserialize` is the inverse of `serialize`, and accepts nothing else.
use sidetree_js.Prelude.{
  ℕ, ◌≤◌, ◌<◌, ◌≡◌, refl, sym, ap, ◌∙◌, ◌≢◌, ◌↔◌, inl, inr, Bool, true, false, not, ◌&&◌, List, [],
  ◌∷◌, ◌++◌, arith, ltb, ◌==◌, if◌then◌else◌, Bool-cases, All,
}
use sidetree_js.Prelude.Text.{Text}
use sidetree_js.Errors.{sidetree, ok, err, >>=-eq-ok}
use sidetree_js.Errors.{anchored_data_number_of_operations_greater_than_max}
use sidetree_js.Parameters.{max_operations_per_batch}
use sidetree_js.Ledger.AnchoredData.{
  AnchoredData, delimiter, print_number, serialize, push_char, split, all_digits,
  is_positive_integer, read_from, parse_positive_integer, deserialize_parts, deserialize,
}
use sidetree_js.Ledger.AnchoredData.Numerals.{
  read-print_number, all_digits-print_number, positive-print_number, print-read, read-positive,
}

-- no character is the delimiter
abbrev pub has_no_delimiter : Text → Bool
has_no_delimiter [] = true
has_no_delimiter (c ∷ s) = not (c == delimiter) && has_no_delimiter s

-- parts with delimiters between them
abbrev pub join : List Text → Text
join [] = []
join (p ∷ []) = p
join (p ∷ q ∷ ps) = p ++ (delimiter ∷ join (q ∷ ps))

no_delimiter_of_digits : (s : Text) → all_digits s ≡ true → has_no_delimiter s ≡ true
no_delimiter_of_digits [] h = refl
no_delimiter_of_digits (c ∷ s) h = ground (arith, no_delimiter_of_digits s)

pub split_one : (s : Text) → has_no_delimiter s ≡ true → split s ≡ s ∷ []
unfolding split
split_one [] h = refl
split_one (c ∷ s) h = ground (arith, split_one s)

pub split-append :
    (s t : Text) → has_no_delimiter s ≡ true → split (s ++ (delimiter ∷ t)) ≡ s ∷ split t
unfolding split
split-append [] t h = refl
split-append (c ∷ s) t h = ground (arith, split-append s t)

push_char-ne-nil : (b : Bool) (c : ℕ) (ps : List Text) → push_char b c ps ≢ []
unfolding push_char
push_char-ne-nil true c ps = cc
push_char-ne-nil false c [] = cc
push_char-ne-nil false c (p ∷ ps) = cc

split-ne-nil : (s : Text) → split s ≢ []
unfolding split
split-ne-nil [] = cc
split-ne-nil (c ∷ s) = push_char-ne-nil (c == delimiter) c (split s)

join-push_char :
    (b : Bool) (c : ℕ) (ps : List Text)
    → ps ≢ []
    → (c == delimiter) ≡ b
    → join (push_char b c ps) ≡ c ∷ join ps
unfolding push_char
join-push_char true c [] n e = absurd (n refl)
join-push_char true c (p ∷ ps) n e = ap (λ k. k ∷ join (p ∷ ps)) (ground arith)
join-push_char false c [] n e = absurd (n refl)
join-push_char false c (p ∷ []) n e = refl
join-push_char false c (p ∷ q ∷ ps) n e = refl

pub join-split : (s : Text) → join (split s) ≡ s
unfolding split
join-split [] = refl
join-split (c ∷ s) =
    join-push_char (c == delimiter) c (split s) (split-ne-nil s) refl
    ∙ ap (λ t. c ∷ t) (join-split s)

push_char-no_delimiter :
    (b : Bool) (c : ℕ) (ps : List Text)
    → (c == delimiter) ≡ b
    → All (λ p. has_no_delimiter p ≡ true) ps
    → All (λ p. has_no_delimiter p ≡ true) (push_char b c ps)
unfolding push_char
push_char-no_delimiter true c ps e a = (refl, a)
push_char-no_delimiter false c [] e a = (rw e refl, a)
push_char-no_delimiter false c (p ∷ ps) e (a, rest) = (rw (e, a) refl, rest)

pub split-no_delimiter : (s : Text) → All (λ p. has_no_delimiter p ≡ true) (split s)
unfolding split
split-no_delimiter [] = (refl, tt)
split-no_delimiter (c ∷ s) =
    push_char-no_delimiter (c == delimiter) c (split s) refl (split-no_delimiter s)

-- The anchors that a writer may write: between one operation and the limit of a batch, and a URI that
-- has no delimiter.
abbrev pub IsAnchorable : AnchoredData → Type 0
IsAnchorable d =
    (0 < d.number_of_operations)
    × (d.number_of_operations ≤ max_operations_per_batch)
    × (has_no_delimiter d.core_index_file_uri ≡ true)

split-serialize :
    (d : AnchoredData)
    → IsAnchorable d
    → split (serialize d) ≡ print_number d.number_of_operations ∷ d.core_index_file_uri ∷ []
unfolding serialize
split-serialize d (p, m, u) =
    split-append (print_number d.number_of_operations) d.core_index_file_uri (
      no_delimiter_of_digits (print_number d.number_of_operations)
        (all_digits-print_number d.number_of_operations))
    ∙ ap (λ t. print_number d.number_of_operations ∷ t) (split_one d.core_index_file_uri u)

deserialize-serialize : (d : AnchoredData) → IsAnchorable d → deserialize (serialize d) ≡ ok d
unfolding deserialize deserialize_parts parse_positive_integer
deserialize-serialize d (p, m, u) =
    rw
      (
        split-serialize d (p, m, u),
        positive-print_number d.number_of_operations p,
        read-print_number d.number_of_operations,
      )
      (elim (Bool-cases (ltb max_operations_per_batch d.number_of_operations)) [
        | inl b ↦ absurd (ground arith)
        | inr b ↦ rw b refl
      ])

parse_ok :
    (s : Text) (n : ℕ)
    → parse_positive_integer s ≡ ok n
    → (is_positive_integer s ≡ true) × (read_from 0 s ≡ n)
unfolding parse_positive_integer
parse_ok s n h = elim (Bool-cases (is_positive_integer s)) [
  | inl b ↦ (b, cc (h, b))
  | inr b ↦ absurd (cc (h, b))
]

within_batch :
    (uri : Text) (n : ℕ) (d : AnchoredData)
    → (if ltb max_operations_per_batch n
        then err (sidetree anchored_data_number_of_operations_greater_than_max)
        else ok (record { core_index_file_uri = uri; number_of_operations = n }))
      ≡ ok d
    → (n ≤ max_operations_per_batch)
      × (record { core_index_file_uri = uri; number_of_operations = n } ≡ d)
within_batch uri n d h = elim (Bool-cases (ltb max_operations_per_batch n)) [
  | inl b ↦ absurd (cc (h, b))
  | inr b ↦ (ground arith, cc (h, b))
]

parts_of_deserialize :
    (ps : List Text) (d : AnchoredData)
    → All (λ p. has_no_delimiter p ≡ true) ps
    → deserialize_parts ps ≡ ok d
    → IsAnchorable d × (serialize d ≡ join ps)
unfolding deserialize_parts parse_positive_integer serialize
parts_of_deserialize [] d a h = cc
parts_of_deserialize (p ∷ []) d a h = cc
parts_of_deserialize (p ∷ q ∷ r ∷ ps) d a h = cc
parts_of_deserialize (count ∷ uri ∷ []) d (a, b) h =
    let (n, p, w) = >>=-eq-ok (parse_positive_integer count) _ h in
    let (q, r) = parse_ok count n p in
    let (m, e) = within_batch uri n d w in
    rw (sym e, sym r) ((read-positive count q, rw r m, b.0), rw (print-read count q) refl)

-- The anchor strings that the node accepts are exactly the prints of the anchorable data: reading
-- such a string gives the data back, and whatever string is read prints back to itself.
pub deserialize_iff :
    (s : Text) (d : AnchoredData) → (deserialize s ≡ ok d) ↔ (IsAnchorable d × (s ≡ serialize d))
unfolding deserialize
deserialize_iff s d = (
  λ h.
      let (v, e) = parts_of_deserialize (split s) d (split-no_delimiter s) h in
      (v, sym (join-split s) ∙ sym e),
  λ (v, e). rw e (deserialize-serialize d v),
)
