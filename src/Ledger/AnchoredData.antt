-- ===== src/Ledger/AnchoredData.antt =====
-- packages/core/src/AnchoredDataSerializer.ts: the anchor string, `<count>.<uri>`.
pub mod Numerals
pub mod RoundTrip
use sidetree_js.Prelude.{
  ℕ, zero, suc, ◌+◌, ◌-◌, ◌*◌, ◌/◌, ◌%◌, ◌≤◌, ◌<◌, max, ◌≡◌, refl, sym, ap, ◌∙◌, ◌≢◌, ◌↔◌, ◌⊎◌, inl,
  inr, Bool, true, false, not, ◌&&◌, ◌||◌, Option, none, some, List, [], ◌∷◌, ◌++◌, map, append-nil,
  append_assoc, arith, ltb, leb, ◌==◌, if◌then◌else◌, ltb→lt, leb→le, ==_iff, Bool-cases,
  Option-cases, length, get_elem?, take, drop, filter, length-append, All, All-append, All-filter,
  All-of_mem,
}
use sidetree_js.Prelude.Text.{
  Text, codes, text_eq, text_eq_sound, text_eq_refl, text_eq_iff, member, Distinct,
}
use sidetree_js.Errors.{
  ErrorCode, Failure, sidetree, unexpected, Result, ok, err, ◌>>=◌, ◌>>◌, throw_if, >>=-eq-ok,
  Result-cases,
}
use sidetree_js.Errors.{
  anchored_data_incorrect_format, anchored_data_number_of_operations_greater_than_max,
  anchored_data_number_of_operations_not_positive_integer,
}
use sidetree_js.Parameters.{max_operations_per_batch}

-- packages/common/src/models/AnchoredData.ts
pub record AnchoredData : Type 0 where
  pub core_index_file_uri : Text
  pub number_of_operations : ℕ

abbrev pub delimiter : ℕ
delimiter = b'.'

-- The digits of a number in front of a text, by division: what `${n}` prints. The fuel is the number
-- itself, which is more than its digits.
unfoldable pub print_from : ℕ → ℕ → Text → Text
print_from zero n rest = (b'0' + n % 10) ∷ rest
print_from (suc fuel) n rest =
    let more = print_from fuel (n / 10) ((b'0' + n % 10) ∷ rest) in
    if ltb n 10 then (b'0' + n % 10) ∷ rest else more

unfoldable pub print_number : ℕ → Text
print_number n = print_from n n []

unfoldable pub serialize : AnchoredData → Text
serialize d = print_number d.number_of_operations ++ (delimiter ∷ d.core_index_file_uri)

-- One character of `s.split('.')`: a delimiter opens a part, another character joins the first.
unfoldable pub push_char : Bool → ℕ → List Text → List Text
push_char true c parts = [] ∷ parts
push_char false c [] = (c ∷ []) ∷ []
push_char false c (p ∷ ps) = (c ∷ p) ∷ ps

-- `s.split('.')`
unfoldable pub split : Text → List Text
unfolding push_char
split [] = [] ∷ []
split (c ∷ s) = push_char (c == delimiter) c (split s)

-- `\d`
abbrev pub is_digit : ℕ → Bool
is_digit c = leb b'0' c && leb c b'9'

abbrev pub all_digits : Text → Bool
all_digits [] = true
all_digits (c ∷ s) = is_digit c && all_digits s

-- `/^[1-9]\d*$/`
unfoldable pub is_positive_integer : Text → Bool
is_positive_integer [] = false
is_positive_integer (c ∷ s) = leb b'1' c && leb c b'9' && all_digits s

-- `Number(input)` on digits
unfoldable pub read_from : ℕ → Text → ℕ
read_from acc [] = acc
read_from acc (c ∷ s) = read_from (acc * 10 + (c - b'0')) s

unfoldable pub parse_positive_integer : Text → Result ℕ
unfolding is_positive_integer read_from
parse_positive_integer input =
    if not (is_positive_integer input)
    then err (sidetree anchored_data_number_of_operations_not_positive_integer)
    else ok (read_from 0 input)

-- the rest of `deserialize`, on the parts
unfoldable pub deserialize_parts : List Text → Result AnchoredData
deserialize_parts (count ∷ uri ∷ []) = do
  number_of_operations ← parse_positive_integer count
  if ltb max_operations_per_batch number_of_operations
      then err (sidetree anchored_data_number_of_operations_greater_than_max)
      else ok (record { core_index_file_uri = uri; number_of_operations = number_of_operations })
deserialize_parts _ = err (sidetree anchored_data_incorrect_format)

unfoldable pub deserialize : Text → Result AnchoredData
deserialize serialized_data = deserialize_parts (split serialized_data)
