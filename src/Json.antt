-- ===== src/Json.antt =====
-- JSON values: what `JSON.parse` returns, and how JavaScript reads them. An object's fields are in
-- the order of its text; `JSON.parse` keeps one field of a name. A value that may be `undefined` is
-- an `Option`.
pub mod Typing
use sidetree_js.Prelude.{
  ℕ, zero, suc, ◌+◌, ◌-◌, ◌*◌, ◌/◌, ◌%◌, ◌≤◌, ◌<◌, max, ◌≡◌, refl, sym, ap, ◌∙◌, ◌≢◌, ◌↔◌, ◌⊎◌, inl,
  inr, Bool, true, false, not, ◌&&◌, ◌||◌, Option, none, some, List, [], ◌∷◌, ◌++◌, map, append-nil,
  append_assoc, arith, ltb, leb, ◌==◌, if◌then◌else◌, ltb→lt, leb→le, ==_iff, Bool-cases,
  Option-cases, length, get_elem?, take, drop, filter, length-append, All, All-append, All-filter,
  All-of_mem, All-at_mem,
}
use sidetree_js.Prelude.Text.{
  Text, codes, text_eq, text_eq_sound, text_eq_refl, text_eq_iff, member, Distinct,
}
use sidetree_js.Errors.{
  ErrorCode, Failure, sidetree, unexpected, Result, ok, err, ◌>>=◌, ◌>>◌, throw_if, >>=-eq-ok,
  Result-cases,
}

mutual
  pub data Json : Type 0 where
    null : Json
    bool : Bool → Json
    num : ℕ → Json
    str : Text → Json
    arr : Items → Json
    obj : Fields → Json

  pub data Items : Type 0 where
    nil : Items
    cons : Json → Items → Items

  pub data Fields : Type 0 where
    end : Fields
    field : Text → Json → Fields → Fields

unfoldable pub field_of : Text → Fields → Option Json
field_of name end = none
field_of name (field key value fields) =
    let rest = field_of name fields in if text_eq key name then some value else rest

-- `value.name`, which throws on `null`. No name that the code reads is one that arrays and strings
-- have.
unfoldable pub property : Json → Text → Result (Option Json)
property null name = err unexpected
property (obj fields) name = ok (field_of name fields)
property _ name = ok none

unfoldable pub count_items : Items → ℕ
count_items nil = 0
count_items (cons item items) = suc (count_items items)

unfoldable pub count_fields : Fields → ℕ
count_fields end = 0
count_fields (field key value fields) = suc (count_fields fields)

-- `Object.keys(value).length`: an array or a string has its indices
unfoldable pub count_properties : Json → Result ℕ
count_properties null = err unexpected
count_properties (bool b) = ok 0
count_properties (num n) = ok 0
count_properties (str s) = ok (length s)
count_properties (arr items) = ok (count_items items)
count_properties (obj fields) = ok (count_fields fields)

unfoldable pub all_fields_in : List Text → Fields → Bool
all_fields_in allowed end = true
all_fields_in allowed (field key value fields) = member key allowed && all_fields_in allowed fields

-- Does `for (const property in value)` meet only allowed properties? It meets the indices of an
-- array or a string, which no list allows, and nothing of `null`, a number or a Boolean.
unfoldable pub has_only : List Text → Json → Bool
has_only allowed (str []) = true
has_only allowed (str (c ∷ s)) = false
has_only allowed (arr nil) = true
has_only allowed (arr (cons item items)) = false
has_only allowed (obj fields) = all_fields_in allowed fields
has_only allowed _ = true

-- `value === text`
unfoldable pub is_text : Option Json → Text → Bool
is_text (some (str s)) text = text_eq s text
is_text _ text = false
