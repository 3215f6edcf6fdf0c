-- ===== src/Json/Typing.antt =====
-- The tests on the type of a JSON value that the code makes before it uses the value at that type:
-- each returns the value at the type, or throws the given error.
use sidetree_js.Prelude.{◌≡◌, Option, none, some}
use sidetree_js.Prelude.Text.{Text}
use sidetree_js.Errors.{ErrorCode, sidetree, Result, ok, err}
use sidetree_js.Json.{Json, Items, null, bool, num, str, arr, obj}

-- `if (typeof value !== 'string') { throw ... }`
unfoldable pub string_or : ErrorCode → Option Json → Result Text
string_or code (some (str s)) = ok s
string_or code _ = err (sidetree code)

-- `if (!Array.isArray(value)) { throw ... }`
unfoldable pub array_or : ErrorCode → Option Json → Result Items
array_or code (some (arr items)) = ok items
array_or code _ = err (sidetree code)

pub string_or-eq-ok :
    (code : ErrorCode) (value : Option Json) (s : Text)
    → string_or code value ≡ ok s
    → value ≡ some (str s)
unfolding string_or
string_or-eq-ok code none s h = cc
string_or-eq-ok code (some null) s h = cc
string_or-eq-ok code (some (bool b)) s h = cc
string_or-eq-ok code (some (num n)) s h = cc
string_or-eq-ok code (some (str t)) s h = cc
string_or-eq-ok code (some (arr items)) s h = cc
string_or-eq-ok code (some (obj fields)) s h = cc
