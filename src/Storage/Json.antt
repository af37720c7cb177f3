-- ===== src/Storage/Json.antt =====
pub mod Written
-- src/modules/common/utils/helpers/DataParser.helper.ts: `toString` of values that are no errors and
use node_back_end_boilerplat.Prelude.{String, Bool, Option, if◌then◌else◌, or_else, join_text}
use node_back_end_boilerplat.Value.{Value, undefined, null, str, date, arr, obj, Items, nil, cons}

-- `toObject`. Values are trees, so no array or object meets itself.

-- `JSON.parse`, `none` where it throws; `JSON.stringify` of an object, and `String` of a value that is
-- neither an object nor a text.
pub record Json : Type 0 where
  pub parse : String → Option Value
  pub stringify : Value → String
  pub string_of : Value → String

module _ (json : Json) where
  -- `toString` and `parseArrayToString`
  unfoldable mutual
    pub to_string : Value → Bool → String
    to_string (str s) returns_undefined = s
    to_string undefined returns_undefined = if returns_undefined then "undefined" else ""
    to_string (arr xs) returns_undefined =
        join_text "[" (join_text (array_text xs returns_undefined) "]")
    to_string (obj o) returns_undefined = json.stringify (obj o)
    to_string (date t) returns_undefined = json.stringify (date t)
    to_string v returns_undefined = json.string_of v

    pub array_text : Items → Bool → String
    array_text nil returns_undefined = ""
    array_text (cons v nil) returns_undefined = to_string v returns_undefined
    array_text (cons v (cons w xs)) returns_undefined =
        join_text (to_string v returns_undefined)
          (join_text "," (array_text (cons w xs) returns_undefined))

  -- `toObject`: `null` where `JSON.parse` throws.
  unfoldable pub to_object : String → Value
  to_object text = or_else (json.parse text) null
