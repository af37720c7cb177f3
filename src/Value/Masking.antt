-- ===== src/Value/Masking.antt =====
-- src/modules/common/utils/objectRecursiveFunctions.util.ts and masks.util.ts. The names searched
-- for are no array indices and no inherited properties, as in the lists of both callers, so an
-- array has no such key of its own and is walked item by item. `cloneObject` copies, and a tree
-- value is its own copy.
pub mod Laws
pub mod Hidden
pub mod Alike
use node_back_end_boilerplat.Prelude.{
  String, Bool, true, false, ◌==◌, ◌&&◌, ◌||◌, if◌then◌else◌, List, [], ◌∷◌, any, includes,
}
use node_back_end_boilerplat.Value.{
  Value, undefined, null, bool, num, str, date, arr, obj, Items, nil, cons, Fields, end, field,
  is_object, is_defined, is_null_or_undefined, keys,
}

-- `hasFieldsAtCurrentObjectLevel`
unfoldable pub has_fields_at_current_object_level : Fields → List String → Bool
has_fields_at_current_object_level o fields = any (includes fields) (keys o)

-- `checkFieldsExistence`: at its own level first, then in each value.
unfoldable mutual
  unfolding has_fields_at_current_object_level

  pub check_fields_existence : Value → List String → Bool
  check_fields_existence (arr xs) fields = check_items xs fields
  check_fields_existence (obj o) fields =
      has_fields_at_current_object_level o fields || check_values o fields
  check_fields_existence _ fields = false

  pub check_items : Items → List String → Bool
  check_items nil fields = false
  check_items (cons v xs) fields = check_fields_existence v fields || check_items xs fields

  pub check_values : Fields → List String → Bool
  check_values end fields = false
  check_values (field k v o) fields = check_fields_existence v fields || check_values o fields

-- One round of `applyFieldReplacement`: `if (obj[key] !== undefined) obj[key] = valueToReplace`.
unfoldable pub replace_key : String → Value → Fields → Fields
replace_key key r end = end
replace_key key r (field k v o) =
    field k (if k == key && is_defined v then r else v) (replace_key key r o)

unfoldable pub apply_field_replacement : Fields → List String → Value → Fields
unfolding replace_key
apply_field_replacement o [] r = o
apply_field_replacement o (key ∷ fields) r = apply_field_replacement (replace_key key r o) fields r

-- The walk of `replaceFields`: the values below first, then the object's own keys.
unfoldable mutual
  unfolding apply_field_replacement

  pub replace_value : Value → List String → Value → Value
  replace_value (arr xs) fields r = arr (replace_items xs fields r)
  replace_value (obj o) fields r =
      obj (apply_field_replacement (replace_values o fields r) fields r)
  replace_value v fields r = v

  pub replace_items : Items → List String → Value → Items
  replace_items nil fields r = nil
  replace_items (cons v xs) fields r = cons (replace_value v fields r) (replace_items xs fields r)

  pub replace_values : Fields → List String → Value → Fields
  replace_values end fields r = end
  replace_values (field k v o) fields r =
      field k (replace_value v fields r) (replace_values o fields r)

-- `replaceFields`
unfoldable pub replace_fields : Value → List String → Value → Value
unfolding replace_value
replace_fields v fields r = if is_null_or_undefined v then null else replace_value v fields r

-- `SENSITIVE_DATA_FIELDS` and `STRING_TO_REPLACE`
abbrev pub sensitive_data_fields : List String
sensitive_data_fields = "password" ∷ "newPassword" ∷ "cvv" ∷ "pin" ∷ "token" ∷ []

abbrev pub string_to_replace : Value
string_to_replace = str "***"

-- `maskObjectSensitiveData`
unfoldable pub mask_object_sensitive_data : Value → Value
unfolding check_fields_existence replace_fields
mask_object_sensitive_data v =
    if is_object v
    then if check_fields_existence v sensitive_data_fields
      then replace_fields v sensitive_data_fields string_to_replace
      else v
    else null
