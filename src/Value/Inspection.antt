-- ===== src/Value/Inspection.antt =====
-- The other helpers of src/modules/common/utils/dataValidations.util.ts: whether a value is empty, a value as an
-- array, and the values of an object.
use Prim.Native.String.{String}
use node_back_end_boilerplat.Prelude.{Bool, true, false, List, [], ◌∷◌, is_blank}
use node_back_end_boilerplat.Value.{
  Value, undefined, null, obj, arr, str, date, bool, num, Fields, end, field, Items, nil, cons,
}

-- `isEmpty`; a date is an object without keys.
unfoldable pub is_empty : Value → Bool
is_empty (str s) = is_blank s
is_empty (arr nil) = true
is_empty (arr (cons v xs)) = false
is_empty (obj end) = true
is_empty (obj (field k v o)) = false
is_empty undefined = true
is_empty null = true
is_empty (date t) = true
is_empty (bool b) = true
is_empty (num n) = true

-- The items of an array, and the values of an object's fields, as lists.
abbrev pub item_values : Items → List Value
item_values nil = []
item_values (cons v xs) = v ∷ item_values xs

abbrev pub field_values : Fields → List Value
field_values end = []
field_values (field k v o) = v ∷ field_values o

-- `normalizeToArray`
unfoldable pub normalize_to_array : Value → List Value
normalize_to_array (arr xs) = item_values xs
normalize_to_array undefined = undefined ∷ []
normalize_to_array null = null ∷ []
normalize_to_array (obj o) = obj o ∷ []
normalize_to_array (str s) = str s ∷ []
normalize_to_array (date t) = date t ∷ []
normalize_to_array (bool b) = bool b ∷ []
normalize_to_array (num n) = num n ∷ []

-- The characters of a text, which are its values.
abbrev pub character_values : String → List Value
character_values String.[] = []
character_values (String.◌∷◌ c s) = str (String.◌∷◌ c String.[]) ∷ character_values s

-- `getObjValues`
unfoldable pub get_obj_values : Value → List Value
get_obj_values undefined = []
get_obj_values null = []
get_obj_values (obj o) = field_values o
get_obj_values (arr xs) = item_values xs
get_obj_values (str s) = character_values s
get_obj_values (date t) = []
get_obj_values (bool b) = []
get_obj_values (num n) = []
