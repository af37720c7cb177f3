-- ===== src/Value.antt =====
-- JavaScript values as the program's helpers walk them, from the `unknown` and `object` arguments of
-- src/modules/common/utils and src/modules/app/user/strategies. Objects are trees: a value that
-- contains itself is outside the model. A `date` is a `Date`, an object with no key of its own.
pub mod Masking
pub mod Inspection
use node_back_end_boilerplat.Prelude.{
  ℕ, String, Bool, true, false, ◌==◌, if◌then◌else◌, List, [], ◌∷◌, Option, not, eqb, some,
  is_blank, none,
}

mutual
  pub data Value : Type 0 where
    undefined : Value
    null : Value
    obj : Fields → Value
    arr : Items → Value
    str : String → Value
    date : ℕ → Value
    bool : Bool → Value
    num : ℕ → Value

  pub data Fields : Type 0 where
    end : Fields
    field : String → Value → Fields → Fields

  pub data Items : Type 0 where
    nil : Items
    cons : Value → Items → Items

-- `typeof value === 'object' && value`
abbrev pub is_object : Value → Bool
is_object (date t) = true
is_object (arr xs) = true
is_object (obj o) = true
is_object _ = false

abbrev pub is_null : Value → Bool
is_null null = true
is_null _ = false

abbrev pub is_defined : Value → Bool
is_defined undefined = false
is_defined _ = true

-- `isNullOrUndefined`
abbrev pub is_null_or_undefined : Value → Bool
is_null_or_undefined undefined = true
is_null_or_undefined null = true
is_null_or_undefined _ = false

-- `Object.keys` of an object.
abbrev pub keys : Fields → List String
keys end = []
keys (field k v o) = k ∷ keys o

-- `o[key]`, `undefined` on a missing key.
abbrev pub get : String → Fields → Value
get key end = undefined
get key (field k v o) = if k == key then v else get key o

-- The truth of a value in a condition.
abbrev pub truthy : Value → Bool
truthy undefined = false
truthy null = false
truthy (bool b) = b
truthy (num n) = not (eqb n 0)
truthy (str s) = not (is_blank s)
truthy _ = true

-- `a ?? b`
abbrev pub or_value : Value → Value → Value
or_value undefined b = b
or_value null b = b
or_value a b = a

-- `{ ...a, ...b }`: a key of `b` hides one of `a`.
abbrev pub spread : Fields → Fields → Fields
spread a end = a
spread a (field k v b) = field k v (spread a b)

-- The own fields that `...value` brings.
abbrev pub fields_of : Value → Fields
fields_of (obj o) = o
fields_of _ = end

-- `===` on values that are not objects; two objects met here are never the same one.
abbrev pub strict_eq : Value → Value → Bool
strict_eq undefined undefined = true
strict_eq null null = true
strict_eq (bool true) (bool b) = b
strict_eq (bool false) (bool b) = not b
strict_eq (num m) (num n) = eqb m n
strict_eq (str s) (str t) = s == t
strict_eq _ _ = false

-- An optional text as a value.
abbrev pub text_value : Option String → Value
text_value none = undefined
text_value (some s) = str s
