-- ===== src/Strategy.antt =====
-- src/modules/app/user/strategies/User.strategy.ts.
pub mod Updates
use node_back_end_boilerplat.Prelude.{
  Bool, true, false, not, ◌&&◌, ◌||◌, if◌then◌else◌, Option, ℕ, zero, suc, ◌+◌, String,
}
use node_back_end_boilerplat.Value.{
  Value, undefined, null, bool, num, str, date, arr, obj, Items, nil, cons, Fields, end, field,
  is_object, is_defined, get, truthy, strict_eq, text_value,
}
use node_back_end_boilerplat.Domain.User.{User}

-- `UserAuthInterface`
pub record UserAuth : Type 0 where
  pub username : Value
  pub client_id : Value

-- `isAllowedToManageUser`
unfoldable pub is_allowed_to_manage_user : UserAuth → User → Bool
is_allowed_to_manage_user agent user =
    strict_eq agent.username (text_value user.email)
    && strict_eq agent.client_id (text_value user.id)

-- `value[i]` for an array index.
abbrev pub item : Items → ℕ → Value
item nil i = undefined
item (cons v xs) zero = v
item (cons v xs) (suc i) = item xs i

-- `entityAttributes[key]`
abbrev pub property : Value → String → Value
property (obj o) key = get key o
property _ key = undefined

abbrev pub item_property : Value → ℕ → Value
item_property (arr xs) i = item xs i
item_property _ i = undefined

-- `mustUpdate`. The input is an object, an array of an object's or a date, which has no key. An
-- attribute that the input gives as an array is an array or missing.
unfoldable mutual
  pub must_update : Value → Value → Bool
  must_update entity (obj o) = truthy entity && fields_changed entity o
  must_update entity (arr xs) = truthy entity && items_changed entity 0 xs
  must_update entity _ = false

  pub fields_changed : Value → Fields → Bool
  fields_changed entity end = false
  fields_changed entity (field key v o) =
      is_defined v
        && (if is_object v
            then must_update (property entity key) v
            else not (strict_eq v (property entity key)))
      || fields_changed entity o

  pub items_changed : Value → ℕ → Items → Bool
  items_changed entity i nil = false
  items_changed entity i (cons v xs) =
      is_defined v
        && (if is_object v
            then must_update (item_property entity i) v
            else not (strict_eq v (item_property entity i)))
      || items_changed entity (i + 1) xs
