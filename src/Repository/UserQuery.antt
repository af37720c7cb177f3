-- ===== src/Repository/UserQuery.antt =====
-- src/modules/app/user/repositories/user/user.query.ts, and the page figures of
-- core/infra/database/repositories/AbstractRepository.repository.ts. `limit` and `page` are decimal
-- numbers, which Joi's `number` admits, and a missing one is `none`.
pub mod Pages
use node_back_end_boilerplat.Prelude.{
  ℕ, zero, suc, String, Bool, true, false, not, Option, none, some, if◌then◌else◌, or_else, ◌*◌,
  is_blank, is_truthy, ◌+◌, ◌-◌, ◌||◌, ◌/◌, eqb, ◌&&◌,
}
use node_back_end_boilerplat.Domain.User.{User}

-- A number of a query: `top / (below + 1)`, or its opposite.
pub record Decimal : Type 0 where
  pub negative : Bool
  pub top : ℕ
  pub below : ℕ

abbrev pub natural : ℕ → Decimal
natural n = record { negative = false; top = n; below = 0 }

abbrev pub is_above_zero : ℕ → Bool
is_above_zero zero = false
is_above_zero (suc n) = true

-- A number is true unless it is 0.
abbrev pub is_truthy_number : Decimal → Bool
is_truthy_number d = is_above_zero d.top

-- `a * b`
abbrev pub times : Decimal → Decimal → Decimal
times a b = record {
  negative = if a.negative then not b.negative else b.negative;
  top = a.top * b.top;
  below = (a.below + 1) * (b.below + 1) - 1;
}

-- `UserBuildParamsInterface`: `ListQueryInterface`, the attributes that are read, and the two
-- restrictions. `default_theme` is `preference?.defaultTheme`.
pub record UserBuildParams : Type 0 where
  pub limit : Option Decimal
  pub page : Option Decimal
  pub order : Option String
  pub sort_by : Option String
  pub search_term : Option String
  pub select_soft_deleted : Option Bool
  pub id : Option String
  pub full_name : Option String
  pub email : Option String
  pub phone : Option String
  pub fu : Option String
  pub doc_type : Option String
  pub document : Option String
  pub default_theme : Option String
  pub without_password : Bool
  pub without_sensitive_data : Bool

-- The columns that a caller can turn off; the other ten are always selected.
pub record UserSelect : Type 0 where
  pub password : Bool
  pub phone : Bool
  pub document : Bool

-- `buildSelectParams`
unfoldable pub build_select_params : UserBuildParams → UserSelect
build_select_params params = record {
  password = not params.without_password;
  phone = not params.without_sensitive_data;
  document = not params.without_sensitive_data;
}

-- A text to be equal to, or to be contained.
pub data Match : Type 0 where
  equal like : String → Match

-- `FindOptionsWhere<UsersModel>`; `deleted` is `deletedAt: Not(IsNull())`.
pub record UserWhere : Type 0 where
  pub deleted : Bool
  pub id : Option String
  pub email : Option String
  pub document : Option String
  pub doc_type : Option String
  pub fu : Option String
  pub phone : Option String
  pub full_name : Option Match
  pub default_theme : Option String

-- `if (text) where.field = text`
abbrev pub when_given : Option String → Option String
when_given text = if is_truthy text then text else none

abbrev pub when_given_match : Option String → (String → Match) → Option Match → Option Match
when_given_match none f before = before
when_given_match (some s) f before = if is_blank s then before else some (f s)

-- `buildWhereParams`
unfoldable pub build_where_params : UserBuildParams → UserWhere
build_where_params params =
    let deleted = or_else params.select_soft_deleted false in
    if is_truthy params.id
    then record {
      deleted = deleted;
      id = params.id;
      email = none;
      document = none;
      doc_type = none;
      fu = none;
      phone = none;
      full_name = none;
      default_theme = none;
    }
    else record {
      deleted = deleted;
      id = none;
      email = when_given params.email;
      document = when_given params.document;
      doc_type = when_given params.doc_type;
      fu = when_given params.fu;
      phone = when_given params.phone;
      full_name =
          when_given_match params.search_term like (when_given_match params.full_name equal none);
      default_theme = when_given params.default_theme;
    }

-- `PaginationOptionsInterface`: `take`, `skip` and the column and direction of `order`.
pub record Pagination : Type 0 where
  pub take : Option Decimal
  pub skip : Option Decimal
  pub order : Option (String × String)

-- `limit && page`
abbrev pub page_window : Option Decimal → Option Decimal → Option (Decimal × Decimal)
page_window (some l) (some p) =
    if is_truthy_number l && is_truthy_number p then some (l, times p l) else none
page_window limit page = none

abbrev pub taken : Option (Decimal × Decimal) → Option Decimal
taken none = none
taken (some (t, k)) = some t

abbrev pub skipped : Option (Decimal × Decimal) → Option Decimal
skipped none = none
skipped (some (t, k)) = some k

abbrev pub list_order : Option String → Option String → Option (String × String)
list_order sort_by order =
    if is_truthy sort_by || is_truthy order
    then some (or_else sort_by "createdAt", or_else order "ASC")
    else none

-- `buildPaginationParams`
unfoldable pub build_pagination_params : UserBuildParams → Pagination
build_pagination_params params = record {
  take = taken (page_window params.limit params.page);
  skip = skipped (page_window params.limit params.page);
  order = list_order params.sort_by params.order;
}

-- What `buildParams` hands to the database; the relation to the preference is always loaded.
pub record FindOptions : Type 0 where
  pub select : UserSelect
  pub where_ : UserWhere
  pub pagination : Pagination

-- `buildParams`
unfoldable pub build_params : UserBuildParams → FindOptions
unfolding build_select_params build_where_params build_pagination_params
build_params params = record {
  select = build_select_params params;
  where_ = build_where_params params;
  pagination = build_pagination_params params;
}

-- `Math.ceil(n / limit) || 1` of the limit's sign, `top` and `below`; a division by 0 of an `n` that
-- is not 0 is infinite, `none`.
abbrev pub ceiling : ℕ → Bool → ℕ → ℕ → Option Decimal
ceiling zero negative top below = some (natural 1)
ceiling (suc n) negative zero below = none
ceiling (suc n) false (suc t) below = some (natural ((suc n * (below + 1) + suc t - 1) / suc t))
ceiling (suc n) true (suc t) below =
    let whole = suc n * (below + 1) / suc t in
    some (if eqb whole 0 then natural 1 else record { negative = true; top = whole; below = 0 })

-- `Math.ceil(totalItems / (limit ?? 1)) || 1`
unfoldable pub total_pages : ℕ → Option Decimal → Option Decimal
total_pages n limit = let by = or_else limit (natural 1) in ceiling n by.negative by.top by.below
