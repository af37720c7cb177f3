-- ===== src/Tests/Values.antt =====
-- Examples on values, exceptions and pages: src/modules/common/utils, core/errors and the query of
-- users.
use node_back_end_boilerplat.Value.{
  Value, str, num, undefined, null, arr, obj, nil, cons, end, field, Fields,
}
use node_back_end_boilerplat.Value.Masking.{mask_object_sensitive_data, sensitive_data_fields}
use node_back_end_boilerplat.Value.Masking.Hidden.{IsMasked, mask_object_sensitive_data-IsMasked}
use node_back_end_boilerplat.Prelude.{ℕ, refl, ◌≡◌, ◌≤◌, some, none, true, false, ◌↔◌}
use node_back_end_boilerplat.Strategy.{must_update}
use node_back_end_boilerplat.Repository.UserQuery.{
  UserBuildParams, build_pagination_params, total_pages, natural,
}
use node_back_end_boilerplat.Exceptions.{
  HttpException, parsed_kind, exception, http, conflict, plain_error,
}
use node_back_end_boilerplat.Strategy.Updates.{IsUpToDate, must_update-eq-false_iff}
use node_back_end_boilerplat.Repository.Users.{id_params}
use node_back_end_boilerplat.Repository.UserQuery.Pages.{first_page_unreachable}
use node_back_end_boilerplat.Exceptions.Laws.{parsed_kind-exception}

-- A login body, with a token below and a list of cards.
abbrev login_body : Value
login_body = obj (
    field "email" (str "ana@mail.dev") (
      field "password" (str "secret") (
        field "session" (obj (field "token" (str "t0") (field "age" (num 3) end)))
          (field "cards" (arr (cons (obj (field "cvv" (num 123) end)) (cons null nil))) end))))

abbrev masked_body : Value
masked_body = obj (
    field "email" (str "ana@mail.dev") (
      field "password" (str "***") (
        field "session" (obj (field "token" (str "***") (field "age" (num 3) end)))
          (field "cards" (arr (cons (obj (field "cvv" (str "***") end)) (cons null nil))) end))))

login_body_masked : mask_object_sensitive_data login_body ≡ masked_body
unfolding mask_object_sensitive_data
login_body_masked = refl

mask_object_sensitive_data-IsMasked_example :
    IsMasked (mask_object_sensitive_data login_body) sensitive_data_fields "***"
mask_object_sensitive_data-IsMasked_example = mask_object_sensitive_data-IsMasked login_body refl

-- An update of a name and of nothing else.
abbrev known_fields : Fields
known_fields = field "fullName" (str "Ana") (field "fu" (str "BA") end)

abbrev new_name : Fields
new_name = field "fullName" (str "Bia") (field "fu" undefined end)

must_update-eq-false_iff_example :
    (must_update (obj known_fields) (obj new_name) ≡ false) ↔ IsUpToDate known_fields new_name
must_update-eq-false_iff_example = must_update-eq-false_iff known_fields new_name (refl, (refl, tt))

name_written : must_update (obj known_fields) (obj new_name) ≡ true
unfolding must_update
name_written = refl

abbrev new_theme : Fields
new_theme = field "defaultTheme" (str "DARK") end

three_pages : total_pages 7 (some (natural 3)) ≡ some (natural 3)
unfolding total_pages
three_pages = refl

-- The request for the second page of three rows.
abbrev second_page : UserBuildParams
second_page = record (id_params "" true) {
  id = none;
  limit = some (natural 3);
  page = some (natural 1);
}

first_page_unreachable_example :
    (k : ℕ) × ((build_pagination_params second_page).skip ≡ some (natural k))
    × (natural 3 ≡ natural 3)
    × (3 ≤ k)
unfolding build_pagination_params
first_page_unreachable_example = first_page_unreachable second_page 3 1 (natural 3) refl refl refl

-- Half a page on, a window starts within the first rows.
abbrev half_page : UserBuildParams
half_page = record second_page {
  limit = some (natural 10);
  page = some (record { negative = false; top = 1; below = 1 });
}

half_page_skip :
    (build_pagination_params half_page).skip
    ≡ some (record { negative = false; top = 10; below = 1 })
unfolding build_pagination_params
half_page_skip = refl

parsed_kind-exception_example :
    parsed_kind (http (exception conflict (plain_error "taken") false)) ≡ conflict
parsed_kind-exception_example = parsed_kind-exception conflict (plain_error "taken") false

abbrev teapot : HttpException
teapot = record (exception conflict (plain_error "tea") false) { status = 418 }
