-- ===== src/Domain/UserPreference.antt =====
-- src/modules/domain/entities/UserPreference.entity.ts. A field that no constructor assigned is
-- `none`, and so is a nullable field that holds `null`.
pub mod Laws
use node_back_end_boilerplat.Prelude.{
  ℕ, String, Bool, ◌==◌, if◌then◌else◌, Option, none, some, List, [], ◌∷◌, includes, or_option,
  is_some, is_blank, join_text,
}
use node_back_end_boilerplat.Value.{Value, date, undefined}
use node_back_end_boilerplat.Exceptions.{native, plain_error}
use node_back_end_boilerplat.Effects.{Result, ok, err, bind_result}
use node_back_end_boilerplat.Domain.Dates.{Clock, get_date}

-- The values of `ThemesEnum`.
abbrev pub theme_values : List String
theme_values = "DEFAULT" ∷ "LIGHT" ∷ "DARK" ∷ []

pub record UserPreference : Type 0 where
  pub id : Option String
  pub user_id : Option String
  pub image_path : Option String
  pub default_theme : Option String
  pub created_at : ℕ
  pub updated_at : Option ℕ
  pub deleted_at : Option ℕ

-- `UserPreferenceInterface`, and the register that a constructor is given: `user` is the identifier
-- of the related user there.
pub record PreferenceValues : Type 0 where
  pub id : Option String
  pub user_id : Option String
  pub user : Option String
  pub image_path : Option String
  pub default_theme : Option String
  pub created_at : Value
  pub updated_at : Option ℕ
  pub deleted_at : Option ℕ

abbrev pub no_preference_values : PreferenceValues
no_preference_values = record {
  id = none;
  user_id = none;
  user = none;
  image_path = none;
  default_theme = none;
  created_at = undefined;
  updated_at = none;
  deleted_at = none;
}

-- `getUserIdFromDataValues`
unfoldable pub get_user_id_from_data_values : PreferenceValues → Option String
get_user_id_from_data_values values = or_option values.user_id values.user

-- `setDefaultTheme`
unfoldable pub set_default_theme : String → UserPreference → Result UserPreference
set_default_theme theme p =
    if includes theme_values theme
    then ok (record p { default_theme = some theme })
    else err (
        native (
          plain_error (
            join_text "Invalid theme value: "
              (join_text theme ". Valid values are: DEFAULT, LIGHT, DARK"))))

-- The conditional call of `setDefaultTheme` in the constructor.
abbrev pub assign_theme : Option String → UserPreference → Result UserPreference
assign_theme none p = ok p
assign_theme (some theme) p = set_default_theme theme p

-- `constructor`
unfoldable pub new_user_preference : Clock → PreferenceValues → Result UserPreference
unfolding get_user_id_from_data_values set_default_theme get_date
new_user_preference clock values = assign_theme values.default_theme (record {
  id = values.id;
  user_id = get_user_id_from_data_values values;
  image_path = values.image_path;
  default_theme = none;
  created_at = get_date clock values.created_at;
  updated_at = values.updated_at;
  deleted_at = values.deleted_at;
})

-- `getAttributes`
unfoldable pub get_attributes : UserPreference → PreferenceValues
get_attributes p = record {
  id = p.id;
  user_id = p.user_id;
  user = none;
  image_path = p.image_path;
  default_theme = p.default_theme;
  created_at = date p.created_at;
  updated_at = p.updated_at;
  deleted_at = p.deleted_at;
}

-- `setId`
unfoldable pub set_id : String → UserPreference → UserPreference
set_id id p = if is_blank id then p else record p { id = some id }

-- `setUserId`
unfoldable pub set_user_id : String → UserPreference → UserPreference
set_user_id user_id p = if is_blank user_id then p else record p { user_id = some user_id }

-- `setImagePath`
unfoldable pub set_image_path : String → UserPreference → UserPreference
set_image_path path p = record p { image_path = some path }
