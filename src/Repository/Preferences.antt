-- ===== src/Repository/Preferences.antt =====
-- src/modules/app/user/repositories/userPreference: the mapper, the query builder and the repository,
-- which adds nothing to the abstract one.
use node_back_end_boilerplat.Prelude.{String, Option, none, if◌then◌else◌, is_truthy}
use node_back_end_boilerplat.Domain.Dates.{Clock}
use node_back_end_boilerplat.Domain.UserPreference.{
  UserPreference, PreferenceValues, new_user_preference, get_attributes,
}
use node_back_end_boilerplat.Repository.Abstract.{Table, Mapper}

-- `toDatabaseEntity`: without the identifier, and the owner as `user: { id }`.
unfoldable pub to_database_entity : UserPreference → PreferenceValues
unfolding get_attributes
to_database_entity p =
    let attributes = get_attributes p in
    record attributes { id = none; user_id = none; user = attributes.user_id }

-- `UserPreferenceBuildParamsInterface` and `FindOptionsWhere<UserPreferencesModel>`
pub record PreferenceFilter : Type 0 where
  pub id : Option String
  pub user_id : Option String
  pub image_path : Option String
  pub default_theme : Option String

abbrev pub no_filter : PreferenceFilter
no_filter = record { id = none; user_id = none; image_path = none; default_theme = none }

abbrev pub when_given : Option String → Option String
when_given text = if is_truthy text then text else none

-- `buildWhereParams`: by identifier, else by owner, else by path and theme.
unfoldable pub build_where_params : PreferenceFilter → PreferenceFilter
build_where_params params =
    if is_truthy params.id
    then record no_filter { id = params.id }
    else if is_truthy params.user_id
    then record no_filter { user_id = params.user_id }
    else record no_filter {
      image_path = when_given params.image_path;
      default_theme = when_given params.default_theme;
    }

-- The queries that the service makes: `{ where: { user: { id } } }` and `{ where: { id } }`.
pub data PreferenceQuery : Type 0 where
  by_user by_id : Option String → PreferenceQuery
  built : PreferenceFilter → PreferenceQuery

abbrev pub PreferenceTable : Type 0 → Type 0
PreferenceTable S = Table S PreferenceValues PreferenceValues PreferenceValues PreferenceQuery

-- `userPreferenceMapper`
abbrev pub preference_mapper : Clock → Mapper PreferenceValues UserPreference PreferenceValues
preference_mapper clock = record {
  to_domain_entity = new_user_preference clock;
  to_database_entity = to_database_entity;
}
