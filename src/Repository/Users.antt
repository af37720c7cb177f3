-- ===== src/Repository/Users.antt =====
-- src/modules/app/user/repositories/user: the mapper and the repository.
use node_back_end_boilerplat.Prelude.{
  ℕ, String, Bool, true, false, Option, none, some, if◌then◌else◌, or_else, List, [], ◌∷◌,
}
use node_back_end_boilerplat.Effects.{Result, ok, Exec, pure, lift, bind_result, ◌>>=◌, ◌>>◌}
use node_back_end_boilerplat.Domain.Dates.{Clock}
use node_back_end_boilerplat.Domain.UserPreference.{
  UserPreference, no_preference_values, new_user_preference,
}
use node_back_end_boilerplat.Domain.User.{
  User, UserValues, new_user, get_attributes, set_preference,
}
use node_back_end_boilerplat.Repository.UserQuery.{UserBuildParams, FindOptions, build_params}
use node_back_end_boilerplat.Repository.Abstract.{
  Table, Mapper, ListPage, or_internal, map_found, map_result, any_affected, list_page,
}

-- `if (!user.getPreference())`: a preference with the user as its owner is put in.
unfoldable pub ensure_preference : Clock → UserValues → User → Option UserPreference → Result User
unfolding new_user_preference set_preference
ensure_preference clock values user (some p) = ok user
ensure_preference clock values user none =
    bind_result
      (new_user_preference clock
        (record (or_else values.preference no_preference_values) { user_id = values.id }))
      λ p. ok (set_preference p user)

-- `toDomainEntity`
unfoldable pub to_domain_entity : Clock → UserValues → Result User
unfolding ensure_preference new_user
to_domain_entity clock values =
    bind_result (new_user clock values) λ user. ensure_preference clock values user user.preference

-- `toDatabaseEntity`: the attributes without the identifier and the preference.
unfoldable pub to_database_entity : User → UserValues
unfolding get_attributes
to_database_entity u =
    let attributes = get_attributes u in record attributes { id = none; preference = none }

-- What an update writes: attributes, of which the missing ones are left alone, or the agent of a
-- deletion.
pub data UserPatch : Type 0 where
  attributes : UserValues → UserPatch
  deleted_by : Option String → UserPatch

-- The queries: `{ where: { email } }`, `{ where: { id } }` and a built one.
pub data UserQuery : Type 0 where
  by_email : Option String → UserQuery
  by_id : String → UserQuery
  built : FindOptions → UserQuery

abbrev pub UserTable : Type 0 → Type 0
UserTable S = Table S UserValues UserValues UserPatch UserQuery

-- `userMapper`
abbrev pub user_mapper : Clock → Mapper UserValues User UserValues
user_mapper clock = record {
  to_domain_entity = to_domain_entity clock;
  to_database_entity = to_database_entity;
}

-- The parameters of a search by identifier.
abbrev pub id_params : String → Bool → UserBuildParams
id_params id without_password = record {
  limit = none;
  page = none;
  order = none;
  sort_by = none;
  search_term = none;
  select_soft_deleted = none;
  id = some id;
  full_name = none;
  email = none;
  phone = none;
  fu = none;
  doc_type = none;
  document = none;
  default_theme = none;
  without_password = without_password;
  without_sensitive_data = false;
}

module _ {S : Type 0} (table : UserTable S) (clock : Clock) where
  -- `getById`
  unfoldable pub get_by_id : String → Bool → Exec S (Option User)
  unfolding build_params
  get_by_id id without_password = or_internal (do
    found ← table.find_one (built (build_params (id_params id without_password)))
    lift (map_found (to_domain_entity clock) found))

  -- `list`; the query's own restrictions are replaced.
  unfoldable pub list : UserBuildParams → Bool → Exec S (ListPage User)
  unfolding build_params
  list query without_sensitive_data = or_internal (do
    (rows, n) ← table.find_and_count (
        built (
          build_params (record query {
            without_password = true;
            without_sensitive_data = without_sensitive_data;
          })))
    content ← lift (map_result (to_domain_entity clock) rows)
    pure (list_page content n query.limit query.page))

  -- `deleteOne`: the agent is written first.
  unfoldable pub delete_one : String → Bool → Option String → Exec S Bool
  delete_one id soft agent_id = or_internal (do
    table.update (id ∷ []) (deleted_by agent_id)
    affected ← if soft then table.soft_delete (id ∷ []) else table.delete (id ∷ [])
    pure (any_affected affected))

  -- `deleteMany`
  unfoldable pub delete_many : List String → Bool → Option String → Exec S ℕ
  delete_many ids soft agent_id = or_internal (do
    table.update ids (deleted_by agent_id)
    affected ← if soft then table.soft_delete ids else table.delete ids
    pure (or_else affected 0))
