-- ===== src/Service/Preferences.antt =====
-- src/modules/app/user/services/UserPreference.service.ts.
use node_back_end_boilerplat.Prelude.{String, Bool, Option, none, some}
use node_back_end_boilerplat.Value.{undefined}
use node_back_end_boilerplat.Exceptions.{conflict, not_found}
use node_back_end_boilerplat.Effects.{Exec, lift, ◌>>=◌}
use node_back_end_boilerplat.Domain.Dates.{Clock}
use node_back_end_boilerplat.Domain.UserPreference
use node_back_end_boilerplat.Domain.UserPreference.{
  UserPreference, PreferenceValues, new_user_preference,
}
use node_back_end_boilerplat.Repository.Abstract
use node_back_end_boilerplat.Repository.Preferences.{
  PreferenceTable, preference_mapper, by_user, by_id,
}
use node_back_end_boilerplat.Service.Guarded.{or_caught, require_found}

-- The values that `update` writes: without the identifiers and the dates.
abbrev pub written_values : PreferenceValues → PreferenceValues
written_values values = record values {
  id = none;
  user_id = none;
  created_at = undefined;
  updated_at = none;
  deleted_at = none;
}

module _ {S : Type 0} (table : PreferenceTable S) (clock : Clock) where
  -- `getByUserId`
  unfoldable pub get_by_user_id : Option String → Exec S UserPreference
  unfolding Abstract.find_one
  get_by_user_id user_id = or_caught (do
    preference ← Abstract.find_one table (preference_mapper clock) (by_user user_id)
    require_found not_found "Preference not founded by userId!" preference)

  -- `create`
  unfoldable pub create : UserPreference → Exec S UserPreference
  unfolding Abstract.create
  create entity = or_caught (Abstract.create table (preference_mapper clock) entity)

  -- `update`
  unfoldable pub update : String → PreferenceValues → Exec S UserPreference
  unfolding Abstract.update new_user_preference UserPreference.get_attributes
  update id values = do
    built ← lift (new_user_preference clock values)
    or_caught (do
      updated ←
          Abstract.update table (preference_mapper clock) id (by_id (some id))
            (written_values (UserPreference.get_attributes built))
      require_found conflict "Preference not updated!" updated)

  -- `delete`
  unfoldable pub delete : String → Bool → Exec S Bool
  unfolding Abstract.delete_one
  delete id soft = or_caught (Abstract.delete_one table (preference_mapper clock) id soft)
