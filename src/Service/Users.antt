-- ===== src/Service/Users.antt =====
-- src/modules/app/user/services/User.service.ts; passwords are in Password.antt. The salt of a new
-- password is an argument, as bcrypt draws it.
use node_back_end_boilerplat.Prelude.{
  String, Bool, true, Option, none, some, if◌then◌else◌, is_truthy, or_else,
}
use node_back_end_boilerplat.Value.{undefined}
use node_back_end_boilerplat.Exceptions.{business, conflict, not_found, plain_error}
use node_back_end_boilerplat.Effects.{Exec, pure, lift, fail, ◌>>=◌, ◌>>◌}
use node_back_end_boilerplat.Domain.Dates.{Clock}
use node_back_end_boilerplat.Domain.User
use node_back_end_boilerplat.Domain.User.{User, UserValues, new_user, set_password}
use node_back_end_boilerplat.Password.{Crypto, protect_password}
use node_back_end_boilerplat.Repository.UserQuery.{UserBuildParams}
use node_back_end_boilerplat.Repository.Abstract
use node_back_end_boilerplat.Repository.Abstract.{ListPage}
use node_back_end_boilerplat.Repository.Users
use node_back_end_boilerplat.Repository.Users.{UserTable, by_email, by_id, attributes, user_mapper}
use node_back_end_boilerplat.Service.Guarded.{or_caught, require_found}

-- The password of an entity, if it has one that is not empty.
abbrev pub given_password : Option String → Option String
given_password password = if is_truthy password then password else none

abbrev pub is_taken : {S : Type 0} → Option User → Exec S (Unit {0})
is_taken none = pure tt
is_taken (some u) = fail conflict (plain_error "E-mail already in use!")

-- The values that `update` writes: without the identifier, the preference and the dates.
abbrev pub written_values : UserValues → UserValues
written_values values = record values {
  id = none;
  preference = none;
  created_at = undefined;
  updated_at = none;
  deleted_at = none;
}

-- `if (userPassword?.length) userData.password = this.protectPassword(userPassword)`
abbrev pub protect_values : {S : Type 0} → Crypto → String → UserValues → Exec S UserValues
protect_values crypto salt values =
    if is_truthy values.password
    then (do
      protected ← lift (protect_password crypto salt (or_else values.password ""))
      pure (record values { password = some protected }))
    else pure values

module _ {S : Type 0} (table : UserTable S) (clock : Clock) where
  -- `getById`
  unfoldable pub get_by_id : String → Bool → Exec S User
  unfolding Users.get_by_id
  get_by_id id without_password = or_caught (do
    user ← Users.get_by_id table clock id without_password
    require_found not_found "User not founded by ID!" user)

  -- `getByEmail`
  unfoldable pub get_by_email : Option String → Exec S (Option User)
  unfolding Abstract.find_one
  get_by_email email = or_caught (Abstract.find_one table (user_mapper clock) (by_email email))

  -- `create`
  unfoldable pub create : Crypto → String → User → Exec S User
  unfolding get_by_email Abstract.create set_password protect_password
  create crypto salt entity = or_caught (do
    password ← require_found business "Invalid password" (given_password entity.password)
    protected ← lift (protect_password crypto salt password)
    let entity' = set_password protected entity
    founded ← get_by_email entity'.email
    is_taken founded
    created ← Abstract.create table (user_mapper clock) entity'
    pure (set_password "" created))

  -- `update`
  unfoldable pub update : Crypto → String → String → UserValues → Exec S User
  unfolding Abstract.update set_password protect_password new_user User.get_attributes
  update crypto salt id values = do
    built_user ← lift (new_user clock (record values { preference = none }))
    or_caught (do
      user_data ← protect_values crypto salt (written_values (User.get_attributes built_user))
      updated ← Abstract.update table (user_mapper clock) id (by_id id) (attributes user_data)
      user ← require_found conflict "User not updated!" updated
      pure (set_password "" user))

  -- `delete`: `String(undefined)` is the agent of a call that names none.
  unfoldable pub delete : String → Bool → Option String → Exec S Bool
  unfolding Users.delete_one
  delete id soft agent_user_id =
      or_caught (Users.delete_one table clock id soft (some (or_else agent_user_id "undefined")))

  -- `list`
  unfoldable pub list : UserBuildParams → Exec S (ListPage User)
  unfolding Users.list
  list query = or_caught (Users.list table clock query true)
