-- ===== src/UseCase.antt =====
-- The use cases of src/modules/app/user/usecases, on one database `S` that holds users and
-- preferences. The delays of a login and its log lines are not modelled; two reads that
-- `Promise.all` starts together run one after the other. A user that the database returned has an
-- identifier.
pub mod Login
pub mod Permissions
pub mod Registration
use node_back_end_boilerplat.Prelude.{
  ℕ, String, true, false, Option, none, some, if◌then◌else◌, or_else,
}
use node_back_end_boilerplat.Value.{
  Value, undefined, date, str, obj, Fields, end, field, text_value, truthy,
}
use node_back_end_boilerplat.Exceptions.{
  unauthorized, business, conflict, internal, plain_error, not_found,
}
use node_back_end_boilerplat.Effects.{Result, Exec, pure, lift, fail, try_catch, ◌>>=◌, ◌>>◌}
use node_back_end_boilerplat.Domain.Dates.{Clock}
use node_back_end_boilerplat.Domain.UserPreference
use node_back_end_boilerplat.Domain.UserPreference.{
  UserPreference, PreferenceValues, no_preference_values, new_user_preference, set_user_id,
}
use node_back_end_boilerplat.Domain.User
use node_back_end_boilerplat.Domain.User.{User, UserValues, new_user, set_password, set_preference}
use node_back_end_boilerplat.Password.{Crypto, validate_password}
use node_back_end_boilerplat.Strategy.{UserAuth, is_allowed_to_manage_user, must_update}
use node_back_end_boilerplat.Repository.Users.{UserTable}
use node_back_end_boilerplat.Repository.Preferences.{PreferenceTable}
use node_back_end_boilerplat.Service.Users
use node_back_end_boilerplat.Service.Preferences

-- `user.getId()`, which a search reads as no identifier where it is missing.
abbrev pub id_of : User → String
id_of u = or_else u.id ""

abbrev pub date_value : Option ℕ → Value
date_value none = undefined
date_value (some t) = date t

-- The attributes of a preference and of a user, as `mustUpdate` reads them.
abbrev pub preference_fields : PreferenceValues → Fields
preference_fields v = field "id" (text_value v.id) (
    field "userId" (text_value v.user_id) (
      field "imagePath" (text_value v.image_path) (
        field "defaultTheme" (text_value v.default_theme) (
          field "createdAt" v.created_at (
            field "updatedAt" (date_value v.updated_at)
              (field "deletedAt" (date_value v.deleted_at) end))))))

abbrev pub preference_value : Option PreferenceValues → Value
preference_value none = undefined
preference_value (some v) = obj (preference_fields v)

abbrev pub user_fields : UserValues → Fields
user_fields v = field "id" (text_value v.id) (
    field "fullName" (text_value v.full_name) (
      field "email" (text_value v.email) (
        field "password" (text_value v.password) (
          field "phone" (text_value v.phone) (
            field "docType" (text_value v.doc_type) (
              field "document" (text_value v.document) (
                field "fu" (text_value v.fu) (
                  field "preference" (preference_value v.preference) (
                    field "createdAt" v.created_at (
                      field "updatedAt" (date_value v.updated_at) (
                        field "deletedAt" (date_value v.deleted_at)
                          (field "deletedBy" (text_value v.deleted_by) end))))))))))))

-- `if (!agentUser?.clientId) throw …`; the request may have no agent.
unfoldable pub require_agent : {S : Type 0} → Option UserAuth → Exec S UserAuth
require_agent none = fail unauthorized (plain_error "Invalid agentUser")
require_agent (some agent) =
    if truthy agent.client_id
    then pure agent
    else fail unauthorized (plain_error "Invalid agentUser")

-- `validatePermissionToDeleteUser`, and `validatePermissionToUpdateUser` with its own message.
unfoldable pub validate_permission : {S : Type 0} → String → UserAuth → User → Exec S (Unit {0})
validate_permission message agent user =
    if is_allowed_to_manage_user agent user then pure tt else fail business (plain_error message)

-- The agent that a deletion writes down; its client is a text, as the guard has it from the token.
abbrev pub text_of : Value → Option String
text_of (str s) = some s
text_of v = none

-- `if (existentUser) throw …`
abbrev pub require_free : {S : Type 0} → Option User → Exec S (Unit {0})
require_free none = pure tt
require_free (some u) = fail conflict (plain_error "User already exists!")

-- `if (!foundedUser) throw …` of a login.
abbrev pub require_known : {S : Type 0} → Option User → Exec S User
require_known none = fail not_found (plain_error "User not founded by e-mail!")
require_known (some u) = pure u

-- `if (!!preference) user.setPreference(preference)`
abbrev pub with_preference : Option UserPreference → User → User
with_preference none user = user
with_preference (some p) user = set_preference p user

module _ {S : Type 0} (users : UserTable S) (preferences : PreferenceTable S) (clock : Clock) where
  -- `CreateUserUseCase.execute`
  unfoldable pub create_user : Crypto → String → UserValues → Option UserAuth → Exec S User
  unfolding set_preference
  create_user crypto salt values agent = do
    require_agent agent
    new ← lift (new_user clock (record values { preference = none }))
    existent ← Users.get_by_email users clock new.email
    require_free existent
    created ← Users.create users clock crypto salt new
    preference ← lift (new_user_preference clock (or_else values.preference no_preference_values))
    Preferences.create preferences clock (set_user_id (id_of created) preference)
    founded ← Users.get_by_id users clock (id_of created) true
    founded_preference ← Preferences.get_by_user_id preferences clock created.id
    pure (set_preference founded_preference founded)

  -- `GetUserUseCase.execute`
  unfoldable pub get_user : String → Option UserAuth → Exec S User
  unfolding set_preference set_password
  get_user id agent = do
    require_agent agent
    founded ← Users.get_by_id users clock id true
    preference ← Preferences.get_by_user_id preferences clock (some id)
    pure (set_password "" (set_preference preference founded))

  -- `if (mustUpdateUser) await this.userService.update(user.getId(), data)`
  unfoldable pub write_user : Crypto → String → User → UserValues → Exec S (Unit {0})
  unfolding User.get_attributes
  write_user crypto salt user values =
      if must_update (obj (user_fields (User.get_attributes user))) (obj (user_fields values))
      then Users.update users clock crypto salt (id_of user) values >> pure tt
      else pure tt

  -- `if (data.preference && mustUpdateUserPreference) await …`
  unfoldable pub write_preference : UserPreference → Option PreferenceValues → Exec S (Unit {0})
  unfolding UserPreference.get_attributes
  write_preference preference none = pure tt
  write_preference preference (some values) =
      if must_update (obj (preference_fields (UserPreference.get_attributes preference)))
        (obj (preference_fields values))
      then Preferences.update preferences clock (or_else preference.id "") values >> pure tt
      else pure tt

  -- `UpdateUserUseCase.execute`
  unfoldable pub update_user : Crypto → String → String → UserValues → Option UserAuth → Exec S User
  unfolding set_preference
  update_user crypto salt id values agent = do
    known ← require_agent agent
    user ← Users.get_by_id users clock id true
    preference ← Preferences.get_by_user_id preferences clock (some id)
    validate_permission "agentUser not allowed to update this user!" known user
    write_user crypto salt user values
    write_preference preference values.preference
    founded ← Users.get_by_id users clock (id_of user) true
    founded_preference ← Preferences.get_by_user_id preferences clock user.id
    pure (set_preference founded_preference founded)

  -- `DeleteUserUseCase.execute`
  unfoldable pub delete_user : String → Option UserAuth → Exec S (Unit {0})
  delete_user id agent = do
    known ← require_agent agent
    user ← Users.get_by_id users clock id true
    preference ← Preferences.get_by_user_id preferences clock (some id)
    validate_permission "agentUser not allowed to delete this user!" known user
    Preferences.delete preferences clock (or_else preference.id "") true
    deleted ← Users.delete users clock (id_of user) true (text_of known.client_id)
    if deleted then pure tt else fail internal (plain_error "User not deleted")

  -- `.catch(() => null)`
  abbrev pub optionally : {A : Type 0} → Exec S A → Exec S (Option A)
  optionally m = try_catch (m >>= λ a. pure (some a)) (λ _. pure none)

  -- `LoginUserUseCase.execute`, with the token that `jsonwebtoken` makes of an agent.
  unfoldable pub login_user :
      Crypto → (UserAuth → Result String) → Option String → String → Exec S (User × String)
  unfolding set_password set_preference
  login_user crypto encode_jwt email password =
      try_catch
        (do
          founded ← Users.get_by_email users clock email
          founded_user ← require_known founded
          user ← Users.get_by_id users clock (id_of founded_user) false
          lift (validate_password crypto user.password password)
          preference ← optionally (Preferences.get_by_user_id preferences clock founded_user.id)
          let known = with_preference preference (set_password "" user)
          token ← lift (
              encode_jwt
                (record { username = text_value known.email; client_id = text_value known.id }))
          pure (known, token))
        (λ _. fail unauthorized (plain_error "Invalid Credentials"))
