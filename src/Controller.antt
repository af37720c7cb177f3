-- ===== src/Controller.antt =====
-- src/modules/app/user/api/controllers/User.controller.ts, src/modules/app/user/usecases/ListUsers.usecase.ts
-- and src/modules/app/subscription/usecases/GetSubscription.usecase.ts: what the routes answer. Pipes and
-- guards run before a route, and the statuses of NestJS are not modelled.
pub mod Views
use node_back_end_boilerplat.UseCase
use node_back_end_boilerplat.Subscriptions
use node_back_end_boilerplat.Subscriptions.{Backing}
use node_back_end_boilerplat.Service.Users
use node_back_end_boilerplat.Domain.Subscription
use node_back_end_boilerplat.Domain.User
use node_back_end_boilerplat.Domain.User.{User, UserValues}
use node_back_end_boilerplat.Domain.Dates.{Clock}
use node_back_end_boilerplat.Repository.Abstract.{ListPage}
use node_back_end_boilerplat.Repository.UserQuery.{UserBuildParams}
use node_back_end_boilerplat.Repository.Users.{UserTable}
use node_back_end_boilerplat.Repository.Preferences.{PreferenceTable}
use node_back_end_boilerplat.Password.{Crypto}
use node_back_end_boilerplat.Strategy.{UserAuth}
use node_back_end_boilerplat.Prelude.{String, Bool, true, false, if◌then◌else◌, Option, map}
use node_back_end_boilerplat.Value.{Value, bool, Fields}
use node_back_end_boilerplat.Effects.{Exec, Result, pure, fail, ◌>>=◌, ◌>>◌}
use node_back_end_boilerplat.Exceptions.{integration, plain_error}

-- The listener of `DISABLE_LOGIN`, on the flag `loginDisabled`.
unfoldable pub on_disable_login : Value → Bool → Bool
on_disable_login (bool disabled) login_disabled = disabled
on_disable_login v login_disabled = login_disabled

-- `throwMaintenanceException`
unfoldable pub throw_maintenance_exception : {S A : Type 0} → Exec S A
throw_maintenance_exception =
    fail integration (plain_error "Resource temporarily under maintenance. Please, try again later")

module _ {S : Type 0} (users : UserTable S) (preferences : PreferenceTable S) (clock : Clock) where
  -- `ListUsersUseCase.execute` and `listUsers`
  unfoldable pub execute_list_users : UserBuildParams → Exec S (ListPage User)
  unfolding Users.list
  execute_list_users query = Users.list users clock query

  unfoldable pub list_users : UserBuildParams → Exec S (ListPage UserValues)
  unfolding execute_list_users User.get_attributes
  list_users query = do
    page ← execute_list_users query
    pure (record {
      content = map User.get_attributes page.content;
      page_number = page.page_number;
      page_size = page.page_size;
      total_pages = page.total_pages;
      total_items = page.total_items;
    })

  -- `createUser`
  unfoldable pub create_user_route :
      Crypto → String → UserValues → Option UserAuth → Exec S UserValues
  unfolding UseCase.create_user User.get_attributes
  create_user_route crypto salt body agent = do
    result ← UseCase.create_user users preferences clock crypto salt body agent
    pure (User.get_attributes result)

  -- `loginUser`, with the flag `loginDisabled`
  unfoldable pub login_user_route :
      Bool
      → Crypto
      → (UserAuth → Result String)
      → Option String
      → String
      → Exec S (UserValues × String)
  unfolding UseCase.login_user User.get_attributes throw_maintenance_exception
  login_user_route login_disabled crypto encode_jwt email password = do
    (if login_disabled then throw_maintenance_exception else pure tt)
    logged ← UseCase.login_user users preferences clock crypto encode_jwt email password
    pure (User.get_attributes logged.0, logged.1)

  -- `getUser`
  unfoldable pub get_user_route : String → Option UserAuth → Exec S UserValues
  unfolding UseCase.get_user User.get_attributes
  get_user_route user_id agent = do
    result ← UseCase.get_user users preferences clock user_id agent
    pure (User.get_attributes result)

  -- `updateUser`
  unfoldable pub update_user_route :
      Crypto → String → String → UserValues → Option UserAuth → Exec S UserValues
  unfolding UseCase.update_user User.get_attributes
  update_user_route crypto salt user_id body agent = do
    result ← UseCase.update_user users preferences clock crypto salt user_id body agent
    pure (User.get_attributes result)

  -- `deleteUser`
  unfoldable pub delete_user_route : String → Option UserAuth → Exec S (Unit {0})
  unfolding UseCase.delete_user
  delete_user_route user_id agent = UseCase.delete_user users preferences clock user_id agent

-- `GetSubscriptionUseCase.execute`
unfoldable pub get_subscription : {S : Type 0} → Backing S → String → Exec S Fields
unfolding Subscriptions.get Subscription.get_attributes
get_subscription backing subscription_id = do
  subscription ← Subscriptions.get backing subscription_id
  pure (Subscription.get_attributes subscription)
