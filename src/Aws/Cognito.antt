-- ===== src/Aws/Cognito.antt =====
-- src/modules/core/infra/integration/aws/Cognito.client.ts
use node_back_end_boilerplat.Prelude.{ℕ, String, Bool}
use node_back_end_boilerplat.Value.{
  Value, str, num, arr, obj, Fields, field, end, nil, cons, get, or_value, fields_of,
}
use node_back_end_boilerplat.Effects.{Exec, pure, ◌>>=◌, ◌>>◌}
use node_back_end_boilerplat.Aws.{Send, is_success, or_integration, required}

-- The input that names a user of a pool.
abbrev pub user_in_pool : String → String → Fields
user_in_pool user_name user_pool_id =
    field "Username" (str user_name) (field "UserPoolId" (str user_pool_id) end)

-- `signUpParams`
unfoldable pub sign_up_params : String → String → String → String → Fields
sign_up_params client_id user_name user_email password = field "Username" (str user_name) (
    field "Password" (str password) (
      field "UserAttributes"
        (arr (cons (obj (field "Name" (str "email") (field "Value" (str user_email) end))) nil))
        (field "ClientId" (str client_id) end)))

module _ {S : Type 0} (send : Send S) where
  -- `listUserPools`
  unfoldable pub list_user_pools : ℕ → Exec S Value
  unfolding or_integration
  list_user_pools max = or_integration (do
    result ← send "ListUserPoolsCommand" (field "MaxResults" (num max) end)
    pure (or_value (get "UserPools" result) (arr nil)))

  -- `createUserPool`
  unfoldable pub create_user_pool : String → Exec S Value
  unfolding or_integration required
  create_user_pool user_pool_name = or_integration (do
    result ← send "CreateUserPoolCommand" (field "PoolName" (str user_pool_name) end)
    required (get "Id" (fields_of (get "UserPool" result))) "UserPool not created")

  -- `deleteUserPool`
  unfoldable pub delete_user_pool : String → Exec S Bool
  unfolding or_integration is_success
  delete_user_pool user_pool_id = or_integration (do
    result ← send "DeleteUserPoolCommand" (field "UserPoolId" (str user_pool_id) end)
    pure (is_success result))

  -- `createClient`
  unfoldable pub create_client : String → String → Exec S Value
  unfolding or_integration required
  create_client client_name user_pool_id = or_integration (do
    result ←
        send "CreateUserPoolClientCommand"
          (field "ClientName" (str client_name) (field "UserPoolId" (str user_pool_id) end))
    required (get "ClientId" (fields_of (get "UserPoolClient" result))) "Client not created"
    pure (get "UserPoolClient" result))

  -- `deleteClient`
  unfoldable pub delete_client : String → String → Exec S Bool
  unfolding or_integration is_success
  delete_client client_id user_pool_id = or_integration (do
    result ←
        send "DeleteUserPoolClientCommand"
          (field "ClientId" (str client_id) (field "UserPoolId" (str user_pool_id) end))
    pure (is_success result))

  -- `createUser`
  unfoldable pub create_user : String → String → Exec S Value
  unfolding or_integration required
  create_user user_name user_pool_id = or_integration (do
    result ← send "AdminCreateUserCommand" (user_in_pool user_name user_pool_id)
    required (get "Username" (fields_of (get "User" result))) "User not created"
    pure (get "User" result))

  -- `getUser`
  unfoldable pub get_user : String → String → Exec S Fields
  unfolding or_integration required
  get_user user_name user_pool_id = or_integration (do
    result ← send "AdminGetUserCommand" (user_in_pool user_name user_pool_id)
    required (get "Username" result) "User not finded"
    pure (
        field "Username" (get "Username" result) (
          field "Enabled" (get "Enabled" result) (
            field "UserStatus" (get "UserStatus" result) (
              field "MFAOptions" (get "MFAOptions" result) (
                field "UserCreateDate" (get "UserCreateDate" result)
                  (field "UserLastModifiedDate" (get "UserLastModifiedDate" result) end)))))))

  -- `deleteUser`
  unfoldable pub delete_user : String → String → Exec S Bool
  unfolding or_integration is_success
  delete_user user_name user_pool_id = or_integration (do
    result ← send "AdminDeleteUserCommand" (user_in_pool user_name user_pool_id)
    pure (is_success result))

  -- `userSignUp`
  unfoldable pub user_sign_up : String → String → String → String → Exec S Fields
  unfolding or_integration required sign_up_params
  user_sign_up client_id user_name user_email user_password = or_integration (do
    result ← send "SignUpCommand" (sign_up_params client_id user_name user_email user_password)
    confirmed ← required (get "UserConfirmed" result) "User not confirmed"
    pure (field "UserConfirmed" confirmed (field "UserSub" (get "UserSub" result) end)))

  -- `confirmUserSignUp`
  unfoldable pub confirm_user_sign_up : String → String → Exec S Bool
  unfolding or_integration is_success
  confirm_user_sign_up user_name user_pool_id = or_integration (do
    result ← send "AdminConfirmSignUpCommand" (user_in_pool user_name user_pool_id)
    pure (is_success result))
