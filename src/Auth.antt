-- ===== src/Auth.antt =====
-- src/modules/api/guards/Auth.guard.ts: which requests have an agent. Log lines are not modelled;
-- the agent that the guard writes into the request is its answer.
pub mod Tokens
use node_back_end_boilerplat.Prelude.{
  String, Bool, Option, some, none, eqb, if◌then◌else◌, or_else, is_truthy,
}
use node_back_end_boilerplat.Value.{Value, is_object, get, fields_of, or_value}
use node_back_end_boilerplat.Effects.{Result, ok, throw_exception, bind_result}
use node_back_end_boilerplat.Exceptions.{invalid_token, plain_error}
use node_back_end_boilerplat.Strategy.{UserAuth}
use node_back_end_boilerplat.Text.{remove_first}

-- `decodeJwt` of jsonwebtoken: the content of a token, and why it has none.
pub record Decoded : Type 0 where
  pub content : Value
  pub invalid_signature : Bool
  pub expired : Bool

abbrev pub refuse : {A : Type 0} → String → Result A
refuse message = throw_exception invalid_token (plain_error message)

-- `validateTokenContent`, on what the token decodes to.
unfoldable pub validate_token_content : Decoded → Result Value
validate_token_content decoded =
    if is_object decoded.content
    then ok decoded.content
    else if decoded.expired
    then refuse "Authorization token was expired"
    else if decoded.invalid_signature
    then refuse "Authorization token has invalid signature"
    else refuse "Authorization token is invalid"

abbrev pub claim : String → Value → Value
claim key content = get key (fields_of content)

-- `request.user`
abbrev pub agent_of : Value → UserAuth
agent_of content = record {
  username = or_value (claim "username" content) (claim "cognito:username" content);
  client_id =
      or_value (or_value (claim "clientId" content) (claim "client_id" content))
        (claim "sub" content);
}

-- `canActivate`
unfoldable pub can_activate : (String → Decoded) → Option String → Result UserAuth
unfolding validate_token_content remove_first
can_activate decode_jwt authorization =
    if is_truthy authorization
    then bind_result
        (validate_token_content (decode_jwt (remove_first "Bearer " (or_else authorization ""))))
        (λ content. ok (agent_of content))
    else refuse "Authorization token is required"
