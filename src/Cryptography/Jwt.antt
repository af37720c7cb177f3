-- ===== src/Cryptography/Jwt.antt =====
-- Tokens from the login to the guard: `encodeJwt` and `decodeJwt` of
-- src/modules/core/security/Cryptography.service.ts, src/modules/app/user/usecases/LoginUser.usecase.ts
-- and src/modules/api/guards/Auth.guard.ts.
use node_back_end_boilerplat.Auth.{can_activate, agent_of, refuse, validate_token_content}
use node_back_end_boilerplat.Auth.Tokens.{bearer_given}
use node_back_end_boilerplat.Text.Laws.{remove_first-join_text}
use node_back_end_boilerplat.Cryptography.{
  JsonWebToken, Verified, decoded_as, refused, token_expired, json_web_token, other_error,
  encode_jwt, decode_jwt, decoded_of, ℕ,
}
use node_back_end_boilerplat.UseCase.{login_user}
use node_back_end_boilerplat.UseCase.Login.{login_user_token}
use node_back_end_boilerplat.Strategy.{UserAuth, is_allowed_to_manage_user}
use node_back_end_boilerplat.Effects.{Result, ok, bind_result}
use node_back_end_boilerplat.Repository.Users.{UserTable}
use node_back_end_boilerplat.Repository.Preferences.{PreferenceTable}
use node_back_end_boilerplat.Domain.Dates.{Clock}
use node_back_end_boilerplat.Password.{Crypto}
use node_back_end_boilerplat.Domain.User.{User}
use node_back_end_boilerplat.Value.{Fields, obj, str, field, end, get, is_object}
use node_back_end_boilerplat.Prelude.{
  String, Option, some, join_text, ◌==◌, if◌then◌else◌, ◌≡◌, true, refl, ap, ◌∙◌, arith, eq_refl,
  ltb, ◌+◌,
}

-- What the guard says of what jsonwebtoken says of a token.
abbrev pub verdict : Verified → Result UserAuth
verdict (decoded_as content) =
    if is_object content then ok (agent_of content) else refuse "Authorization token is invalid"
verdict (refused (token_expired message)) = refuse "Authorization token was expired"
verdict (refused (json_web_token message)) =
    if message == "jwt expired"
    then refuse "Authorization token was expired"
    else if message == "invalid signature"
    then refuse "Authorization token has invalid signature"
    else refuse "Authorization token is invalid"
verdict (refused (other_error message)) = refuse "Authorization token is invalid"

judged :
    (v : Verified)
    → bind_result (validate_token_content (decoded_of v)) (λ content. ok (agent_of content))
      ≡ verdict v
unfolding validate_token_content decoded_of
judged (decoded_as content) = ground arith
judged (refused (token_expired message)) = refl
judged (refused (json_web_token message)) = ground arith
judged (refused (other_error message)) = refl

-- A bearer's token is judged by its signature and its date: the guard lets a request in as the agent
-- that a verified object names, and refuses every other token as expired, as of an invalid signature
-- or as invalid, as jsonwebtoken says.
pub can_activate-decode_jwt :
    (jwt : JsonWebToken) (secret token : String) (now : ℕ)
    → can_activate (decode_jwt jwt secret now) (some (join_text "Bearer " token))
      ≡ verdict (jwt.verify now token secret)
unfolding can_activate decode_jwt
can_activate-decode_jwt jwt secret token now =
    rw (bearer_given token, remove_first-join_text "B" "earer " token)
      (judged (jwt.verify now token secret))

-- What is encoded of an agent: `{ clientId, username }`.
abbrev pub agent_fields : UserAuth → Fields
agent_fields agent = field "clientId" agent.client_id (field "username" agent.username end)

-- `encodeJwt(userAuthToEncode, 'utf8', '1D')`, at a second of the clock
abbrev pub encode_agent : JsonWebToken → String → ℕ → UserAuth → Result String
encode_agent jwt secret now agent =
    encode_jwt jwt secret now (obj (agent_fields agent)) "utf8" (some "1D")

abbrev pub seconds_of_day : ℕ
seconds_of_day = 86400

-- What `verify` promises of a token that `sign` made of two texts, to expire after "1D": until a day has
-- passed, with the same secret, its content is an object that holds each text under its name, and maybe
-- more.
abbrev pub VerifiesSigned : JsonWebToken → Type 0
VerifiesSigned jwt =
    (username client_id secret token : String) (now later : ℕ)
    → jwt.sign now (obj (field "clientId" (str client_id) (field "username" (str username) end)))
        secret "utf8" "1D"
      ≡ ok token
    → ltb later (now + seconds_of_day) ≡ true
    → (content : Fields) × (jwt.verify later token secret ≡ decoded_as (obj content))
      × (get "username" content ≡ str username)
      × (get "clientId" content ≡ str client_id)

named :
    (content : Fields) (username client_id : String)
    → get "username" content ≡ str username
    → get "clientId" content ≡ str client_id
    → agent_of (obj content) ≡ record { username = str username; client_id = str client_id }
named content username client_id p q = ground arith

module _ (jwt : JsonWebToken) (secret : String) (verifies : VerifiesSigned jwt) where
  -- The token of an agent with a name and a client is let in as that agent, until a day has passed.
  pub encoded_agent :
      (username client_id token : String) (now later : ℕ)
      → let agent : UserAuth = record { username = str username; client_id = str client_id } in
        encode_agent jwt secret now agent ≡ ok token
        → ltb later (now + seconds_of_day) ≡ true
        → can_activate (decode_jwt jwt secret later) (some (join_text "Bearer " token)) ≡ ok agent
  unfolding encode_jwt
  encoded_agent username client_id token now later h in_time =
      let (content, verified, name, client) =
        verifies username client_id secret token now later h in_time in
      can_activate-decode_jwt jwt secret token later
      ∙ ap verdict verified
      ∙ ap ok (named content username client_id name client)

  own :
      (u : User) (email id : String)
      → u.email ≡ some email
      → u.id ≡ some id
      → is_allowed_to_manage_user (record { username = str email; client_id = str id }) u ≡ true
  unfolding is_allowed_to_manage_user
  own u email id p q = rw (p, q, eq_refl email, eq_refl id)

  -- Who logs in is let in, as the user that logged in, and may manage that user: a login that answers a
  -- user with an e-mail and an identifier answers a token that the guard of the same secret lets in, until
  -- a day has passed since it was signed, as an agent that is allowed to manage the user; if jsonwebtoken
  -- verifies, until it expires, what it signed for an agent and a day.
  pub login_let_in :
      {S : Type 0} (users : UserTable S) (preferences : PreferenceTable S) (clock : Clock)
      (crypto : Crypto) (email : Option String) (password : String) (s : S) (known : User)
      (mail id token : String) (now later : ℕ)
      → (login_user users preferences clock crypto (encode_agent jwt secret now) email password s).0
        ≡ ok (known, token)
      → known.email ≡ some mail
      → known.id ≡ some id
      → ltb later (now + seconds_of_day) ≡ true
      → (agent : UserAuth) × (can_activate
            (decode_jwt jwt secret later)
            (some (join_text "Bearer " token))
          ≡ ok agent)
        × (is_allowed_to_manage_user agent known ≡ true)
  login_let_in users preferences clock crypto email password s known mail id token now later h p q
        in_time =
      let signed =
        login_user_token users preferences clock crypto _ email password s known token h in
      (
        record { username = str mail; client_id = str id },
        encoded_agent mail id token now later (rw (p, q) at signed) in_time,
        own known mail id p q,
      )
