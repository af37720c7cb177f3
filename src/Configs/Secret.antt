-- ===== src/Configs/Secret.antt =====
-- The secret that tokens are signed with, where the environment says none.
use node_back_end_boilerplat.Configs.{configs, security_configs, true}
use node_back_end_boilerplat.Cryptography.{JsonWebToken, decode_jwt}
use node_back_end_boilerplat.Cryptography.Jwt.{
  VerifiesSigned, encode_agent, encoded_agent, seconds_of_day,
}
use node_back_end_boilerplat.Auth.{can_activate}
use node_back_end_boilerplat.Strategy.{UserAuth}
use node_back_end_boilerplat.Effects.{ok}
use node_back_end_boilerplat.Value.{str}
use node_back_end_boilerplat.Prelude.{ℕ, String, Option, some, none, join_text, ◌≡◌, ltb, ◌+◌}

default_secret :
    (env : String → Option String) (parse_int : String → ℕ)
    → env "SECRET" ≡ none
    → (configs env parse_int).security.secret_key ≡ "pass_phrase"
unfolding configs security_configs
default_secret env parse_int h = rw h

-- Without a secret in the environment, anyone is anybody: whatever agent an outsider names, a token
-- that it signs with the text that stands in the repository is let in by the guard as that agent, until
-- a day has passed; if jsonwebtoken verifies, until it expires, what was signed with the same secret for
-- an agent and a day.
pub unset_secret_forged :
    (env : String → Option String) (parse_int : String → ℕ) (jwt : JsonWebToken)
    (username client_id token : String) (now later : ℕ)
    → env "SECRET" ≡ none
    → VerifiesSigned jwt
    → ltb later (now + seconds_of_day) ≡ true
    → let agent : UserAuth = record { username = str username; client_id = str client_id } in
      encode_agent jwt "pass_phrase" now agent ≡ ok token
      → can_activate
          (decode_jwt jwt (configs env parse_int).security.secret_key later)
          (some (join_text "Bearer " token))
        ≡ ok agent
unset_secret_forged env parse_int jwt username client_id token now later unset verifies in_time
      signed =
    rw (default_secret env parse_int unset)
      (encoded_agent jwt "pass_phrase" verifies username client_id token now later signed in_time)
