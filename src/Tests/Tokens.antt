-- ===== src/Tests/Tokens.antt =====
-- Examples of tokens: jsonwebtoken as a text of its second, its secret and its agent.
use Prim.Native.Char.{Char, code}
use node_back_end_boilerplat.Tests.Database.{database, users, preferences, clock, crypto}
use node_back_end_boilerplat.Tests.Accounts.{known_ana}
use node_back_end_boilerplat.Cryptography.{
  JsonWebToken, decoded_as, refused, json_web_token, decode_jwt, encode_jwt, token_expired,
  Verified,
}
use node_back_end_boilerplat.Cryptography.Jwt.{
  seconds_of_day, VerifiesSigned, verdict, can_activate-decode_jwt, login_let_in, encode_agent,
  agent_fields,
}
use node_back_end_boilerplat.Strategy.{UserAuth, is_allowed_to_manage_user}
use node_back_end_boilerplat.UseCase.{login_user}
use node_back_end_boilerplat.Service.Users.{get_by_id, get_by_email}
use node_back_end_boilerplat.Service.Guarded.{or_caught}
use node_back_end_boilerplat.Service.Preferences.{get_by_user_id}
use node_back_end_boilerplat.Repository.Abstract.{or_internal}
use node_back_end_boilerplat.Repository.Users.{to_domain_entity}
use node_back_end_boilerplat.Password.{validate_password, hash_password}
use node_back_end_boilerplat.Auth.{can_activate}
use node_back_end_boilerplat.Effects.{Result, ok, throw_exception, try_catch, ◌>>=◌}
use node_back_end_boilerplat.Exceptions.{internal, plain_error}
use node_back_end_boilerplat.Value.{Value, obj, str, field, end}
use node_back_end_boilerplat.Prelude.{
  ℕ, zero, suc, String, Bool, true, false, ◌==◌, ◌&&◌, eqb, if◌then◌else◌, some, none, [], ◌∷◌, ◌≡◌,
  refl, ap, join_text, arith, sym, List, ltb, ◌∙◌, ◌+◌, eq_refl,
}
use node_back_end_boilerplat.Configs.{configs}
use node_back_end_boilerplat.Configs.Secret.{unset_secret_forged}

-- A text is written with a mark before each character and another at its end.
abbrev write_text : String → String → String
write_text String.[] rest = String.◌∷◌ "b" rest
write_text (String.◌∷◌ c s) rest = String.◌∷◌ "a" (String.◌∷◌ c (write_text s rest))

abbrev push : Char → List String → List String
push c [] = []
push c (s ∷ texts) = String.◌∷◌ c s ∷ texts

-- The texts, where the next character is one of a text or else a mark.
abbrev read_texts : Bool → String → List String
read_texts within String.[] = []
read_texts true (String.◌∷◌ c s) = push c (read_texts false s)
read_texts false (String.◌∷◌ c s) =
    let marked = read_texts true s in
    let ended = read_texts false s in if eqb (code c) b'b' then "" ∷ ended else marked

read_texts-write_text :
    (s rest : String) → read_texts false (write_text s rest) ≡ s ∷ read_texts false rest
read_texts-write_text String.[] rest = refl
read_texts-write_text (String.◌∷◌ c s) rest = ap (push c) (read_texts-write_text s rest)

-- A second as a text of so many letters.
abbrev ticks : ℕ → String
ticks zero = ""
ticks (suc n) = String.◌∷◌ "t" (ticks n)

abbrev count : String → ℕ
count String.[] = 0
count (String.◌∷◌ c s) = suc (count s)

count-ticks : (n : ℕ) → count (ticks n) ≡ n
count-ticks zero = refl
count-ticks (suc n) = ap suc (count-ticks n)

abbrev token_of : ℕ → String → String → String → String
token_of now secret client_id username =
    write_text (ticks now) (write_text secret (write_text client_id (write_text username "")))

abbrev agent_of : String → String → UserAuth
agent_of username client_id = record { username = str username; client_id = str client_id }

abbrev sign_value : ℕ → String → Value → Result String
sign_value now secret (obj (field k (str client_id) (field l (str username) end))) =
    if k == "clientId" && l == "username"
    then ok (token_of now secret client_id username)
    else throw_exception internal (plain_error "unknown")
sign_value now secret v = throw_exception internal (plain_error "unknown")

abbrev judge : ℕ → String → List String → Verified
judge later secret (signed_at ∷ key ∷ client_id ∷ username ∷ []) =
    if key == secret
    then if ltb later (count signed_at + seconds_of_day)
      then decoded_as (obj (agent_fields (agent_of username client_id)))
      else refused (token_expired "jwt expired")
    else refused (json_web_token "invalid signature")
judge later secret texts = refused (json_web_token "jwt malformed")

abbrev jwt : JsonWebToken
jwt = record {
  sign = λ now payload secret encoding expiration. sign_value now secret payload;
  verify = λ later token secret. judge later secret (read_texts false token);
}

texts_of :
    (now : ℕ) (secret client_id username : String)
    → read_texts false (token_of now secret client_id username)
      ≡ ticks now ∷ secret ∷ client_id ∷ username ∷ []
texts_of now secret client_id username = rw (
  read_texts-write_text (ticks now),
  read_texts-write_text secret,
  read_texts-write_text client_id,
  read_texts-write_text username,
)

same_token : (made token : String) → ◌≡◌ {A = Result String} (ok made) (ok token) → made ≡ token
same_token made token h = ground arith

judged_in_time :
    (username client_id secret : String) (now later : ℕ)
    → ltb later (now + seconds_of_day) ≡ true
    → judge later secret (ticks now ∷ secret ∷ client_id ∷ username ∷ [])
      ≡ decoded_as (obj (agent_fields (agent_of username client_id)))
judged_in_time username client_id secret now later h = rw (eq_refl secret, count-ticks now, h)

verifies : VerifiesSigned jwt
verifies username client_id secret token now later h in_time = (
  agent_fields (agent_of username client_id),
  ap (λ t. jwt.verify later t secret) (sym (same_token _ token h))
      ∙ ap (judge later secret) (texts_of now secret client_id username)
      ∙ judged_in_time username client_id secret now later in_time,
  refl,
  refl,
)

abbrev token : String
token = token_of 5 "key" "u1" "ana@mail.dev"

ana_logged :
    (login_user users preferences clock crypto
      (encode_agent jwt "key" 5)
      (some "ana@mail.dev")
      "secret"
      database).0
    ≡ ok (known_ana, token)
unfolding login_user try_catch ◌>>=◌ get_by_email or_caught or_internal to_domain_entity get_by_id
    get_by_user_id validate_password hash_password encode_jwt
ana_logged = refl

login_let_in_example :
    (agent : UserAuth) × (can_activate
        (decode_jwt jwt "key" 3600)
        (some (join_text "Bearer " token))
      ≡ ok agent)
    × (is_allowed_to_manage_user agent known_ana ≡ true)
login_let_in_example =
    login_let_in jwt "key" verifies users preferences clock crypto (some "ana@mail.dev") "secret"
      database known_ana "ana@mail.dev" "u1" token 5 3600 ana_logged refl refl refl

-- The same token after a day, and under another secret.
expired_then : jwt.verify 86405 token "key" ≡ refused (token_expired "jwt expired")
expired_then = refl

can_activate-decode_jwt_example :
    can_activate (decode_jwt jwt "other" 3600) (some (join_text "Bearer " token))
    ≡ verdict (refused (json_web_token "invalid signature"))
can_activate-decode_jwt_example = can_activate-decode_jwt jwt "other" token 3600

abbrev forged : String
forged = token_of 5 "pass_phrase" "u1" "ana@mail.dev"

unset_secret_forged_example :
    can_activate
      (decode_jwt jwt (configs (λ name. none) (λ text. 3000)).security.secret_key 3600)
      (some (join_text "Bearer " forged))
    ≡ ok (agent_of "ana@mail.dev" "u1")
unfolding encode_jwt
unset_secret_forged_example =
    unset_secret_forged (λ name. none) (λ text. 3000) jwt "ana@mail.dev" "u1" forged 5 3600 refl
      verifies refl refl
