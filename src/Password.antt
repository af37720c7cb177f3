-- ===== src/Password.antt =====
-- Stored passwords: `validatePassword`, `protectPassword` and `hashPassword` of
-- src/modules/app/user/services/User.service.ts, and `hashWithSecret` of
-- core/security/Cryptography.service.ts. Node's digest and bcrypt's salt are arguments.
pub mod Laws
use Prim.Native.String.{len}
use node_back_end_boilerplat.Prelude.{
  ℕ, String, Bool, Option, none, some, if◌then◌else◌, eqb, is_truthy, is_blank, or_else, join_text,
  ◌==◌, ◌&&◌,
}
use node_back_end_boilerplat.Value.{Value, str, undefined}
use node_back_end_boilerplat.Exceptions.{
  native, plain_error, detailed_error, unauthorized, internal,
}
use node_back_end_boilerplat.Effects.{Result, ok, err, throw_exception, bind_result}
use node_back_end_boilerplat.Text.{split, first, second}

-- The service's secret, and `hash.update(data, 'utf8').digest('base64url')` with SHA-256; `none` is
-- the `null` of a digest that throws.
pub record Crypto : Type 0 where
  pub secret : String
  pub digest : String → Option String

-- `hashPassword`, with `hashWithSecret`: the digest of the password, the secret and the salt.
unfoldable pub hash_password : Crypto → String → String → Option String
hash_password crypto plain salt = crypto.digest (join_text plain (join_text crypto.secret salt))

-- `timingSafeEqual` throws on buffers of different length.
abbrev pub compare_buffer : String → String → Result Bool
compare_buffer s t =
    if eqb (len s) (len t)
    then ok (s == t)
    else err (native (plain_error "Input buffers must have the same byte length"))

-- The end of `validatePassword`, on the salt and the hash that were stored.
unfoldable pub check_hash : Crypto → String → String → String → Result (Unit {0})
check_hash crypto salt hash plain =
    bind_result (compare_buffer hash (or_else (hash_password crypto plain salt) "")) λ same.
      if same
      then ok tt
      else throw_exception unauthorized
          (detailed_error "Incorrect password" (str "Password hash is different from database"))

-- `validatePassword` from `const [salt, hash]` on.
unfoldable pub check_parts : Crypto → Option String → Option String → String → Result (Unit {0})
unfolding check_hash
check_parts crypto salt hash plain =
    if is_truthy salt && is_truthy hash
    then check_hash crypto (or_else salt "") (or_else hash "") plain
    else throw_exception internal
        (detailed_error "Error to get password" (str "Invalid salt or hash"))

-- `validatePassword`: the first two parts of the stored text are the salt and the hash.
unfoldable pub validate_password : Crypto → Option String → String → Result (Unit {0})
unfolding check_parts split
validate_password crypto stored plain =
    if is_truthy stored
    then check_parts crypto (first (split b'|' (or_else stored "")))
        (second (split b'|' (or_else stored ""))) plain
    else throw_exception unauthorized (plain_error "Invalid password")

-- `${salt}|${hash}`, unless there is no hash.
unfoldable pub store_hash : String → Option String → Result String
store_hash salt hash =
    if is_truthy hash
    then ok (join_text salt (join_text "|" (or_else hash "")))
    else throw_exception internal (plain_error "Error to generate hash")

-- `protectPassword`, given the salt that bcrypt generated.
unfoldable pub protect_password : Crypto → String → String → Result String
unfolding store_hash
protect_password crypto salt plain =
    if is_blank salt
    then throw_exception internal (plain_error "Error to generate salt")
    else store_hash salt (hash_password crypto plain salt)
