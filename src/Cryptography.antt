-- ===== src/Cryptography.antt =====
-- src/modules/core/security/Cryptography.service.ts: the service over Node's crypto, over bcrypt's salts
-- and over jsonwebtoken, which are arguments. A buffer is its bytes; a call that throws is `none`.
pub mod Ciphers
pub mod Jwt
use node_back_end_boilerplat.Prelude.{
  ℕ, String, Bool, true, false, not, ◌==◌, ◌&&◌, if◌then◌else◌, Option, none, some, or_else, List,
  join_text,
}
use node_back_end_boilerplat.Value.{Value, null}
use node_back_end_boilerplat.Effects.{Result}
use node_back_end_boilerplat.Auth.{Decoded}
use node_back_end_boilerplat.Password.{Crypto}

abbrev pub Bytes : Type 0
Bytes = List ℕ

-- `RSA_PKCS1_PADDING` and `RSA_PKCS1_OAEP_PADDING`
pub data Padding : Type 0 where
  pkcs1 pkcs1_oaep : Padding

-- Which key of a pair: `'public' | 'private'`.
pub data KeyType : Type 0 where
  public_key private_key : KeyType

-- `Buffer.from(text, encoding)`, `buffer.toString(encoding)`, and Node's crypto. `cipher_update` and
-- `cipher_final` are what `update` and `final` give for a key, an initialisation vector and the bytes,
-- after `createCipheriv('aes-256-gcm', key, iv)`.
pub record NodeCrypto : Type 0 where
  pub from_text : String → String → Bytes
  pub to_text : Bytes → String → String
  pub digest : String → Bytes → String → Option String
  pub cipher_update : Bytes → Bytes → Bytes → Option Bytes
  pub cipher_final : Bytes → Bytes → Bytes → Option Bytes
  pub rsa_sign : String → Bytes → String → String → Option String
  pub rsa_encrypt : KeyType → Padding → String → Bytes → Option Bytes
  pub rsa_decrypt : KeyType → Padding → String → Bytes → Option Bytes

-- What `verify` throws: a `TokenExpiredError`, another `JsonWebTokenError`, or any other error.
pub data JwtError : Type 0 where
  token_expired : String → JwtError
  json_web_token : String → JwtError
  other_error : String → JwtError

pub data Verified : Type 0 where
  decoded_as : Value → Verified
  refused : JwtError → Verified

-- `sign` with a payload, a secret, an encoding and `expiresIn`, and `verify` with a token and a secret,
-- both for HS256, each at the second of the clock at which it is called.
pub record JsonWebToken : Type 0 where
  pub sign : ℕ → Value → String → String → String → Result String
  pub verify : ℕ → String → String → Verified

-- A later step of a `try` block that ends in `null` if one throws.
infixl 10 ◌>>=◌
abbrev pub ◌>>=◌ {ℓ} : {A B : Type ℓ} → Option A → (A → Option B) → Option B
none >>= f = none
some a >>= f = f a

-- The paddings of `asymmetricRSAEncrypt` and `asymmetricRSADecrypt`
unfoldable pub encrypt_padding : KeyType → Padding
encrypt_padding private_key = pkcs1
encrypt_padding public_key = pkcs1_oaep

unfoldable pub decrypt_padding : KeyType → Padding
decrypt_padding private_key = pkcs1_oaep
decrypt_padding public_key = pkcs1

-- `expired` and `invalidSignature` of a token that `verify` refuses
unfoldable pub refusal : JwtError → Bool × Bool
refusal (token_expired message) = (true, false)
refusal (json_web_token message) = (message == "jwt expired", message == "invalid signature")
refusal (other_error message) = (false, false)

unfoldable pub decoded_of : Verified → Decoded
unfolding refusal
decoded_of (decoded_as content) = record {
  content = content;
  invalid_signature = false;
  expired = false;
}
decoded_of (refused e) = record {
  content = null;
  invalid_signature = (refusal e).1;
  expired = (refusal e).0;
}

module _ (node : NodeCrypto) where
  -- `changeBufferEncoding`
  unfoldable pub change_buffer_encoding : String → String → String → String
  change_buffer_encoding data_ encoding decoding =
      node.to_text (node.from_text data_ encoding) decoding

  -- `hashing`
  unfoldable pub hashing : String → String → String → String → Option String
  hashing data_ input_encoding algorithm output_format =
      node.digest algorithm (node.from_text data_ input_encoding) output_format

  -- `hashWithSecret`, with the service's secret
  unfoldable pub hash_with_secret :
      String → String → String → String → String → Option String → Option String
  unfolding hashing
  hash_with_secret secret algorithm input_encoding output_format data_ salt =
      hashing (join_text data_ (join_text secret (or_else salt ""))) input_encoding algorithm
        output_format

  -- `contentRSASign`
  unfoldable pub content_rsa_sign : String → String → String → String → String → Option String
  content_rsa_sign data_ input_encoding private_key_content algorithm output_format =
      node.rsa_sign algorithm (node.from_text data_ input_encoding) private_key_content
        output_format

  -- The hexadecimal text of what `update` and `final` give.
  unfoldable pub cipher_hex : String → String → String → String → Option String
  cipher_hex data_ input_encoding key_content iv = do
    let key = node.from_text key_content "hex"
    let vector = node.from_text iv "hex"
    let bytes = node.from_text data_ input_encoding
    updated ← node.cipher_update key vector bytes
    finished ← node.cipher_final key vector bytes
    some (join_text (node.to_text updated "hex") (node.to_text finished "hex"))

  -- `symmetricAESEncrypt`, with the vector that `randomBytes(12)` gave
  unfoldable pub symmetric_aes_encrypt :
      Bytes → String → String → String → String → Option String → Option String × String
  unfolding cipher_hex
  symmetric_aes_encrypt random data_ input_encoding key_content output_encoding iv =
      let vector = or_else iv (node.to_text random "hex") in
      (
        (do
          hex_encrypted ← cipher_hex data_ input_encoding key_content vector
          some (node.to_text (node.from_text hex_encrypted "hex") output_encoding)),
        vector,
      )

  -- `symmetricAESDecrypt`, which creates a cipher too
  unfoldable pub symmetric_aes_decrypt :
      String → String → String → String → String → Option String × String
  unfolding cipher_hex
  symmetric_aes_decrypt data_ input_encoding key_content iv output_encoding = (
    (do
      hex_decrypted ← cipher_hex data_ input_encoding key_content iv
      some (node.to_text (node.from_text hex_decrypted "hex") output_encoding)),
    iv,
  )

  -- `asymmetricRSAEncrypt`
  unfoldable pub asymmetric_rsa_encrypt :
      String → String → KeyType → String → String → Option String
  unfolding encrypt_padding
  asymmetric_rsa_encrypt data_ input_encoding key_type key_content output_encoding = do
    encrypted ←
        node.rsa_encrypt key_type (encrypt_padding key_type) key_content
          (node.from_text data_ input_encoding)
    some (node.to_text encrypted output_encoding)

  -- `asymmetricRSADecrypt`
  unfoldable pub asymmetric_rsa_decrypt :
      String → String → KeyType → String → String → Option String
  unfolding decrypt_padding
  asymmetric_rsa_decrypt data_ input_encoding key_type key_content output_encoding = do
    decrypted ←
        node.rsa_decrypt key_type (decrypt_padding key_type) key_content
          (node.from_text data_ input_encoding)
    some (node.to_text decrypted output_encoding)

  -- The digest of stored passwords: `hashPassword` asks for SHA-256 of UTF-8 as base64url.
  abbrev pub password_crypto : String → Crypto
  unfolding hashing
  password_crypto secret = record {
    secret = secret;
    digest = λ text. hashing text "utf8" "sha256" "base64url";
  }

module _ (jwt : JsonWebToken) (secret : String) where
  -- `encodeJwt`
  unfoldable pub encode_jwt : ℕ → Value → String → Option String → Result String
  encode_jwt now payload input_encoding expiration =
      jwt.sign now payload secret input_encoding (or_else expiration "1d")

  -- `decodeJwt`
  unfoldable pub decode_jwt : ℕ → String → Decoded
  unfolding decoded_of
  decode_jwt now token = decoded_of (jwt.verify now token secret)
