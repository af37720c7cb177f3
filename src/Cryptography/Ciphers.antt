-- ===== src/Cryptography/Ciphers.antt =====
-- What src/modules/core/security/Cryptography.service.ts encrypts is read again.
use node_back_end_boilerplat.Cryptography.{
  NodeCrypto, Bytes, KeyType, public_key, private_key, Padding, cipher_hex, symmetric_aes_encrypt,
  symmetric_aes_decrypt, asymmetric_rsa_encrypt, asymmetric_rsa_decrypt, encrypt_padding,
  decrypt_padding,
}
use text.Mathlib.TextLemmas.{append-nil}
use node_back_end_boilerplat.Prelude.{String, Option, some, or_else, [], ◌≡◌, ap}

-- A cipher in counter mode: its key stream is added once to encrypt and again to decrypt, and the end
-- of the stream writes no byte. Hexadecimal texts keep every byte.
pub record Behaves (node : NodeCrypto) : Type 0 where
  pub undo :
      (key iv bytes encrypted : Bytes)
      → node.cipher_update key iv bytes ≡ some encrypted
      → node.cipher_update key iv encrypted ≡ some bytes
  pub no_tail :
      (key iv bytes encrypted : Bytes)
      → node.cipher_update key iv bytes ≡ some encrypted
      → node.cipher_final key iv bytes ≡ some []
  pub hex_read : (bytes : Bytes) → node.from_text (node.to_text bytes "hex") "hex" ≡ bytes
  pub hex_empty : node.to_text [] "hex" ≡ ""

-- The encoding keeps every byte, as base64 and hex do.
abbrev pub KeepsBytes : NodeCrypto → String → Type 0
KeepsBytes node encoding =
    (bytes : Bytes) → node.from_text (node.to_text bytes encoding) encoding ≡ bytes

-- The text is one of the encoding.
abbrev pub IsEncoded : NodeCrypto → String → String → Type 0
IsEncoded node text encoding = node.to_text (node.from_text text encoding) encoding ≡ text

module _ (node : NodeCrypto) (behaves : Behaves node) where
  cipher_hex_of :
      (text encoding key_content iv : String) (encrypted : Bytes)
      → node.cipher_update
          (node.from_text key_content "hex")
          (node.from_text iv "hex")
          (node.from_text text encoding)
        ≡ some encrypted
      → cipher_hex node text encoding key_content iv ≡ some (node.to_text encrypted "hex")
  unfolding cipher_hex
  cipher_hex_of text encoding key_content iv encrypted h =
      rw (h, behaves.no_tail _ _ _ encrypted h, behaves.hex_empty)
        (ap some (append-nil (node.to_text encrypted "hex")))

  -- What is encrypted is decrypted again: with a key and a vector that the cipher takes, the encryption
  -- of a text gives a text, and its decryption with the vector that was answered, the encodings
  -- exchanged, gives the text that was encrypted; if the text is one of its encoding and the encoding
  -- of the encrypted text keeps every byte.
  pub symmetric_aes_decrypt-encrypt :
      (random : Bytes) (text encoding key_content output_encoding : String) (iv : Option String)
      (taken : Bytes)
      → IsEncoded node text encoding
      → KeepsBytes node output_encoding
      → node.cipher_update
          (node.from_text key_content "hex")
          (node.from_text (or_else iv (node.to_text random "hex")) "hex")
          (node.from_text text encoding)
        ≡ some taken
      → let answer =
          symmetric_aes_encrypt node random text encoding key_content output_encoding iv in
        (encrypted : String) × (answer.0 ≡ some encrypted)
        × ((symmetric_aes_decrypt node encrypted output_encoding key_content answer.1 encoding).0
            ≡ some text)
  unfolding symmetric_aes_encrypt symmetric_aes_decrypt
  symmetric_aes_decrypt-encrypt random text encoding key_content output_encoding iv taken is_text
        keeps h =
      let vector = or_else iv (node.to_text random "hex") in
      let bytes = node.from_text text encoding in
      let back = behaves.undo _ _ bytes taken h in
      (
        node.to_text taken output_encoding,
        rw (cipher_hex_of text encoding key_content vector taken h, behaves.hex_read taken),
        rw
            (
              cipher_hex_of (node.to_text taken output_encoding) output_encoding key_content vector
                  bytes (rw (keeps taken) back),
              behaves.hex_read bytes,
            )
            (ap some is_text),
      )

-- The key of the other type.
abbrev pub other : KeyType → KeyType
other public_key = private_key
other private_key = public_key

-- What a pair of keys promises: under one padding, the other key undoes an encryption.
abbrev pub IsPair : NodeCrypto → (KeyType → String) → Type 0
IsPair node keys =
    (key_type : KeyType) (padding : Padding) (bytes encrypted : Bytes)
    → node.rsa_encrypt key_type padding (keys key_type) bytes ≡ some encrypted
    → node.rsa_decrypt (other key_type) padding (keys (other key_type)) encrypted ≡ some bytes

decrypted_bytes :
    (node : NodeCrypto) (keys : KeyType → String) (key_type : KeyType) (bytes encrypted : Bytes)
    → IsPair node keys
    → node.rsa_encrypt key_type (encrypt_padding key_type) (keys key_type) bytes ≡ some encrypted
    → node.rsa_decrypt
        (other key_type)
        (decrypt_padding (other key_type))
        (keys (other key_type))
        encrypted
      ≡ some bytes
unfolding encrypt_padding decrypt_padding
decrypted_bytes node keys public_key bytes encrypted pair h = pair public_key _ bytes encrypted h
decrypted_bytes node keys private_key bytes encrypted pair h = pair private_key _ bytes encrypted h

-- What one key of a pair encrypts the other one decrypts, whichever key encrypts: both choose the same
-- padding. The text is one of its encoding, the encoding of the encrypted text keeps every byte, and
-- the first key takes the text.
pub asymmetric_rsa_decrypt-encrypt :
    (node : NodeCrypto) (keys : KeyType → String) (key_type : KeyType)
    (text encoding output_encoding : String) (taken : Bytes)
    → IsPair node keys
    → IsEncoded node text encoding
    → KeepsBytes node output_encoding
    → node.rsa_encrypt key_type
        (encrypt_padding key_type)
        (keys key_type)
        (node.from_text text encoding)
      ≡ some taken
    → (encrypted : String) × (asymmetric_rsa_encrypt node text encoding key_type
          (keys key_type)
          output_encoding
        ≡ some encrypted)
      × (asymmetric_rsa_decrypt node encrypted output_encoding
            (other key_type)
            (keys (other key_type))
            encoding
          ≡ some text)
unfolding asymmetric_rsa_encrypt asymmetric_rsa_decrypt
asymmetric_rsa_decrypt-encrypt node keys key_type text encoding output_encoding taken pair is_text
      keeps h =
    (
      node.to_text taken output_encoding,
      rw h,
      rw (keeps taken, decrypted_bytes node keys key_type _ taken pair h) (ap some is_text),
    )
