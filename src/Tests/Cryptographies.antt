-- ===== src/Tests/Cryptographies.antt =====
-- Examples of encryption and of tokens, over a small cipher and a small signature.
use Prim.Native.Char.{code}
use node_back_end_boilerplat.Cryptography.{
  NodeCrypto, Bytes, public_key, private_key, symmetric_aes_encrypt, symmetric_aes_decrypt,
  asymmetric_rsa_encrypt, asymmetric_rsa_decrypt,
}
use node_back_end_boilerplat.Cryptography.Ciphers.{
  Behaves, symmetric_aes_decrypt-encrypt, asymmetric_rsa_decrypt-encrypt,
}
use node_back_end_boilerplat.Prelude.{
  ℕ, zero, suc, String, eqb, if◌then◌else◌, some, none, [], ◌∷◌, map, ◌≡◌, refl, ap, arith,
}

-- A byte n is written as n letters a and one b.
abbrev unary : ℕ → String → String
unary zero s = String.◌∷◌ "b" s
unary (suc n) s = String.◌∷◌ "a" (unary n s)

abbrev write : Bytes → String
write [] = ""
write (n ∷ bytes) = unary n (write bytes)

abbrev bump : Bytes → Bytes
bump [] = []
bump (n ∷ bytes) = suc n ∷ bytes

abbrev read : String → Bytes
read String.[] = []
read (String.◌∷◌ c s) = if eqb (code c) b'b' then zero ∷ read s else bump (read s)

read-unary : (n : ℕ) (s : String) → read (unary n s) ≡ n ∷ read s
read-unary zero s = refl
read-unary (suc n) s = ap bump (read-unary n s)

read-write : (bytes : Bytes) → read (write bytes) ≡ bytes
read-write [] = refl
read-write (n ∷ bytes) = rw (read-unary n (write bytes)) (ap (◌∷◌ n) (read-write bytes))

-- The key stream changes the last bit of a byte.
abbrev flip : ℕ → ℕ
flip zero = 1
flip (suc zero) = 0
flip (suc (suc n)) = suc (suc n)

flip_twice : (n : ℕ) → flip (flip n) ≡ n
flip_twice zero = refl
flip_twice (suc zero) = refl
flip_twice (suc (suc n)) = refl

flips_twice : (bytes : Bytes) → map flip (map flip bytes) ≡ bytes
flips_twice [] = refl
flips_twice (n ∷ bytes) = rw (flip_twice n, flips_twice bytes)

abbrev node : NodeCrypto
node = record {
  from_text = λ text encoding. read text;
  to_text = λ bytes encoding. write bytes;
  digest = λ algorithm bytes format. none;
  cipher_update = λ key iv bytes. some (map flip bytes);
  cipher_final = λ key iv bytes. some [];
  rsa_sign = λ algorithm bytes key format. none;
  rsa_encrypt = λ t padding key bytes. some (map flip bytes);
  rsa_decrypt = λ t padding key bytes. some (map flip bytes);
}

undone :
    (bytes encrypted : Bytes)
    → some (map flip bytes) ≡ some encrypted
    → some (map flip encrypted) ≡ some bytes
undone bytes encrypted h = ground (arith, flips_twice bytes)

node_behaves : Behaves node
node_behaves = record {
  undo = λ key iv bytes encrypted h. undone bytes encrypted h;
  no_tail = λ key iv bytes encrypted h. refl;
  hex_read = read-write;
  hex_empty = refl;
}

symmetric_aes_decrypt-encrypt_example :
    let answer = symmetric_aes_encrypt node [] "aabb" "utf8" "b" "base64" (some "ab") in
    (encrypted : String) × (answer.0 ≡ some encrypted)
    × ((symmetric_aes_decrypt node encrypted "base64" "b" answer.1 "utf8").0 ≡ some "aabb")
symmetric_aes_decrypt-encrypt_example =
    symmetric_aes_decrypt-encrypt node node_behaves [] "aabb" "utf8" "b" "base64" (some "ab")
      (2 ∷ 1 ∷ []) refl read-write refl

asymmetric_rsa_decrypt-encrypt_example :
    (encrypted : String) × (asymmetric_rsa_encrypt node "ab" "utf8" private_key "key" "base64"
      ≡ some encrypted)
    × (asymmetric_rsa_decrypt node encrypted "base64" public_key "key" "utf8" ≡ some "ab")
asymmetric_rsa_decrypt-encrypt_example =
    asymmetric_rsa_decrypt-encrypt node (λ t. "key") private_key "ab" "utf8" "base64" (0 ∷ [])
      (λ t padding bytes encrypted h. undone bytes encrypted h) refl read-write refl
