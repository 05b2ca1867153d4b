-- ===== src/Enc.antt =====
-- share/enc/aes.go. Texts and byte slices are lists of bytes. AES-GCM, SHA-256, base64 and the
-- random source are not this program's code: they are the parameter `Crypto`, and what the random
-- source delivers (`none` is a failed read) is an argument.
pub mod RoundTrip
use rport.Prelude.{
  ℕ, suc, ◌+◌, ◌≤◌, ◌<◌, ◌≡◌, Bool, true, not, Option, none, some, List, ◌++◌, length, take, drop,
  leb, ◌==◌,
}
use rport.Result.{Result, ok, err, and_then, refuse_if}

abbrev pub Bytes : Type 0
Bytes = List ℕ

pub record Crypto : Type 0 where
  -- `aes.NewCipher` with `cipher.NewGCM`: whether the key has a length that AES takes
  pub takes_key : Bytes → Bool
  pub nonce_size : ℕ
  -- `Seal` (without its prefix argument) and `Open`, by key and nonce
  pub seal : Bytes → Bytes → Bytes → Bytes
  pub unseal : Bytes → Bytes → Bytes → Option Bytes
  pub sha256 : Bytes → Bytes
  pub base64_encode : Bytes → Bytes
  pub base64_decode : Bytes → Option Bytes

-- The documented behaviour of those libraries, as far as the program relies on it.
pub record IsCrypto (c : Crypto) : Type 0 where
  pub takes_32 : (key : Bytes) → length key ≡ 32 → c.takes_key key ≡ true
  pub unseal-seal :
      (key nonce plain : Bytes)
      → length nonce ≡ c.nonce_size
      → c.unseal key nonce (c.seal key nonce plain) ≡ some plain
  -- the tag is never empty
  pub seal_nonempty : (key nonce plain : Bytes) → 0 < length (c.seal key nonce plain)
  pub sha256_length : (message : Bytes) → length (c.sha256 message) ≡ 32
  pub decode-encode : (message : Bytes) → c.base64_decode (c.base64_encode message) ≡ some message
  pub encode_nonempty :
      (message : Bytes) → 0 < length message → 0 < length (c.base64_encode message)

pub data Error : Type 0 where
  invalid_key_length : ℕ → Error
  bad_cipher_key no_random invalid_nonce_length authentication_failed bad_base64 : Error

abbrev pub or_fail {ℓ} : {A : Type ℓ} → Option A → Error → Result Error A
or_fail none e = err e
or_fail (some a) e = ok a

module _ (c : Crypto) where
  -- `convertPasswordToFixedLength32ByteAesKey`: writing to the hasher never fails.
  unfoldable pub convert_password : Bytes → Bytes
  convert_password password = c.sha256 password

  unfoldable pub aes256_encrypt : Bytes → Bytes → Option Bytes → Result Error Bytes
  aes256_encrypt payload aes32_key random =
      and_then (refuse_if (not (length aes32_key == 32)) (invalid_key_length (length aes32_key)))
        λ _. and_then (refuse_if (not (c.takes_key aes32_key)) bad_cipher_key) λ _.
          and_then (or_fail random no_random) λ nonce. ok (nonce ++ c.seal aes32_key nonce payload)

  unfoldable pub aes256_encrypt_by_pass : Bytes → Bytes → Option Bytes → Result Error Bytes
  unfolding aes256_encrypt convert_password
  aes256_encrypt_by_pass payload password random =
      and_then (aes256_encrypt payload (convert_password password) random)
        λ encrypted. ok (c.base64_encode encrypted)

  unfoldable pub aes_decrypt : Bytes → Bytes → Result Error Bytes
  aes_decrypt encrypted_data key = and_then (refuse_if (not (c.takes_key key)) bad_cipher_key) λ _.
      and_then (refuse_if (leb (length encrypted_data) c.nonce_size) invalid_nonce_length) λ _.
        or_fail (c.unseal key (take c.nonce_size encrypted_data) (drop c.nonce_size encrypted_data))
          authentication_failed

  unfoldable pub aes256_decrypt_by_pass : Bytes → Bytes → Result Error Bytes
  unfolding aes_decrypt convert_password
  aes256_decrypt_by_pass encrypted_base64_data password =
      and_then (or_fail (c.base64_decode encrypted_base64_data) bad_base64)
        λ encrypted. aes_decrypt encrypted (convert_password password)
