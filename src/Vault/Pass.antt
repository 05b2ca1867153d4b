-- ===== src/Vault/Pass.antt =====
-- server/vault/pass.go. `PassMatch` compares the decrypted value only with itself, so nothing but
-- the success of the decryption counts.
use rport.Prelude.{ℕ, Bool, false, ◌++◌, [], length, is_empty, ltb, if◌then◌else◌}
use rport.Result.{Result, ok, err, and_then, map_err, is_ok}
use rport.Enc.{Bytes, Crypto, aes256_encrypt_by_pass, aes256_decrypt_by_pass}
use rport.Vault.Model.{DbStatus, Error, too_short, too_long, check_value_empty, crypto, Env}

abbrev pub min_pass_length_bytes : ℕ
min_pass_length_bytes = 4

abbrev pub max_pass_length_bytes : ℕ
max_pass_length_bytes = 32

unfoldable pub validate_pass : Bytes → Result Error (Unit {0})
validate_pass pass_to_check =
    if ltb (length pass_to_check) min_pass_length_bytes
    then err (too_short (length pass_to_check))
    else if ltb max_pass_length_bytes (length pass_to_check)
    then err (too_long (length pass_to_check))
    else ok tt

module _ (c : Crypto) where
  unfoldable pub pass_match : DbStatus → Bytes → Result Error Bool
  pass_match db_status pass_to_check =
      if is_empty pass_to_check
      then ok false
      else if is_empty db_status.enc_check_value
      then err check_value_empty
      else ok (is_ok (aes256_decrypt_by_pass c db_status.enc_check_value pass_to_check))

  -- `sha256.New().Sum(b)` appends the hash of the empty message to `b`.
  unfoldable pub timestamp_hash : Bytes → Bytes
  timestamp_hash timestamp = timestamp ++ c.sha256 []

  -- The encrypted value and the plain one.
  unfoldable pub get_enc_rand_value : Env → Bytes → Result Error (Bytes × Bytes)
  get_enc_rand_value env pass =
      and_then
        (map_err crypto (aes256_encrypt_by_pass c (timestamp_hash env.unix_nano) pass env.random))
        λ enc_value. ok (enc_value, timestamp_hash env.unix_nano)
