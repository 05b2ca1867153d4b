-- ===== src/Enc/RoundTrip.antt =====
-- share/enc/aes.go: what is encrypted by a password is decrypted by it.
use rport.Prelude.{
  ◌<◌, is_empty, false, none, Option, ◌≢◌, ℕ, zero, suc, ◌≡◌, refl, ap, some, List, [], ◌∷◌, ◌++◌,
  length, length-append, take, drop, arith,
}
use rport.Result.{ok}
use rport.Enc.{
  Bytes, Crypto, IsCrypto, convert_password, aes256_encrypt, aes256_encrypt_by_pass, aes_decrypt,
  aes256_decrypt_by_pass,
}

take_append : {A : Type 0} (n : ℕ) (xs ys : List A) → length xs ≡ n → take n (xs ++ ys) ≡ xs
take_append zero [] ys h = refl
take_append zero (x ∷ xs) ys h = absurd (omega arith)
take_append (suc n) [] ys h = absurd (omega arith)
take_append (suc n) (x ∷ xs) ys h = ap (◌∷◌ x) (take_append n xs ys (omega arith))

drop_append : {A : Type 0} (n : ℕ) (xs ys : List A) → length xs ≡ n → drop n (xs ++ ys) ≡ ys
drop_append zero [] ys h = refl
drop_append zero (x ∷ xs) ys h = absurd (omega arith)
drop_append (suc n) [] ys h = absurd (omega arith)
drop_append (suc n) (x ∷ xs) ys h = drop_append n xs ys (omega arith)

not_empty : (xs : Bytes) → 0 < length xs → is_empty xs ≡ false
not_empty [] h = absurd (omega arith)
not_empty (x ∷ xs) h = refl

no_random-ne-ok :
    (c : Crypto) (payload password e : Bytes)
    → aes256_encrypt_by_pass c payload password none ≢ ok e
unfolding aes256_encrypt_by_pass aes256_encrypt
no_random-ne-ok c payload password e = ground arith

module _ (c : Crypto) (laws : IsCrypto c) (payload password nonce : Bytes)
    (sized : length nonce ≡ c.nonce_size) where
  abbrev key : Bytes
  key = convert_password c password

  key-length : length key ≡ 32
  unfolding convert_password
  key-length = laws.sha256_length password

  abbrev sealed : Bytes
  sealed = c.seal key nonce payload

  encrypt-sealed : aes256_encrypt c payload key (some nonce) ≡ ok (nonce ++ sealed)
  unfolding aes256_encrypt
  encrypt-sealed = ground (arith, key-length, laws.takes_32 key)

  decrypt-sealed : aes_decrypt c (nonce ++ sealed) key ≡ ok payload
  unfolding aes_decrypt
  decrypt-sealed =
      rw (take_append c.nonce_size nonce sealed sized, drop_append c.nonce_size nonce sealed sized)
        (ground (
          arith,
          laws.takes_32 key key-length,
          length-append nonce sealed,
          laws.seal_nonempty key nonce payload,
          laws.unseal-seal key nonce payload sized,
        ))

  -- With a random source that delivers a nonce, encryption by a password succeeds, and decryption
  -- by the same password gives back the payload.
  pub decrypt-encrypt :
      (e : Bytes) × (aes256_encrypt_by_pass c payload password (some nonce) ≡ ok e)
      × (aes256_decrypt_by_pass c e password ≡ ok payload)
  unfolding aes256_encrypt_by_pass aes256_decrypt_by_pass
  decrypt-encrypt = (
    c.base64_encode (nonce ++ sealed),
    unfold convert_password in rw encrypt-sealed,
    rw (laws.decode-encode (nonce ++ sealed)) decrypt-sealed,
  )

  pub encrypt_nonempty :
      (e : Bytes)
      → aes256_encrypt_by_pass c payload password (some nonce) ≡ ok e
      → is_empty e ≡ false
  unfolding aes256_encrypt_by_pass convert_password
  encrypt_nonempty e h = not_empty e (
      ground (
        arith,
        encrypt-sealed,
        length-append nonce sealed,
        laws.seal_nonempty key nonce payload,
        laws.encode_nonempty (nonce ++ sealed),
      ))

-- The same without a look at the random source: whatever encryption returns is decrypted.
pub decrypt_of_encrypt :
    (c : Crypto) (laws : IsCrypto c) (random : Option Bytes)
    (sized : (nonce : Bytes) → random ≡ some nonce → length nonce ≡ c.nonce_size)
    (payload password e : Bytes)
    → aes256_encrypt_by_pass c payload password random ≡ ok e
    → (aes256_decrypt_by_pass c e password ≡ ok payload) × (is_empty e ≡ false)
unfolding aes256_encrypt_by_pass
decrypt_of_encrypt c laws none sized payload password e h =
    absurd (no_random-ne-ok c payload password e h)
decrypt_of_encrypt c laws (some nonce) sized payload password e h =
    let fits = sized nonce refl in
    let (e', made, opened) = decrypt-encrypt c laws payload password nonce fits in
    (ground arith, encrypt_nonempty c laws payload password nonce fits e h)
