-- ===== src/Vault/Locking.antt =====
-- server/vault/manager.go: the vault as a lock. When calls are refused, which password unlocks, and
-- what an unlocked vault may rely on.
use rport.Prelude.{
  ℤ, ℕ, true, false, some, ◌≡◌, refl, length, ◌⊎◌, inl, inr, arith, eq_iff, is_empty,
}
use rport.Result.{ok, err, is_ok, Result-cases}
use rport.Enc.{Bytes, Crypto, IsCrypto, aes256_decrypt_by_pass}
use rport.Enc.RoundTrip.{decrypt_of_encrypt}
use rport.Vault.Model.{
  db_status_init, DbStatus, InputValue, User, Env, get_status, locked, db_failed,
}
use rport.Vault.Pass.{get_enc_rand_value, timestamp_hash, validate_pass}
use rport.Vault.Sqlite.{Factory, provider_get_status, provider_set_status}
use rport.Vault.Manager.{
  Manager, is_locked, is_not_init, is_database_initialized, init, get_one, store, delete,
}

-- A locked vault refuses every access to its values, and changes nothing.
pub locked_refuses :
    (c : Crypto) (env : Env) (m : Manager) (id : ℕ) (j : ℤ) (iv : InputValue) (user : User)
    → is_locked m ≡ true
    → (store c env j iv user m ≡ (err locked, m))
      × (get_one c env id user m ≡ err locked)
      × (delete env id user m ≡ (err locked, m))
unfolding store get_one delete
locked_refuses c env m id j iv user h = ground arith

pub is_not_init-set_up : (s : DbStatus) → s.status_name ≡ db_status_init → is_not_init s ≡ false
is_not_init-set_up s h = rw h

pub is_locked_lem : (m : Manager) → is_locked m ≡ is_empty m.pass
unfolding is_locked
is_locked_lem m = refl

-- The database is open and set up, and its check value opens with the password.
pub record IsOpenWith (c : Crypto) (pass : Bytes) (f : Factory) : Type 0 where
  pub status : DbStatus
  pub opened : f.opened ≡ true
  pub stored : f.disk.status ≡ some status
  pub set_up : status.status_name ≡ db_status_init
  pub check_value : is_empty status.enc_check_value ≡ false
  pub opens : is_ok (aes256_decrypt_by_pass c status.enc_check_value pass) ≡ true

module _ (c : Crypto) (laws : IsCrypto c) (env : Env)
    (sized : (nonce : Bytes) → env.random ≡ some nonce → length nonce ≡ c.nonce_size) where
  abbrev IsConsistent : Manager → Type 0
  IsConsistent m = is_locked m ≡ false → IsOpenWith c m.pass m.factory

  enc_rand_opens :
      (pass e d : Bytes)
      → get_enc_rand_value c env pass ≡ ok (e, d)
      → (is_ok (aes256_decrypt_by_pass c e pass) ≡ true) × (is_empty e ≡ false)
  unfolding get_enc_rand_value
  enc_rand_opens pass e d h =
      ground
        (arith, decrypt_of_encrypt c laws env.random sized (timestamp_hash c env.unix_nano) pass e)

  status_when_open :
      {known : Bytes} (m : Manager)
      → IsOpenWith c known m.factory
      → (is_database_initialized env m ≡ ok true)
        ⊎ (is_database_initialized env m ≡ err (db_failed get_status))
  unfolding is_database_initialized provider_get_status
  status_when_open m o = ground (arith, eq_iff o.status.status_name db_status_init)

  pub init_when_open :
      {known : Bytes} (m : Manager) (pass : Bytes)
      → IsOpenWith c known m.factory
      → (init c env pass m).1 ≡ m
  unfolding init
  init_when_open m pass o = ground (arith, status_when_open m o)

  pub init_when_locked :
      (m : Manager) (pass : Bytes) → is_locked m ≡ true → IsConsistent (init c env pass m).1
  unfolding init is_locked provider_set_status
  init_when_locked m pass l un = elim (Result-cases (get_enc_rand_value c env pass)) [
    | inr (e, failed) ↦ absurd (ground arith)
    | inl ((e, d), made) ↦
        let (opens, nonempty) = enc_rand_opens pass e d made in
        record {
          status = record {
            status_name = db_status_init;
            enc_check_value = e;
            dec_check_value = d;
          };
          opened = ground arith;
          stored = ground arith;
          set_up = refl;
          check_value = nonempty;
          opens = ground (arith, opens);
        }
  ]

  -- An Init that succeeds leaves a database that is set up with its password.
  pub init_ok :
      (m m' : Manager) (pass : Bytes)
      → init c env pass m ≡ (ok tt, m')
      → IsOpenWith c pass m'.factory × (is_empty pass ≡ false)
  unfolding init provider_set_status validate_pass
  init_ok m m' pass h = elim (Result-cases (get_enc_rand_value c env pass)) [
    | inr (e, failed) ↦ absurd (ground arith)
    | inl ((e, d), made) ↦
        let (opens, nonempty) = enc_rand_opens pass e d made in
        (
          record {
            status = record {
              status_name = db_status_init;
              enc_check_value = e;
              dec_check_value = d;
            };
            opened = ground arith;
            stored = ground arith;
            set_up = refl;
            check_value = nonempty;
            opens = opens;
          },
          ground arith,
        )
  ]
