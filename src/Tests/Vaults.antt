-- ===== src/Tests/Vaults.antt =====
-- Runs of the vault: set up, locked, unlocked, a value stored, read and deleted.
use rport.Prelude.{pos, negsuc, arith, ◌≡◌, refl, false, [], ◌∷◌, none, some}
use rport.Result.{ok, err, is_ok}
use rport.Enc.{Bytes, aes256_encrypt_by_pass, aes256_decrypt_by_pass}
use rport.Enc.RoundTrip.{decrypt-encrypt}
use rport.Vault.Model.{
  InputValue, StoredValue, User, Env, validate, locked, wrong_password, group_forbidden,
  another_key,
}
use rport.Vault.Pass.{validate_pass, pass_match, get_enc_rand_value, timestamp_hash}
use rport.Vault.Sqlite.{
  Factory, first, without_id, update_id, init_factory, provider_get_status, provider_set_status,
  provider_get_by_id, provider_find, save_at, provider_save, provider_delete,
}
use rport.Vault.Manager.{
  Manager, is_locked, init, unlock, lock, store, get_one, delete, open_found, status,
}
use rport.Vault.Locking.{IsOpenWith}
use rport.Vault.Unlocking.{unlock-init}
use rport.Vault.Steps.{
  inits, locks, stores, Reach, here, next, new_manager, HasSizedNonce, Reach-IsOpenWith,
}
use rport.Vault.Values.{get_one-store}
use rport.Vault.Access.{IsForbidden, forbidden_untouched}
use rport.Tests.ToyCrypto.{toy, toy-IsCrypto}

vault : Unit {0}
unfolding init unlock lock store get_one delete open_found status validate validate_pass pass_match
    get_enc_rand_value timestamp_hash first without_id update_id init_factory provider_get_status
    provider_set_status provider_get_by_id provider_find save_at provider_save provider_delete
    is_locked aes256_encrypt_by_pass aes256_decrypt_by_pass
vault = tt

abbrev calm : Env
calm = record { fault = λ op. false; now = 7; random = some (1 ∷ 2 ∷ []); unix_nano = 49 ∷ [] }

abbrev blank : Factory
blank = record { disk = record { status = none; values = []; next_id = 1 }; opened = false }

abbrev pass : Bytes
pass = 1 ∷ 2 ∷ 3 ∷ 4 ∷ []

abbrev ann : User
ann = record { username = "ann"; groups = "ops" ∷ [] }

abbrev bob : User
bob = record { username = "bob"; groups = [] }

abbrev secret : InputValue
secret = record {
  client_id = "c1";
  required_group = "ops";
  key = "root";
  value = 42 ∷ [];
  value_type = "secret";
}

abbrev set_up : Manager
set_up = (init toy calm pass (new_manager blank)).1

abbrev closed : Manager
closed = (lock calm set_up).1

abbrev filled : Manager
filled = (store toy calm (pos 0) secret ann set_up).1

vault_tests :
    ((init toy calm pass (new_manager blank)).0 ≡ ok tt)
    × ((unlock toy calm (9 ∷ 9 ∷ []) closed).0 ≡ err wrong_password)
    × ((unlock toy calm pass closed).0 ≡ ok tt)
    × ((store toy calm (pos 0) secret ann set_up).0 ≡ ok (pos 1))
    × (store toy calm (negsuc 4) (record secret { key = "new" }) ann filled
        ≡ (ok (negsuc 4), filled))
    × (get_one toy calm 1 bob filled ≡ err group_forbidden)
    × (get_one toy calm 1 ann closed ≡ err locked)
    × ((delete calm 1 ann filled).0 ≡ ok tt)
    × ((store toy calm (pos 0) secret ann filled).0 ≡ err (another_key "root" "c1"))
    × ((store toy calm (pos 1) secret ann filled).0 ≡ ok (pos 1))
unfolding vault
vault_tests = (refl, refl, refl, refl, refl, refl, refl, refl, refl, refl)

decrypt-encrypt_example :
    (e : Bytes) × (aes256_encrypt_by_pass toy (42 ∷ []) pass (some (1 ∷ 2 ∷ [])) ≡ ok e)
    × (aes256_decrypt_by_pass toy e pass ≡ ok (42 ∷ []))
decrypt-encrypt_example = decrypt-encrypt toy toy-IsCrypto (42 ∷ []) pass (1 ∷ 2 ∷ []) refl

calm_nonce : HasSizedNonce toy calm
calm_nonce nonce e = ground arith

used : Reach toy (new_manager blank) filled
used = next (next here (inits calm pass calm_nonce)) (stores calm (pos 0) secret ann)

Reach-IsOpenWith_example : IsOpenWith toy filled.pass filled.factory
unfolding vault
Reach-IsOpenWith_example = Reach-IsOpenWith toy toy-IsCrypto blank filled (λ s e. cc) used refl

abbrev later : Manager
later = (lock calm (init toy calm (5 ∷ 6 ∷ 7 ∷ 8 ∷ []) set_up).1).1

meanwhile : Reach toy set_up later
meanwhile = next (next here (inits calm (5 ∷ 6 ∷ 7 ∷ 8 ∷ []) calm_nonce)) (locks calm)

unlock-init_example : unlock toy calm pass later ≡ (ok tt, record later { pass = pass })
unfolding vault
unlock-init_example =
    unlock-init toy toy-IsCrypto calm calm pass (new_manager blank) set_up later calm_nonce refl
      meanwhile refl refl

get_one-store_example :
    (v : StoredValue) × (get_one toy calm 1 ann filled ≡ ok (some v))
    × (v.input ≡ secret)
    × (v.updated_by ≡ some "ann")
unfolding vault
get_one-store_example =
    get_one-store toy toy-IsCrypto calm calm 0 secret ann ann set_up filled 1 calm_nonce tt refl
      refl refl refl

bob-IsForbidden : IsForbidden filled 1 bob
unfolding vault
bob-IsForbidden = record {
  row = record {
    input = record secret { value = 1 ∷ 2 ∷ 320 ∷ 42 ∷ [] };
    id = 1;
    created_at = 7;
    updated_at = 7;
    created_by = "ann";
    updated_by = some "ann";
  };
  found = refl;
  wants_group = refl;
  not_member = refl;
}

forbidden_untouched_example :
    (is_ok (get_one toy calm 1 bob filled) ≡ false)
    × (is_ok (delete calm 1 bob filled).0 ≡ false)
    × ((delete calm 1 bob filled).1 ≡ filled)
    × (is_ok (store toy calm (pos 1) secret bob filled).0 ≡ false)
    × ((store toy calm (pos 1) secret bob filled).1 ≡ filled)
forbidden_untouched_example = forbidden_untouched toy calm filled 1 bob bob-IsForbidden secret refl

abbrev emptied : Manager
emptied = (delete calm 1 ann filled).1
