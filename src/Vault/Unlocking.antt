-- ===== src/Vault/Unlocking.antt =====
-- server/vault/manager.go: the password with which the vault was set up keeps unlocking it.
use rport.Prelude.{true, false, ◌≡◌, inl, inr, arith, is_empty, ◌∙◌}
use rport.Result.{ok}
use rport.Enc.{Bytes, Crypto, IsCrypto}
use rport.Vault.Model.{Env, get_status}
use rport.Vault.Pass.{pass_match}
use rport.Vault.Sqlite.{Factory, provider_get_status}
use rport.Vault.Manager.{Manager, is_locked, init, unlock}
use rport.Vault.Locking.{IsOpenWith, init_when_open, init_ok, is_not_init-set_up}
use rport.Vault.Steps.{
  HasSizedNonce, Step, inits, unlocks, locks, stores, deletes, Reach, here, next, unlock-clean,
  lock_outcome, store_keeps, delete_keeps,
}

module _ (c : Crypto) (pass : Bytes) where
  same_IsOpenWith :
      (f f' : Factory)
      → f'.opened ≡ f.opened
      → f'.disk.status ≡ f.disk.status
      → IsOpenWith c pass f
      → IsOpenWith c pass f'
  same_IsOpenWith f f' o s open_ = record {
    status = open_.status;
    opened = o ∙ open_.opened;
    stored = s ∙ open_.stored;
    set_up = open_.set_up;
    check_value = open_.check_value;
    opens = open_.opens;
  }

  Step-IsOpenWith :
      (laws : IsCrypto c) {m n : Manager}
      → Step c m n
      → IsOpenWith c pass m.factory
      → IsOpenWith c pass n.factory
  Step-IsOpenWith laws {m} (inits env other sized) o =
      rw (init_when_open c laws env sized m other o) o
  Step-IsOpenWith laws {m} (unlocks env other) o = rw (unlock-clean c env m other) o
  Step-IsOpenWith laws {m} (locks env) o = elim (lock_outcome c env m) [
    | inl same ↦ rw same o
    | inr emptied ↦ rw emptied o
  ]
  Step-IsOpenWith laws {m} (stores env id iv user) o =
      let (_, opened, status) = store_keeps c env m id iv user in
      same_IsOpenWith m.factory _ opened status o
  Step-IsOpenWith laws {m} (deletes env id user) o =
      let (_, opened, status) = delete_keeps c env m id user in
      same_IsOpenWith m.factory _ opened status o

  Reach-stays_open :
      (laws : IsCrypto c) {m n : Manager}
      → Reach c m n
      → IsOpenWith c pass m.factory
      → IsOpenWith c pass n.factory
  Reach-stays_open laws here o = o
  Reach-stays_open laws (next r s) o = Step-IsOpenWith laws s (Reach-stays_open laws r o)

  unlock_open :
      (env : Env) (m : Manager)
      → IsOpenWith c pass m.factory
      → is_locked m ≡ true
      → is_empty pass ≡ false
      → env.fault get_status ≡ false
      → unlock c env pass m ≡ (ok tt, record m { pass = pass })
  unfolding unlock pass_match provider_get_status
  unlock_open env m o l named fine =
      ground
        (arith, is_not_init-set_up o.status o.set_up, o.opened, o.stored, o.check_value, o.opens)

-- The password with which `Init` succeeded unlocks the vault at any later time: after whatever calls,
-- one after the other and failing ones included, also further ones of `Init` with other passwords,
-- the vault, if it is locked, unlocks with that password, as long as sqlite answers.
pub unlock-init :
    (c : Crypto) (laws : IsCrypto c) (env env' : Env) (pass : Bytes) (m m' n : Manager)
    → HasSizedNonce c env
    → init c env pass m ≡ (ok tt, m')
    → Reach c m' n
    → is_locked n ≡ true
    → env'.fault get_status ≡ false
    → unlock c env' pass n ≡ (ok tt, record n { pass = pass })
unlock-init c laws env env' pass m m' n sized done r l fine =
    let (open_, named) = init_ok c laws env sized m m' pass done in
    unlock_open c pass env' n (Reach-stays_open c pass laws r open_) l named fine
