-- ===== src/Vault/Steps.antt =====
-- server/vault/manager.go: any sequence of calls, each with its own environment, keeps the password
-- in memory one that opens the check value in the database.
use rport.Prelude.{
  ℤ, pos, negsuc, ℕ, true, false, some, [], ◌≡◌, length, ◌⊎◌, inl, inr, arith, Bool-cases, sym, ◌∙◌,
}
use rport.Enc.{Bytes, Crypto, IsCrypto}
use rport.Vault.Model.{db_status_init, DbStatus, InputValue, User, Env}
use rport.Vault.Pass.{pass_match}
use rport.Vault.Sqlite.{
  Db, Factory, init_factory, provider_get_status, provider_set_status, status_or_empty,
  provider_save, save_at, provider_delete,
}
use rport.Vault.Manager.{Manager, is_locked, init, unlock, lock, store, delete}
use rport.Vault.Locking.{IsOpenWith, init_when_open, init_when_locked}

-- Only `Init` writes the status, so a database has none, or the one that `Init` writes.
abbrev pub HasCleanStatus : Db → Type 0
HasCleanStatus d = (s : DbStatus) → d.status ≡ some s → s.status_name ≡ db_status_init

-- What the random source delivers fits the cipher.
abbrev pub HasSizedNonce : Crypto → Env → Type 0
HasSizedNonce c env = (nonce : Bytes) → env.random ≡ some nonce → length nonce ≡ c.nonce_size

-- `NewManager`
abbrev pub new_manager : Factory → Manager
new_manager f = record { pass = []; factory = f }

new_locked : (f : Factory) → ¬ (is_locked (new_manager f) ≡ false)
unfolding is_locked
new_locked f h = cc

module _ (c : Crypto) where
  pub record IsConsistent (m : Manager) : Type 0 where
    pub clean : HasCleanStatus m.factory.disk
    pub unlocked : is_locked m ≡ false → IsOpenWith c m.pass m.factory

  -- One call of a method that may change the manager or its database.
  pub data Step (m : Manager) : Manager → Type 0 where
    inits : (env : Env) (pass : Bytes) → HasSizedNonce c env → Step m (init c env pass m).1
    unlocks : (env : Env) (pass : Bytes) → Step m (unlock c env pass m).1
    locks : (env : Env) → Step m (lock env m).1
    stores :
        (env : Env) (id : ℤ) (iv : InputValue) (user : User) → Step m (store c env id iv user m).1
    deletes : (env : Env) (id : ℕ) (user : User) → Step m (delete env id user m).1

  pub data Reach (m : Manager) : Manager → Type 0 where
    here : Reach m m
    next : {n o : Manager} → Reach m n → Step n o → Reach m o

  init-clean :
      (env : Env) (m : Manager) (pass : Bytes)
      → HasCleanStatus m.factory.disk
      → HasCleanStatus (init c env pass m).1.factory.disk
  unfolding init provider_set_status init_factory
  init-clean env m pass clean s e = ground (arith, clean s)

  unlock_when_open :
      (env : Env) (m : Manager) (pass : Bytes) → is_locked m ≡ false → (unlock c env pass m).1 ≡ m
  unfolding unlock
  unlock_when_open env m pass h = ground arith

  unlock_when_locked :
      (env : Env) (m : Manager) (pass : Bytes)
      → is_locked m ≡ true
      → HasCleanStatus m.factory.disk
      → is_locked (unlock c env pass m).1 ≡ false
      → IsOpenWith c (unlock c env pass m).1.pass (unlock c env pass m).1.factory
  unfolding unlock pass_match provider_get_status is_locked
  unlock_when_locked env m pass l clean h =
      let stored : m.factory.disk.status ≡ some (status_or_empty m.factory.disk.status) =
        ground arith in
      record {
        status = status_or_empty m.factory.disk.status;
        opened = ground arith;
        stored = ground arith;
        set_up = clean _ stored;
        check_value = ground arith;
        opens = ground arith;
      }

  pub unlock-clean :
      (env : Env) (m : Manager) (pass : Bytes) → (unlock c env pass m).1.factory ≡ m.factory
  unfolding unlock
  unlock-clean env m pass = ground arith

  unlock-IsConsistent :
      (env : Env) (m : Manager) (pass : Bytes)
      → IsConsistent m
      → IsConsistent (unlock c env pass m).1
  unlock-IsConsistent env m pass v = record {
    clean = rw (unlock-clean env m pass) v.clean;
    unlocked = elim (Bool-cases (is_locked m)) [
      | inl l ↦ unlock_when_locked env m pass l v.clean
      | inr un ↦ rw (unlock_when_open env m pass un) v.unlocked
    ];
  }

  init-IsConsistent :
      (laws : IsCrypto c) (env : Env) (m : Manager) (pass : Bytes)
      → HasSizedNonce c env
      → IsConsistent m
      → IsConsistent (init c env pass m).1
  init-IsConsistent laws env m pass sized v = record {
    clean = init-clean env m pass v.clean;
    unlocked = elim (Bool-cases (is_locked m)) [
      | inl l ↦ init_when_locked c laws env sized m pass l
      | inr un ↦ rw (init_when_open c laws env sized m pass (v.unlocked un)) v.unlocked
    ];
  }

  pub lock_outcome :
      (env : Env) (m : Manager) → ((lock env m).1 ≡ m) ⊎ ((lock env m).1 ≡ record m { pass = [] })
  unfolding lock is_locked
  lock_outcome env m = ground arith

  lock-IsConsistent : (env : Env) (m : Manager) → IsConsistent m → IsConsistent (lock env m).1
  unfolding is_locked
  lock-IsConsistent env m v = elim (lock_outcome env m) [
    | inl same ↦ rw same v
    | inr emptied ↦ rw emptied (record { clean = v.clean; unlocked = λ h. cc })
  ]

  abbrev SameLock : Manager → Manager → Type 0
  SameLock m n =
      (n.pass ≡ m.pass)
      × (n.factory.opened ≡ m.factory.opened)
      × (n.factory.disk.status ≡ m.factory.disk.status)

  same_lock : (m n : Manager) → SameLock m n → IsConsistent m → IsConsistent n
  unfolding is_locked
  same_lock m n (p, o, s) v = record {
    clean = λ t e. v.clean t (sym s ∙ e);
    unlocked = λ h.
        let u = v.unlocked (rw p at h) in
        record {
          status = u.status;
          opened = o ∙ u.opened;
          stored = s ∙ u.stored;
          set_up = u.set_up;
          check_value = u.check_value;
          opens = rw p u.opens;
        };
  }

  pub store_keeps :
      (env : Env) (m : Manager) (id : ℤ) (iv : InputValue) (user : User)
      → SameLock m (store c env id iv user m).1
  unfolding store provider_save save_at
  store_keeps env m (pos id) iv user = ground arith
  store_keeps env m (negsuc k) iv user = ground arith

  pub delete_keeps :
      (env : Env) (m : Manager) (id : ℕ) (user : User) → SameLock m (delete env id user m).1
  unfolding delete provider_delete
  delete_keeps env m id user = ground arith

  Step-IsConsistent :
      (laws : IsCrypto c) {m n : Manager} → Step m n → IsConsistent m → IsConsistent n
  Step-IsConsistent laws {m} (inits env pass sized) v = init-IsConsistent laws env m pass sized v
  Step-IsConsistent laws {m} (unlocks env pass) v = unlock-IsConsistent env m pass v
  Step-IsConsistent laws {m} (locks env) v = lock-IsConsistent env m v
  Step-IsConsistent laws {m} (stores env id iv user) v =
      same_lock m _ (store_keeps env m id iv user) v
  Step-IsConsistent laws {m} (deletes env id user) v = same_lock m _ (delete_keeps env m id user) v

  Reach-IsConsistent :
      (laws : IsCrypto c) {m n : Manager} → Reach m n → IsConsistent m → IsConsistent n
  Reach-IsConsistent laws here v = v
  Reach-IsConsistent laws (next r s) v = Step-IsConsistent laws s (Reach-IsConsistent laws r v)

  -- From a new manager over a database whose status only `Init` has written, after any sequence of
  -- calls, one after the other and failing ones included: while the vault is unlocked, its database is open and set up, and
  -- the password in memory decrypts the check value, which is not empty.
  pub Reach-IsOpenWith :
      (laws : IsCrypto c) (f : Factory) (m : Manager)
      → HasCleanStatus f.disk
      → Reach (new_manager f) m
      → is_locked m ≡ false
      → IsOpenWith c m.pass m.factory
  Reach-IsOpenWith laws f m clean r =
      (Reach-IsConsistent laws r
        (record { clean = clean; unlocked = λ h. absurd (new_locked f h) })).unlocked
