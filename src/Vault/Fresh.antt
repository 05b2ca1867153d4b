-- ===== src/Vault/Fresh.antt =====
-- server/vault/sqlite.go: identifiers are never handed out twice.
use rport.Prelude.{
  ℤ, pos, negsuc, ℕ, suc, ◌<◌, ◌≡◌, refl, arith, ◌==◌, Bool-cases, inl, inr, All-append, All-map,
  String, ◌⊎◌,
}
use rport.Result.{ok, err, Result-cases}
use rport.Enc.{Bytes, Crypto}
use rport.Vault.Model.{InputValue, User, Error, Env}
use rport.Vault.Sqlite.{
  Factory, without_id, changed_row, provider_save, save_at, provider_delete, init_factory,
  provider_set_status,
}
use rport.Vault.Manager.{Manager, init, unlock, lock, store, delete}
use rport.Vault.Rows.{update-AreBelow, without-AreBelow}
use rport.Vault.Values.{HasFreshIds, save-rows, store_encrypted}
use rport.Vault.Steps.{Step, inits, unlocks, locks, stores, deletes, Reach, here, next}

abbrev SameValues : Manager → Manager → Type 0
SameValues m n =
    (n.factory.disk.values ≡ m.factory.disk.values)
    × (n.factory.disk.next_id ≡ m.factory.disk.next_id)

same_values :
    (m n : Manager) → SameValues m n → HasFreshIds m.factory.disk → HasFreshIds n.factory.disk
same_values m n (v, i) fresh = rw (v, i) fresh

save-HasFreshIds :
    (env : Env) (f f' : Factory) (user : String) (id n : ℕ) (iv : InputValue)
    → save_at env f user id iv ≡ ok (n, f')
    → HasFreshIds f.disk
    → HasFreshIds f'.disk
save-HasFreshIds env f f' user id n iv saved fresh =
    let (_, rows, next_id, _, _) = save-rows env f f' user id n iv saved in
    elim (Bool-cases (id == 0)) [
      | inl new ↦
          rw (rows, next_id, new)
            (All-append (λ v. v.id < suc f.disk.next_id) f.disk.values _
              (All-map _ _ f.disk.values (λ v h. omega arith) fresh) (omega arith))
      | inr update ↦
          rw (rows, next_id, update)
            (update-AreBelow id (changed_row env user iv) (λ v. refl) f.disk.next_id f.disk.values
              fresh)
    ]

module _ (c : Crypto) (env : Env) (m : Manager) where
  init-SameValues : (pass : Bytes) → SameValues m (init c env pass m).1
  unfolding init init_factory provider_set_status
  init-SameValues pass = (ground arith, ground arith)

  unlock-SameValues : (pass : Bytes) → SameValues m (unlock c env pass m).1
  unfolding unlock
  unlock-SameValues pass = (ground arith, ground arith)

  lock-SameValues : SameValues m (lock env m).1
  unfolding lock
  lock-SameValues = (ground arith, ground arith)

  delete_outcome :
      (id : ℕ) (user : User)
      → SameValues m (delete env id user m).1
        ⊎ ((delete env id user m).1 ≡ record m {
          factory = record m.factory {
            disk = record m.factory.disk { values = without_id id m.factory.disk.values };
          };
        })
  unfolding delete provider_delete
  delete_outcome id user = ground arith

  -- A call of `Store` that fails changes nothing.
  store_failed :
      (id : ℤ) (iv : InputValue) (user : User) (e : Error)
      → (store c env id iv user m).0 ≡ err e
      → (store c env id iv user m).1 ≡ m
  unfolding store
  store_failed id iv user e h = ground arith

  -- A store under a negative identifier writes nothing.
  store_negative :
      (k : ℕ) (iv : InputValue) (user : User) → (store c env (negsuc k) iv user m).1 ≡ m
  unfolding store provider_save
  store_negative k iv user = ground arith

  stored_pos :
      (id k : ℕ) (iv : InputValue) (user : User)
      → ¬ ((store c env (pos id) iv user m).0 ≡ ok (negsuc k))
  unfolding store provider_save
  stored_pos id k iv user h = ground arith

  store_at-HasFreshIds :
      (id : ℕ) (iv : InputValue) (user : User)
      → HasFreshIds m.factory.disk
      → HasFreshIds (store c env (pos id) iv user m).1.factory.disk
  store_at-HasFreshIds id iv user fresh = elim (Result-cases (store c env (pos id) iv user m).0) [
    | inr (e, failed) ↦ rw (store_failed (pos id) iv user e failed) fresh
    | inl (pos n, done) ↦
        let (e, _, saved, _, _) =
          store_encrypted c env id iv user m (λ i. (done i, (store c env (pos id) iv user m).1)) in
        save-HasFreshIds env _ _ user.username id n _ saved fresh
    | inl (negsuc k, done) ↦ absurd (stored_pos id k iv user done)
  ]

  store-HasFreshIds :
      (id : ℤ) (iv : InputValue) (user : User)
      → HasFreshIds m.factory.disk
      → HasFreshIds (store c env id iv user m).1.factory.disk
  store-HasFreshIds (pos id) iv user fresh = store_at-HasFreshIds id iv user fresh
  store-HasFreshIds (negsuc k) iv user fresh = rw (store_negative k iv user) fresh

  delete-HasFreshIds :
      (id : ℕ) (user : User)
      → HasFreshIds m.factory.disk
      → HasFreshIds (delete env id user m).1.factory.disk
  delete-HasFreshIds id user fresh = elim (delete_outcome id user) [
    | inl same ↦ same_values m (delete env id user m).1 same fresh
    | inr removed ↦
        rw removed (without-AreBelow id m.factory.disk.next_id m.factory.disk.values fresh)
  ]

Step-HasFreshIds :
    (c : Crypto) {m n : Manager}
    → Step c m n
    → HasFreshIds m.factory.disk
    → HasFreshIds n.factory.disk
Step-HasFreshIds c {m} (inits env pass sized) fresh =
    same_values m (init c env pass m).1 (init-SameValues c env m pass) fresh
Step-HasFreshIds c {m} (unlocks env pass) fresh =
    same_values m (unlock c env pass m).1 (unlock-SameValues c env m pass) fresh
Step-HasFreshIds c {m} (locks env) fresh =
    same_values m (lock env m).1 (lock-SameValues c env m) fresh
Step-HasFreshIds c {m} (stores env id iv user) fresh = store-HasFreshIds c env m id iv user fresh
Step-HasFreshIds c {m} (deletes env id user) fresh = delete-HasFreshIds c env m id user fresh

-- Whatever calls are made, also failing ones, every identifier in the table stays below the next
-- one that is handed out, so that a new value never takes the identifier of another.
pub Reach-HasFreshIds :
    (c : Crypto) (m n : Manager)
    → Reach c m n
    → HasFreshIds m.factory.disk
    → HasFreshIds n.factory.disk
Reach-HasFreshIds c m n here fresh = fresh
Reach-HasFreshIds c m n (next {n = o} r s) fresh =
    Step-HasFreshIds c s (Reach-HasFreshIds c m o r fresh)
