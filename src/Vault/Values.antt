-- ===== src/Vault/Values.antt =====
-- server/vault/manager.go: values go in and come out. A stored value is read back in the clear by
-- whom its group admits, and nobody else reads, changes or deletes it.
use rport.Prelude.{
  pos, ℕ, suc, String, true, false, Option, none, some, [], ◌∷◌, ◌++◌, ◌≡◌, refl, length, ap, arith,
  ◌==◌, if◌then◌else◌, Bool-cases, Option-cases, ◌||◌, inl, inr, str_eq,
}
use rport.Result.{ok, Result-cases}
use rport.Enc.{Bytes, Crypto, IsCrypto, aes256_encrypt_by_pass, aes256_decrypt_by_pass}
use rport.Enc.RoundTrip.{decrypt_of_encrypt}
use rport.Vault.Model.{InputValue, StoredValue, User, Env, get_status, get_by_id}
use rport.Vault.Sqlite.{
  Db, Factory, has_id, first, update_id, new_row, changed_row, provider_save, save_at,
  provider_get_status, provider_get_by_id,
}
use rport.Vault.Manager.{
  Manager, group_matches, check_group_access, check_unlocked_and_initialized, open_found, get_one,
  store,
}
use rport.Vault.Rows.{AreBelow, first-append, first_above, first-update}

abbrev pub HasFreshIds : Db → Type 0
HasFreshIds d = AreBelow d.next_id d.values

module _ (c : Crypto) (env : Env) (id : ℕ) (iv : InputValue) (user : User) (m : Manager) where
  -- The row that a successful `Store` leaves under the identifier that it returns.
  pub store_encrypted :
      {n : ℕ} {m' : Manager}
      → store c env (pos id) iv user m ≡ (ok (pos n), m')
      → (e : Bytes) × (aes256_encrypt_by_pass c iv.value m.pass env.random ≡ ok e)
        × (save_at env m.factory user.username id (record iv { value = e }) ≡ ok (n, m'.factory))
        × (m'.pass ≡ m.pass)
        × (check_unlocked_and_initialized env m ≡ ok tt)
  unfolding store provider_save
  store_encrypted h = elim (Result-cases (aes256_encrypt_by_pass c iv.value m.pass env.random)) [
    | inr (e, failed) ↦ absurd (ground arith)
    | inl (e, made) ↦ (e, made, ground arith, ground arith, ground arith)
  ]

  -- An update goes to a row that exists and whose group admits the user.
  store_existing :
      {n : ℕ} {m' : Manager}
      → store c env (pos id) iv user m ≡ (ok (pos n), m')
      → (id == 0) ≡ false
      → (v : StoredValue) × (first (has_id id) m.factory.disk.values ≡ some v)
        × (check_group_access v user ≡ ok tt)
  unfolding store provider_get_by_id
  store_existing h update = elim (Option-cases (first (has_id id) m.factory.disk.values)) [
    | inl missing ↦ absurd (ground arith)
    | inr (v, found) ↦ (v, found, ground arith)
  ]

module _ (env : Env) (f f' : Factory) (user : String) (id n : ℕ) (iv : InputValue)
    (saved : save_at env f user id iv ≡ ok (n, f')) where
  pub save-rows :
      (n ≡ (if id == 0 then f.disk.next_id else id))
      × (f'.disk.values ≡ (
          if id == 0
          then f.disk.values ++ new_row env user f.disk.next_id iv ∷ []
          else update_id id (changed_row env user iv) f.disk.values))
      × (f'.disk.next_id ≡ (if id == 0 then suc f.disk.next_id else f.disk.next_id))
      × (f'.opened ≡ f.opened)
      × (f'.disk.status ≡ f.disk.status)
  unfolding save_at
  save-rows = (ground arith, ground arith, ground arith, ground arith, ground arith)

  -- The row under the identifier that a save returns is what was saved.
  save-first :
      (v : StoredValue)
      → HasFreshIds f.disk
      → ((id == 0) ≡ false → first (has_id id) f.disk.values ≡ some v)
      → first (has_id n) f'.disk.values
        ≡ some (if id == 0 then new_row env user n iv else changed_row env user iv v)
  save-first v fresh old = elim (Bool-cases (id == 0)) [
    | inl new ↦
        let at_end : n ≡ f.disk.next_id = rw new at save-rows.0 in
        rw (save-rows.1, new, at_end)
          (first-append (has_id f.disk.next_id) f.disk.values _
            (first_above f.disk.next_id f.disk.values fresh) (ground arith))
    | inr update ↦
        let same : n ≡ id = rw update at save-rows.0 in
        rw (save-rows.1, update, same)
          (first-update id (changed_row env user iv) (λ w. refl) f.disk.values v (old update))
  ]

pub unlocked_later :
    (env env' : Env) (m m' : Manager)
    → check_unlocked_and_initialized env m ≡ ok tt
    → m'.pass ≡ m.pass
    → m'.factory.opened ≡ m.factory.opened
    → m'.factory.disk.status ≡ m.factory.disk.status
    → env'.fault get_status ≡ false
    → check_unlocked_and_initialized env' m' ≡ ok tt
unfolding check_unlocked_and_initialized provider_get_status
unlocked_later env env' m m' ready p o s fine = ground arith

-- The row that `Store` writes: a new one, or the old one with new contents.
module _ (env : Env) (user : User) (id n : ℕ) (iv : InputValue) (e : Bytes) (m : Manager) where
  row_or_new : Option StoredValue → StoredValue
  row_or_new none = new_row env user.username n iv
  row_or_new (some v) = v

  written_row : StoredValue
  written_row =
      if id == 0
      then new_row env user.username n (record iv { value = e })
      else changed_row env user.username (record iv { value = e })
          (row_or_new (first (has_id id) m.factory.disk.values))

  written_row_fields :
      (written_row.input ≡ record iv { value = e }) × (written_row.updated_by ≡ some user.username)
  unfolding written_row
  written_row_fields = ground arith

written-first :
    (c : Crypto) (env : Env) (id : ℕ) (iv : InputValue) (user : User) (m m' : Manager) (n : ℕ)
    (e : Bytes)
    → store c env (pos id) iv user m ≡ (ok (pos n), m')
    → save_at env m.factory user.username id (record iv { value = e }) ≡ ok (n, m'.factory)
    → HasFreshIds m.factory.disk
    → first (has_id n) m'.factory.disk.values ≡ some (written_row env user id n iv e m)
unfolding written_row row_or_new
written-first c env id iv user m m' n e h saved fresh =
    save-first env m.factory m'.factory user.username id n (record iv { value = e }) saved
      (row_or_new env user id n iv e m (first (has_id id) m.factory.disk.values)) fresh
      λ update. let (v, found, _) = store_existing c env id iv user m h update in rw found

pub by_id_when_ready :
    (env : Env) (m : Manager) (n : ℕ) {row : StoredValue}
    → check_unlocked_and_initialized env m ≡ ok tt
    → env.fault get_by_id ≡ false
    → first (has_id n) m.factory.disk.values ≡ some row
    → provider_get_by_id env m.factory n ≡ ok (some row)
unfolding check_unlocked_and_initialized provider_get_status provider_get_by_id
by_id_when_ready env m n ready fine found = ground arith

module _ (c : Crypto) (laws : IsCrypto c) (env env' : Env) (id : ℕ) (iv : InputValue)
    (user reader : User) (m m' : Manager) (n : ℕ) where
  get_one_opens :
      (row : StoredValue)
      → check_unlocked_and_initialized env' m' ≡ ok tt
      → provider_get_by_id env' m'.factory n ≡ ok (some row)
      → check_group_access row reader ≡ ok tt
      → aes256_decrypt_by_pass c row.input.value m'.pass ≡ ok iv.value
      → get_one c env' n reader m'
        ≡ ok (some (record row { input = record row.input { value = iv.value } }))
  unfolding get_one open_found
  get_one_opens row ready found access opened = ground arith

  access_of_input :
      (row : StoredValue) {e : Bytes}
      → row.input ≡ record iv { value = e }
      → (str_eq iv.required_group "" || group_matches iv.required_group reader.groups) ≡ true
      → check_group_access row reader ≡ ok tt
  unfolding check_group_access
  access_of_input row input admits = rw input (ground arith)

  -- What `Store` accepts, `GetOne` gives back: after a successful store with an identifier that is not
  -- negative, under the identifier that it returned, and to every user whom the value's group admits,
  -- the value that was put in is read in the clear, with its other fields, as long as sqlite answers.
  pub get_one-store :
      (sized : (nonce : Bytes) → env.random ≡ some nonce → length nonce ≡ c.nonce_size)
      → HasFreshIds m.factory.disk
      → store c env (pos id) iv user m ≡ (ok (pos n), m')
      → (str_eq iv.required_group "" || group_matches iv.required_group reader.groups) ≡ true
      → env'.fault get_status ≡ false
      → env'.fault get_by_id ≡ false
      → (v : StoredValue) × (get_one c env' n reader m' ≡ ok (some v))
        × (v.input ≡ iv)
        × (v.updated_by ≡ some user.username)
  get_one-store sized fresh h admits fine fine' =
      let (e, made, saved, same_pass, ready) = store_encrypted c env id iv user m h in
      let stored : InputValue = record iv { value = e } in
      let rows = save-rows env m.factory m'.factory user.username id n stored saved in
      let row = written_row env user id n iv e m in
      let found = written-first c env id iv user m m' n e h saved fresh in
      let (input, updated_by) = written_row_fields env user id n iv e m in
      let ready' = unlocked_later env env' m m' ready same_pass rows.3 rows.4 fine in
      (
        record row { input = record row.input { value = iv.value } },
        get_one_opens row ready' (by_id_when_ready env' m' n ready' fine' found)
            (access_of_input row input admits)
            (rw (input, same_pass)
              (decrypt_of_encrypt c laws env.random sized iv.value m.pass e made).0),
        ap (λ (i : InputValue). record i { value = iv.value }) input,
        updated_by,
      )
