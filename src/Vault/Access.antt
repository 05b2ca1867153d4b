-- ===== src/Vault/Access.antt =====
-- server/vault/manager.go: who may touch a value, and what a deletion leaves.
use rport.Prelude.{pos, ℕ, false, none, some, ◌≡◌, arith, ◌==◌, str_eq}
use rport.Result.{ok, err, is_ok}
use rport.Enc.{Crypto}
use rport.Vault.Model.{InputValue, StoredValue, User, Env, get_status, get_by_id, group_forbidden}
use rport.Vault.Sqlite.{
  has_id, first, without_id, provider_delete, provider_get_by_id, provider_get_status,
}
use rport.Vault.Manager.{
  Manager, group_matches, check_group_access, check_unlocked_and_initialized, open_found, get_one,
  store, delete,
}
use rport.Vault.Rows.{first-without, first-without_ne}
use rport.Vault.Values.{unlocked_later}

-- The value under `id` wants a group that the user is not in.
pub record IsForbidden (m : Manager) (id : ℕ) (user : User) : Type 0 where
  pub row : StoredValue
  pub found : first (has_id id) m.factory.disk.values ≡ some row
  pub wants_group : str_eq row.input.required_group "" ≡ false
  pub not_member : group_matches row.input.required_group user.groups ≡ false

module _ (c : Crypto) (env : Env) (m : Manager) (id : ℕ) (user : User)
    (forbidden : IsForbidden m id user) where
  refused : check_group_access forbidden.row user ≡ err group_forbidden
  unfolding check_group_access
  refused = ground (arith, forbidden.wants_group, forbidden.not_member)

  -- Whoever is not in the group that a value wants can neither read it, nor delete it, nor store
  -- anything over it: each call fails, whatever else goes wrong, and changes nothing.
  pub forbidden_untouched :
      (iv : InputValue)
      → (id == 0) ≡ false
      → (is_ok (get_one c env id user m) ≡ false)
        × (is_ok (delete env id user m).0 ≡ false)
        × ((delete env id user m).1 ≡ m)
        × (is_ok (store c env (pos id) iv user m).0 ≡ false)
        × ((store c env (pos id) iv user m).1 ≡ m)
  unfolding get_one delete store provider_get_by_id open_found
  forbidden_untouched iv update = (
    ground (arith, refused, forbidden.found),
    ground (arith, refused, forbidden.found),
    ground (arith, refused, forbidden.found),
    ground (arith, refused, forbidden.found),
    ground (arith, refused, forbidden.found),
  )

module _ (env : Env) (id : ℕ) (user : User) (m m' : Manager)
    (deleted : delete env id user m ≡ (ok tt, m')) where
  delete-rows :
      (m'.factory.disk.values ≡ without_id id m.factory.disk.values)
      × (m'.factory.disk.next_id ≡ m.factory.disk.next_id)
      × (m'.factory.opened ≡ m.factory.opened)
      × (m'.factory.disk.status ≡ m.factory.disk.status)
      × (m'.pass ≡ m.pass)
      × (check_unlocked_and_initialized env m ≡ ok tt)
  unfolding delete provider_delete
  delete-rows = (ground arith, ground arith, ground arith, ground arith, ground arith, ground arith)

  by_id_later :
      (env' : Env) (j : ℕ)
      → env'.fault get_by_id ≡ false
      → check_unlocked_and_initialized env' m' ≡ ok tt
      → provider_get_by_id env' m'.factory j ≡ ok (first (has_id j) m'.factory.disk.values)
  unfolding check_unlocked_and_initialized provider_get_by_id provider_get_status
  by_id_later env' j fine ready = ground arith

  -- After a successful deletion nobody finds the value any more, and under every other identifier
  -- sqlite finds the row that it found before.
  pub get_one-delete :
      (c : Crypto) (env' : Env) (reader : User) (j : ℕ)
      → env'.fault get_status ≡ false
      → env'.fault get_by_id ≡ false
      → (get_one c env' id reader m' ≡ ok none)
        × ((id == j) ≡ false
            → first (has_id j) m'.factory.disk.values ≡ first (has_id j) m.factory.disk.values)
  unfolding get_one open_found
  get_one-delete c env' reader j fine fine' =
      let (rows, _, opened, status, pass, ready) = delete-rows in
      let ready' = unlocked_later env env' m m' ready pass opened status fine in
      let gone : first (has_id id) m'.factory.disk.values ≡ none =
        rw rows (first-without id m.factory.disk.values) in
      (
        ground (arith, by_id_later env' id fine' ready', gone, ready'),
        λ other. rw rows (first-without_ne id j m.factory.disk.values other),
      )
