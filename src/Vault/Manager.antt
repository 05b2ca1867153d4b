-- ===== src/Vault/Manager.antt =====
-- server/vault/manager.go: `Manager`. Each call runs to its end before the next
-- one starts: the program's lock only guards the password, so that calls which overlap may do more.
-- `List`, which
-- only reads, is left out with the query options; `Close` only closes the database.
use rport.Prelude.{
  ℤ, pos, negsuc, ℕ, String, Bool, true, false, not, ◌||◌, Option, none, some, List, [], ◌∷◌,
  str_eq, ◌==◌, ltb, if◌then◌else◌, is_empty,
}
use rport.Result.{Result, ok, err, and_then, refuse_if, map_err}
use rport.Exec.{Exec, lift, reads, ◌>>=◌, ◌>>◌}
use rport.Enc.{Bytes, Crypto, aes256_encrypt_by_pass, aes256_decrypt_by_pass}
use rport.Vault.Model.{
  db_status_init, db_status_not_init, status_locked, status_unlocked, DbStatus, StatusReport,
  InputValue, StoredValue, User, Error, Env, validate, already_initialized, already_unlocked,
  already_locked, not_yet_initialized, wrong_password, locked, not_initialized,
  database_not_initialised, group_forbidden, existing_not_found, entry_not_found, another_key,
  crypto,
}
use rport.Vault.Pass.{validate_pass, pass_match, get_enc_rand_value}
use rport.Vault.Sqlite.{
  Factory, empty_status, init_factory, provider_get_status, provider_set_status, provider_get_by_id,
  provider_find, provider_save, provider_delete,
}

-- An empty password means that the vault is locked.
pub record Manager : Type 0 where
  pub pass : Bytes
  pub factory : Factory

abbrev pub Call : Type 0 → Type 0
Call = Exec Error Manager

unfoldable pub is_locked : Manager → Bool
is_locked m = is_empty m.pass

-- `dbStatus.StatusName == "" || dbStatus.StatusName == DbStatusNotInit`
abbrev pub is_not_init : DbStatus → Bool
is_not_init s = str_eq s.status_name "" || str_eq s.status_name db_status_not_init

abbrev pub group_matches : String → List String → Bool
group_matches required [] = false
group_matches required (gr ∷ groups) = str_eq gr required || group_matches required groups

unfoldable pub check_group_access : StoredValue → User → Result Error (Unit {0})
check_group_access val user =
    if str_eq val.input.required_group ""
    then ok tt
    else if group_matches val.input.required_group user.groups
    then ok tt
    else err group_forbidden

-- A failed `GetStatus`, and what `isDatabaseInitialized` makes of it.
abbrev pub initialized_of : Result Error DbStatus → Result Error Bool
initialized_of (ok s) = ok (str_eq s.status_name db_status_init)
initialized_of (err database_not_initialised) = ok false
initialized_of (err e) = err e

-- `Status` reads an empty status where the database is not initialised.
abbrev pub status_of : Result Error DbStatus → Result Error DbStatus
status_of (ok s) = ok s
status_of (err database_not_initialised) = ok empty_status
status_of (err e) = err e

abbrev pub write_factory : Result Error Factory → Call (Unit {0})
write_factory (ok f) m = (ok tt, record m { factory = f })
write_factory (err e) m = (err e, m)

abbrev pub write_saved : Result Error (ℤ × Factory) → Call ℤ
write_saved (ok (id, f)) m = (ok id, record m { factory = f })
write_saved (err e) m = (err e, m)

abbrev pub set_pass : Bytes → Call (Unit {0})
set_pass pass m = (ok tt, record m { pass = pass })

abbrev pub or_missing : Option StoredValue → Error → Result Error StoredValue
or_missing none e = err e
or_missing (some v) e = ok v

module _ (env : Env) where
  unfoldable pub is_database_initialized : Manager → Result Error Bool
  is_database_initialized m = initialized_of (provider_get_status env m.factory)

  unfoldable pub check_unlocked_and_initialized : Manager → Result Error (Unit {0})
  unfolding is_locked is_database_initialized
  check_unlocked_and_initialized m =
      and_then (refuse_if (is_locked m) locked)
        λ _. and_then (is_database_initialized m) λ is_init. refuse_if (not is_init) not_initialized

  -- The status, refused while the vault was never set up.
  unfoldable pub initialized_status : Manager → Result Error DbStatus
  initialized_status m = and_then (provider_get_status env m.factory) λ db_status.
      and_then (refuse_if (is_not_init db_status) not_yet_initialized) λ _. ok db_status

  unfoldable pub lock : Call (Unit {0})
  unfolding is_locked initialized_status
  lock = do
    reads (λ m. refuse_if (is_locked m) already_locked)
    reads initialized_status
    set_pass []

  unfoldable pub status : Manager → Result Error StatusReport
  unfolding is_locked
  status m = and_then (status_of (provider_get_status env m.factory)) λ db_status.
      if is_not_init db_status
      then ok (record { init_status = db_status_not_init; lock_status = "" })
      else ok (record {
        init_status = db_status.status_name;
        lock_status = if is_locked m then status_locked else status_unlocked;
      })

  unfoldable pub delete : ℕ → User → Call (Unit {0})
  unfolding check_unlocked_and_initialized check_group_access
  delete id user = do
    reads check_unlocked_and_initialized
    found ← reads (λ m. provider_get_by_id env m.factory id)
    stored_value ← lift (or_missing found entry_not_found)
    lift (check_group_access stored_value user)
    λ m. write_factory (provider_delete env m.factory id) m

module _ (c : Crypto) (env : Env) where
  unfoldable pub init : Bytes → Call (Unit {0})
  unfolding is_database_initialized
  init pass = do
    lift (validate_pass pass)
    is_init ← reads (is_database_initialized env)
    lift (refuse_if is_init already_initialized)
    (λ m. write_factory (init_factory env m.factory) m)
    (enc_check, dec_check) ← lift (get_enc_rand_value c env pass)
    (λ m.
        write_factory
          (provider_set_status env m.factory (record {
            status_name = db_status_init;
            enc_check_value = enc_check;
            dec_check_value = dec_check;
          }))
          m)
    set_pass pass

  unfoldable pub unlock : Bytes → Call (Unit {0})
  unfolding is_locked initialized_status
  unlock pass = do
    reads (λ m. refuse_if (not (is_locked m)) already_unlocked)
    db_status ← reads (initialized_status env)
    matches ← lift (pass_match c db_status pass)
    lift (refuse_if (not matches) wrong_password)
    set_pass pass

  -- `GetOne` on the row that was found: `none` is `found == false`.
  unfoldable pub open_found : Bytes → User → Option StoredValue → Result Error (Option StoredValue)
  unfolding check_group_access
  open_found pass user none = ok none
  open_found pass user (some val) = and_then (check_group_access val user) λ _.
      and_then (map_err crypto (aes256_decrypt_by_pass c val.input.value pass))
        λ decrypted. ok (some (record val { input = record val.input { value = decrypted } }))

  unfoldable pub get_one : ℕ → User → Manager → Result Error (Option StoredValue)
  unfolding check_unlocked_and_initialized
  get_one id user m =
      and_then (check_unlocked_and_initialized env m)
        λ _. and_then (provider_get_by_id env m.factory id) λ found. open_found m.pass user found

  -- The part of `Store` under `existingID > 0`.
  unfoldable pub check_existing : ℤ → User → Manager → Result Error (Unit {0})
  unfolding check_group_access
  check_existing (negsuc k) user m = ok tt
  check_existing (pos existing_id) user m =
      if ltb 0 existing_id
      then and_then (provider_get_by_id env m.factory existing_id) (λ found2.
        and_then (or_missing found2 existing_not_found) λ val. check_group_access val user)
      else ok tt

  -- `found && (existingID == 0 || storedValue.ID != int(existingID))`
  abbrev pub is_conflict : Option StoredValue → ℤ → Bool
  is_conflict none existing_id = false
  is_conflict (some stored_value) (negsuc k) = true
  is_conflict (some stored_value) (pos existing_id) =
      existing_id == 0 || not (stored_value.id == existing_id)

  unfoldable pub store : ℤ → InputValue → User → Call ℤ
  unfolding check_unlocked_and_initialized check_existing
  store existing_id value_to_store user = do
    reads (check_unlocked_and_initialized env)
    lift (validate value_to_store)
    found ← reads (λ m. provider_find env m.factory value_to_store.key value_to_store.client_id)
    reads (check_existing existing_id user)
    lift (
        refuse_if (is_conflict found existing_id)
          (another_key value_to_store.key value_to_store.client_id))
    enc_value ←
        reads
          (λ m. map_err crypto (aes256_encrypt_by_pass c value_to_store.value m.pass env.random))
    λ m.
        write_saved
          (provider_save env m.factory user.username existing_id
            (record value_to_store { value = enc_value }))
          m
