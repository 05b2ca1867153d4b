-- ===== src/Vault/Sqlite.antt =====
-- server/vault/sqlite.go and dbProvider.go: the tables that the statements read and write. sqlite
-- itself is not this program's code. A statement does what its SQL says, or fails, when the
-- environment says so or when it would break the unique index over `client_id` and `key`, and a
-- statement that fails changes nothing. The columns are those of db/migration/vaults/sql.
use rport.Prelude.{
  ℤ, pos, negsuc, ℕ, suc, String, Bool, true, not, ◌&&◌, ◌||◌, Option, none, some, List, [], ◌∷◌,
  ◌++◌, str_eq, ◌==◌, if◌then◌else◌, is_none,
}
use rport.Result.{Result, ok, err, and_then, refuse_if}
use rport.Vault.Model.{
  DbStatus, InputValue, StoredValue, Error, DbOp, Env, open_db, get_status, set_status, get_by_id,
  find_by_key, save, delete, db_failed, database_not_initialised, no_affected_row,
}

-- The status table holds one row at most: `SetStatus` inserts only when there is none.
pub record Db : Type 0 where
  pub status : Option DbStatus
  pub values : List StoredValue
  -- what AUTOINCREMENT hands out next
  pub next_id : ℕ

-- `StatefulDbProviderFactory`: until `Init` it hands out the provider that refuses everything.
pub record Factory : Type 0 where
  pub disk : Db
  pub opened : Bool

abbrev pub has_id : ℕ → StoredValue → Bool
has_id id v = v.id == id

abbrev pub has_key : String → String → StoredValue → Bool
has_key key client_id v = str_eq v.input.key key && str_eq v.input.client_id client_id

-- `SELECT … WHERE … LIMIT 1`
unfoldable pub first : (StoredValue → Bool) → List StoredValue → Option StoredValue
first test [] = none
first test (v ∷ vs) = if test v then some v else first test vs

-- `DELETE FROM … WHERE id = ?`
unfoldable pub without_id : ℕ → List StoredValue → List StoredValue
without_id id [] = []
without_id id (v ∷ vs) = let rest = without_id id vs in if has_id id v then rest else v ∷ rest

-- `UPDATE … WHERE id = ?`
unfoldable pub update_id : ℕ → (StoredValue → StoredValue) → List StoredValue → List StoredValue
update_id id f [] = []
update_id id f (v ∷ vs) = (if has_id id v then f v else v) ∷ update_id id f vs

abbrev pub empty_status : DbStatus
empty_status = record { status_name = ""; enc_check_value = []; dec_check_value = [] }

abbrev pub status_or_empty : Option DbStatus → DbStatus
status_or_empty none = empty_status
status_or_empty (some s) = s

-- A statement through the provider that the factory hands out.
abbrev pub checked : Env → Factory → DbOp → Result Error (Unit {0})
checked env f op =
    and_then (refuse_if (not f.opened) database_not_initialised)
      λ _. refuse_if (env.fault op) (db_failed op)

module _ (env : Env) where
  -- `Init` of the factory: opens the database that is at the configured path.
  unfoldable pub init_factory : Factory → Result Error Factory
  init_factory f =
      if env.fault open_db then err (db_failed open_db) else ok (record f { opened = true })

  unfoldable pub provider_get_status : Factory → Result Error DbStatus
  provider_get_status f =
      and_then (checked env f get_status) λ _. ok (status_or_empty f.disk.status)

  unfoldable pub provider_set_status : Factory → DbStatus → Result Error Factory
  provider_set_status f new_status =
      and_then (checked env f set_status)
        λ _. ok (record f { disk = record f.disk { status = some new_status } })

  unfoldable pub provider_get_by_id : Factory → ℕ → Result Error (Option StoredValue)
  provider_get_by_id f id =
      and_then (checked env f get_by_id) λ _. ok (first (has_id id) f.disk.values)

  unfoldable pub provider_find : Factory → String → String → Result Error (Option StoredValue)
  provider_find f key client_id =
      and_then (checked env f find_by_key) λ _. ok (first (has_key key client_id) f.disk.values)

  abbrev pub new_row : String → ℕ → InputValue → StoredValue
  new_row user id val = record {
    input = val;
    id = id;
    created_at = env.now;
    updated_at = env.now;
    created_by = user;
    updated_by = some user;
  }

  abbrev pub changed_row : String → InputValue → StoredValue → StoredValue
  changed_row user val v = record v { input = val; updated_at = env.now; updated_by = some user }

  -- The unique index: another row than `id` has the key and the client.
  abbrev pub other_with_key : ℕ → String → String → StoredValue → Bool
  other_with_key id key client_id v = not (has_id id v) && has_key key client_id v

  -- The identifier of the row that was written, and the new tables. An update that hits no row
  -- writes nothing.
  unfoldable pub save_at : Factory → String → ℕ → InputValue → Result Error (ℕ × Factory)
  save_at f user id_to_update val =
      let id = if id_to_update == 0 then f.disk.next_id else id_to_update in
      let rows =
        if id_to_update == 0
        then f.disk.values ++ new_row user f.disk.next_id val ∷ []
        else update_id id_to_update (changed_row user val) f.disk.values in
      let next = if id_to_update == 0 then suc f.disk.next_id else f.disk.next_id in
      and_then (checked env f save) λ _.
        and_then
          (refuse_if
            ((id_to_update == 0 || not (is_none (first (has_id id) f.disk.values)))
              && not (is_none (first (other_with_key id val.key val.client_id) f.disk.values)))
            (db_failed save))
          λ _. ok (id, record f { disk = record f.disk { values = rows; next_id = next } })

  abbrev pub at_pos : ℕ × Factory → ℤ × Factory
  at_pos (id, f) = (pos id, f)

  -- `Save`. No row has a negative identifier, so that an update of one writes nothing.
  unfoldable pub provider_save : Factory → String → ℤ → InputValue → Result Error (ℤ × Factory)
  unfolding save_at
  provider_save f user (pos id_to_update) val =
      and_then (save_at f user id_to_update val) λ saved. ok (at_pos saved)
  provider_save f user (negsuc k) val = and_then (checked env f save) λ _. ok (negsuc k, f)

  unfoldable pub provider_delete : Factory → ℕ → Result Error Factory
  provider_delete f id = and_then (checked env f delete) λ _.
      and_then (refuse_if (is_none (first (has_id id) f.disk.values)) (no_affected_row id))
        λ _. ok (record f { disk = record f.disk { values = without_id id f.disk.values } })
