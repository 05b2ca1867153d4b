-- ===== src/Scripts.antt =====
-- server/script: the library of scripts, and what the statements of sqlite.go do to its table. A field
-- is a pointer in Go so that a client may ask for some fields only; here it is its value. A statement
-- that fails, also because it would break the primary key or the unique index over `name` of
-- db/migration/library/sql, changes nothing.
pub mod Changes
use Prim.Native.Nat.{◌/◌}
use rport.Prelude.{
  ◌*◌, ℕ, String, Bool, true, false, not, ◌&&◌, ◌||◌, Option, none, some, List, [], ◌∷◌, ◌++◌,
  str_eq, if◌then◌else◌, is_none, is_empty,
}
use rport.Result.{Result, ok, err, refuse_if}
use rport.Exec.{Exec, pure, lift, reads, ◌>>=◌, ◌>>◌}

-- Times are in nanoseconds. `Format(time.RFC3339)` writes whole seconds.
unfoldable pub whole_seconds : ℕ → ℕ
whole_seconds t = (t / 1000000000) * 1000000000

pub record Script : Type 0 where
  pub id : String
  pub name : String
  pub created_by : String
  pub created_at : ℕ
  pub interpreter : String
  pub is_sudo : Bool
  pub cwd : String
  pub script : String

pub record InputScript : Type 0 where
  pub name : String
  pub interpreter : String
  pub is_sudo : Bool
  pub cwd : String
  pub script : String

pub data DbOp : Type 0 where
  get_by_id list insert update delete : DbOp

pub data Missing : Type 0 where
  name_is_required script_is_required : Missing

pub data Error : Type 0 where
  invalid : List Missing → Error
  same_name not_found no_affected_row id_failed : Error
  db_failed : DbOp → Error

-- The time, what `generateNewScriptID` returns, and the faults of the database.
pub record Env : Type 0 where
  pub now : ℕ
  pub new_script_id : Option String
  pub fault : DbOp → Bool

abbrev pub Call : Type 0 → Type 0
Call = Exec Error (List Script)

abbrev pub missing_if : Bool → Missing → List Missing
missing_if b m = if b then m ∷ [] else []

abbrev pub validate : InputScript → Result Error (Unit {0})
validate iv =
    let errs =
      missing_if (str_eq iv.name "") name_is_required
      ++ missing_if (str_eq iv.script "") script_is_required in
    refuse_if (not (is_empty errs)) (invalid errs)

-- `SELECT … WHERE id = ? LIMIT 1`, and the filter on `name` of `List`.
unfoldable pub find_id : String → List Script → Option Script
find_id id [] = none
find_id id (s ∷ rows) = if str_eq s.id id then some s else find_id id rows

unfoldable pub with_name : String → List Script → List Script
with_name name [] = []
with_name name (s ∷ rows) =
    let rest = with_name name rows in if str_eq s.name name then s ∷ rest else rest

-- `UPDATE … WHERE id = ?` and `DELETE … WHERE id = ?`
unfoldable pub update_row : Script → List Script → List Script
update_row s [] = []
update_row s (r ∷ rows) =
    (if str_eq r.id s.id
      then record r {
        name = s.name;
        interpreter = s.interpreter;
        is_sudo = s.is_sudo;
        cwd = s.cwd;
        script = s.script;
      }
      else r)
    ∷ update_row s rows

unfoldable pub without_row : String → List Script → List Script
without_row id [] = []
without_row id (r ∷ rows) =
    let rest = without_row id rows in if str_eq r.id id then rest else r ∷ rest

-- Whether another row has the name.
abbrev pub name_taken : String → String → List Script → Bool
name_taken id name [] = false
name_taken id name (r ∷ rows) =
    (str_eq r.name name && not (str_eq r.id id)) || name_taken id name rows

module _ (env : Env) where
  abbrev pub get_one : String → List Script → Result Error (Option Script)
  get_one id rows = if env.fault get_by_id then err (db_failed get_by_id) else ok (find_id id rows)

  abbrev pub list_named : String → List Script → Result Error (List Script)
  list_named name rows = if env.fault list then err (db_failed list) else ok (with_name name rows)

  abbrev pub insert_row : Script → Call String
  insert_row s rows =
      if env.fault insert
        || not (is_none (find_id s.id rows))
        || not (is_empty (with_name s.name rows))
      then (err (db_failed insert), rows)
      else (ok s.id, rows ++ s ∷ [])

  abbrev pub insert_new : Script → Option String → Call String
  insert_new s none = lift (err id_failed)
  insert_new s (some id) = insert_row (record s { id = id; created_at = whole_seconds env.now })

  abbrev pub update_old : Script → Call String
  update_old s rows =
      if env.fault update || (not (is_none (find_id s.id rows)) && name_taken s.id s.name rows)
      then (err (db_failed update), rows)
      else (ok s.id, update_row s rows)

  -- `SqliteProvider.Save`
  unfoldable pub save : Script → Call String
  unfolding find_id with_name update_row
  save s = if str_eq s.id "" then insert_new s env.new_script_id else update_old s

  abbrev pub delete_row : String → Call (Unit {0})
  delete_row id rows =
      if env.fault delete
      then (err (db_failed delete), rows)
      else if is_none (find_id id rows)
      then (err no_affected_row, rows)
      else (ok tt, without_row id rows)

  abbrev pub to_save : String → InputScript → String → Script
  to_save id iv username = record {
    id = id;
    name = iv.name;
    created_by = username;
    created_at = env.now;
    interpreter = iv.interpreter;
    is_sudo = iv.is_sudo;
    cwd = iv.cwd;
    script = iv.script;
  }

  unfoldable pub create : InputScript → String → Call Script
  unfolding save
  create iv username = do
    lift (validate iv)
    existing ← reads (list_named iv.name)
    lift (refuse_if (not (is_empty existing)) same_name)
    id ← save (to_save "" iv username)
    pure (to_save id iv username)

  abbrev pub other_first : String → List Script → Bool
  other_first id [] = false
  other_first id (s ∷ rows) = not (str_eq s.id id)

  abbrev pub save_over : String → InputScript → String → Call Script
  save_over existing_id iv username = do
    id ← save (to_save existing_id iv username)
    pure (to_save id iv username)

  unfoldable pub change : String → InputScript → String → Call Script
  unfolding save
  change existing_id iv username = do
    lift (validate iv)
    found ← reads (get_one existing_id)
    lift (refuse_if (is_none found) not_found)
    same ← reads (list_named iv.name)
    lift (refuse_if (other_first existing_id same) same_name)
    save_over existing_id iv username

  unfoldable pub remove : String → Call (Unit {0})
  unfolding find_id without_row
  remove id = do
    found ← reads (get_one id)
    lift (refuse_if (is_none found) not_found)
    delete_row id
