-- ===== src/CommandLibrary.antt =====
-- server/api/command: the library of commands, and what the statements of sqlite.go do to its table. As
-- in the library of scripts, a field is its value, and a statement that fails, also because of the
-- unique index over `name` of db/migration/library/sql, changes nothing.
pub mod Answers
use rport.Prelude.{
  ℕ, String, Bool, true, false, not, ◌&&◌, ◌||◌, Option, none, some, List, [], ◌∷◌, ◌++◌, ◌≡◌,
  str_eq, if◌then◌else◌, is_none, is_empty,
}
use rport.Result.{Result, ok, err, refuse_if}
use rport.Exec.{Exec, pure, lift, reads, ◌>>=◌, ◌>>◌}
use rport.Scripts.{whole_seconds, DbOp, get_by_id, list, insert, update, delete}
use rport.Query.{UrlQuery, ListOptions, FieldsOption, get_list_options, extract_fields_options}
use rport.Query.Checks.{
  ApiError, Supported, SupportedFields, validate_list_options, validate_retrieve_options,
}
use rport.Query.Sql.{convert_list_options_to_query, convert_retrieve_options_to_query}

pub record Command : Type 0 where
  pub id : String
  pub name : String
  pub created_by : String
  pub created_at : ℕ
  pub updated_by : String
  pub updated_at : ℕ
  pub cmd : String

pub record InputCommand : Type 0 where
  pub name : String
  pub cmd : String

pub data Missing : Type 0 where
  name_is_required cmd_is_required : Missing

pub data Error : Type 0 where
  invalid : List Missing → Error
  unsupported : List ApiError → Error
  same_name not_found no_affected_row id_failed : Error
  db_failed : DbOp → Error

-- The time, what `generateNewCommandID` returns, the faults of the database, and what it answers a
-- statement with its parameters.
pub record Env : Type 0 where
  pub now : ℕ
  pub new_command_id : Option String
  pub fault : DbOp → Bool
  pub select : String → List String → List Command
  pub to_upper : String → String

abbrev pub Call : Type 0 → Type 0
Call = Exec Error (List Command)

abbrev pub is_column : List String → Supported
is_column [] name = false
is_column (c ∷ cs) name = str_eq name c || is_column cs name

abbrev pub supported_sort_and_filters : Supported
supported_sort_and_filters =
    is_column ("id" ∷ "name" ∷ "created_by" ∷ "created_at" ∷ "updated_by" ∷ "updated_at" ∷ [])

abbrev pub command_columns : Supported
command_columns =
    is_column
      ("id" ∷ "name" ∷ "created_by" ∷ "created_at" ∷ "updated_by" ∷ "updated_at" ∷ "cmd" ∷ [])

abbrev pub supported_fields : SupportedFields
supported_fields resource = if str_eq resource "commands" then some command_columns else none

abbrev pub missing_if : Bool → Missing → List Missing
missing_if b m = if b then m ∷ [] else []

abbrev pub validate : InputCommand → Result Error (Unit {0})
validate iv =
    let errs =
      missing_if (str_eq iv.name "") name_is_required
      ++ missing_if (str_eq iv.cmd "") cmd_is_required in
    refuse_if (not (is_empty errs)) (invalid errs)

unfoldable pub find_id : String → List Command → Option Command
find_id id [] = none
find_id id (c ∷ rows) = if str_eq c.id id then some c else find_id id rows

unfoldable pub with_name : String → List Command → List Command
with_name name [] = []
with_name name (c ∷ rows) =
    let rest = with_name name rows in if str_eq c.name name then c ∷ rest else rest

-- The columns of the UPDATE: the creator and the time of creation are not among them.
abbrev pub set_columns : Command → Command → Command
set_columns c r = record r {
  name = c.name;
  updated_at = whole_seconds c.updated_at;
  updated_by = c.updated_by;
  cmd = c.cmd;
}

unfoldable pub update_row : Command → List Command → List Command
update_row c [] = []
update_row c (r ∷ rows) = (if str_eq r.id c.id then set_columns c r else r) ∷ update_row c rows

unfoldable pub without_row : String → List Command → List Command
without_row id [] = []
without_row id (r ∷ rows) =
    let rest = without_row id rows in if str_eq r.id id then rest else r ∷ rest

-- The row of the INSERT.
abbrev pub inserted : Command → Command
inserted c = record c {
  created_at = whole_seconds c.created_at;
  updated_at = whole_seconds c.updated_at;
}

abbrev pub name_taken : String → String → List Command → Bool
name_taken id name [] = false
name_taken id name (r ∷ rows) =
    (str_eq r.name name && not (str_eq r.id id)) || name_taken id name rows

module _ (env : Env) where
  -- `Manager.List`: the options of the request, their validation, and the statement.
  abbrev pub select_listed : ListOptions → Result Error (List Command)
  select_listed lo =
      let (q, params) = convert_list_options_to_query env.to_upper lo "SELECT * FROM `commands`" in
      if env.fault list then err (db_failed list) else ok (env.select q params)

  unfoldable pub list_commands : UrlQuery → Result Error (List Command)
  list_commands query =
      let (errs, lo) =
        validate_list_options (get_list_options query) supported_sort_and_filters
          (some supported_fields) in
      if not (is_empty errs) then err (unsupported errs) else select_listed lo

  abbrev pub get_one : String → List Command → Result Error (Option Command)
  get_one id rows = if env.fault get_by_id then err (db_failed get_by_id) else ok (find_id id rows)

  abbrev pub list_named : String → List Command → Result Error (List Command)
  list_named name rows = if env.fault list then err (db_failed list) else ok (with_name name rows)

  abbrev pub insert_row : Command → Call String
  insert_row c rows =
      if env.fault insert
        || not (is_none (find_id c.id rows))
        || not (is_empty (with_name c.name rows))
      then (err (db_failed insert), rows)
      else (ok c.id, rows ++ inserted c ∷ [])

  abbrev pub insert_new : Command → Option String → Call String
  insert_new c none = lift (err id_failed)
  insert_new c (some id) = insert_row (record c { id = id })

  abbrev pub update_old : Command → Call String
  update_old c rows =
      if env.fault update || (not (is_none (find_id c.id rows)) && name_taken c.id c.name rows)
      then (err (db_failed update), rows)
      else (ok c.id, update_row c rows)

  -- `SqliteProvider.Save`
  unfoldable pub save : Command → Call String
  unfolding find_id with_name update_row
  save c = if str_eq c.id "" then insert_new c env.new_command_id else update_old c

  abbrev pub delete_row : String → Call (Unit {0})
  delete_row id rows =
      if env.fault delete
      then (err (db_failed delete), rows)
      else if is_none (find_id id rows)
      then (err no_affected_row, rows)
      else (ok tt, without_row id rows)

  -- The command that `Create` saves, and the one that `Update` saves over an existing one.
  abbrev pub new_command : String → InputCommand → String → Command
  new_command id iv username = record {
    id = id;
    name = iv.name;
    created_by = username;
    created_at = env.now;
    updated_by = username;
    updated_at = env.now;
    cmd = iv.cmd;
  }

  abbrev pub changed_command : String → InputCommand → String → Command → Command
  changed_command id iv username existing = record {
    id = id;
    name = iv.name;
    created_by = existing.created_by;
    created_at = existing.created_at;
    updated_by = username;
    updated_at = env.now;
    cmd = iv.cmd;
  }

  unfoldable pub create : InputCommand → String → Call Command
  unfolding save
  create iv username = do
    lift (validate iv)
    existing ← reads (list_named iv.name)
    lift (refuse_if (not (is_empty existing)) same_name)
    id ← save (new_command "" iv username)
    pure (new_command id iv username)

  abbrev pub other_first : String → List Command → Bool
  other_first id [] = false
  other_first id (c ∷ rows) = not (str_eq c.id id)

  abbrev pub save_over : String → InputCommand → String → Option Command → Call Command
  save_over id iv username none = lift (err not_found)
  save_over id iv username (some existing) =
      save (changed_command id iv username existing)
      >> pure (changed_command id iv username existing)

  unfoldable pub change : String → InputCommand → String → Call Command
  unfolding save
  change existing_id iv username = do
    lift (validate iv)
    found ← reads (get_one existing_id)
    lift (refuse_if (is_none found) not_found)
    same ← reads (list_named iv.name)
    lift (refuse_if (other_first existing_id same) same_name)
    save_over existing_id iv username found

  unfoldable pub remove : String → Call (Unit {0})
  unfolding find_id without_row
  remove id = do
    found ← reads (get_one id)
    lift (refuse_if (is_none found) not_found)
    delete_row id
