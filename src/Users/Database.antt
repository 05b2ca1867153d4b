-- ===== src/Users/Database.antt =====
-- server/api/users/database.go: the users in two tables of a database, and server/api/users/single_user.go.
-- Closing is left out, and so are the log lines.
pub mod Transactions
pub mod Atomic
pub mod Rows
pub mod Frame
pub mod Updated
pub mod Refined
pub mod Stored
use rport.Users.Tables.{
  Env, GroupRow, Stmt, Tables, UserDatabase, UserRow, answer, begin_tx, commit_tx, delete_groups,
  delete_user, distinct, find_row, get_all, get_all_groups, get_by_username, group_names, groups_of,
  insert_group, insert_user, join_groups, new_user_database, rename_groups, run, select_all,
  select_all_groups, select_groups, select_groups_of, select_token, select_user, select_users,
  slice_of, to_user, update_user, with_groups,
}
use rport.Prelude.{
  String, Bool, true, false, not, ◌&&◌, ◌||◌, Option, none, some, List, [], ◌∷◌, ◌++◌, str_eq,
  if◌then◌else◌, is_none,
}
use rport.Result.{Result, ok, err, and_then, refuse_if}
use rport.Exec.{Exec, pure, lift, ◌>>◌}
use rport.Users.Model.{
  User, has, entries, Error, username_empty, not_supported, not_implemented, database_failed,
}

abbrev pub Call : Type 0
Call = Exec Error Tables (Unit {0})

-- A statement of a transaction.
abbrev pub exec : Env → Stmt → (Tables → Tables) → Call
exec env stmt f t = if env.fault stmt then (err database_failed, t) else (ok tt, f t)

-- The connection: the tables as everyone sees them, and those of the open transaction, if there is one.
pub record Session : Type 0 where
  pub tables : Tables
  pub tx : Option Tables

abbrev pub Change : Type 0
Change = Exec Error Session (Unit {0})

abbrev pub begin : Env → Change
begin env s =
    if env.fault begin_tx
    then (err database_failed, s)
    else (ok tt, record s { tx = some s.tables })

-- `tx.Exec`: the statements see and change the transaction's tables.
abbrev pub exec_view : Call → Session → Option Tables → Result Error (Unit {0}) × Session
exec_view m s none = (err database_failed, s)
exec_view m s (some view) = ((m view).0, record s { tx = some (m view).1 })

abbrev pub in_tx : Call → Change
in_tx m s = exec_view m s s.tx

-- `handleRollback`. A failure of it is only logged: the transaction is over in any case.
abbrev pub handle_rollback : Session → Session
handle_rollback s = record s { tx = none }

-- `Commit`, which ends the transaction also where the database refuses it.
abbrev pub commit_view : Env → Session → Option Tables → Result Error (Unit {0}) × Session
commit_view env s none = (err database_failed, s)
commit_view env s (some view) =
    if env.fault commit_tx
    then (err database_failed, record s { tx = none })
    else (ok tt, record s { tables = view; tx = none })

-- `Commit` after the statements, or `handleRollback` after the first that failed.
abbrev pub settle : Env → Result Error (Unit {0}) × Session → Result Error (Unit {0}) × Session
settle env (ok u, s) = commit_view env s s.tx
settle env (err e, s) = (err e, handle_rollback s)

unfoldable pub transaction : Env → Call → Change
transaction env m = begin env >> (λ s. settle env (in_tx m s))

-- What the statements do to the tables.
abbrev pub on_users : (List UserRow → List UserRow) → Tables → Tables
on_users f t = record t { users = f t.users }

abbrev pub on_groups : (List GroupRow → List GroupRow) → Tables → Tables
on_groups f t = record t { groups = f t.groups }

abbrev pub new_row : UserDatabase → User → UserRow
new_row d usr = record {
  username = usr.username;
  password = usr.password;
  two_fa_send_to = if d.two_fa_on then usr.two_fa_send_to else "";
  token = none;
}

abbrev pub add_row : UserRow → Tables → Tables
add_row r = on_users (λ rows. rows ++ r ∷ [])

abbrev pub add_group : String → String → Tables → Tables
add_group name group = on_groups (λ rows. rows ++ record { username = name; group = group } ∷ [])

abbrev pub or_row : Option String → Option String → Option String
or_row none old = old
or_row (some t) old = some t

-- The columns of the UPDATE: those that the change names.
unfoldable pub set_columns : User → UserRow → UserRow
set_columns usr r = record {
  username = if str_eq usr.username "" then r.username else usr.username;
  password = if str_eq usr.password "" then r.password else usr.password;
  two_fa_send_to = if str_eq usr.two_fa_send_to "" then r.two_fa_send_to else usr.two_fa_send_to;
  token = or_row usr.token r.token;
}

unfoldable pub update_rows : String → User → List UserRow → List UserRow
unfolding set_columns
update_rows name usr [] = []
update_rows name usr (r ∷ rows) =
    (if str_eq r.username name then set_columns usr r else r) ∷ update_rows name usr rows

unfoldable pub renamed_groups : String → String → List GroupRow → List GroupRow
renamed_groups name new [] = []
renamed_groups name new (g ∷ rows) =
    (if str_eq g.username name then record g { username = new } else g)
    ∷ renamed_groups name new rows

unfoldable pub without_user : String → List UserRow → List UserRow
without_user name [] = []
without_user name (r ∷ rows) =
    let rest = without_user name rows in if str_eq r.username name then rest else r ∷ rest

unfoldable pub without_groups : String → List GroupRow → List GroupRow
without_groups name [] = []
without_groups name (g ∷ rows) =
    let rest = without_groups name rows in if str_eq g.username name then rest else g ∷ rest

module _ (env : Env) where
  unfoldable pub insert_groups : String → List String → Call
  insert_groups name [] = pure tt
  insert_groups name (g ∷ gs) =
      exec env (insert_group name g) (add_group name g) >> insert_groups name gs

  -- The statements of `Add`.
  unfoldable pub add_statements : UserDatabase → User → Call
  unfolding insert_groups
  add_statements d usr =
      exec env (insert_user usr.username) (add_row (new_row d usr))
      >> insert_groups usr.username (entries usr.groups)

  unfoldable pub add : UserDatabase → User → Change
  unfolding add_statements transaction
  add d usr = transaction env (add_statements d usr)

  -- The parts of `Update`. A user that keeps the name has no column to rename.
  abbrev pub is_renamed : User → String → Bool
  is_renamed usr name = not (str_eq usr.username "") && not (str_eq usr.username name)

  abbrev pub has_columns : User → String → Bool
  has_columns usr name =
      not (str_eq usr.password "")
      || not (str_eq usr.two_fa_send_to "")
      || is_renamed usr name
      || not (is_none usr.token)

  abbrev pub update_columns : User → String → Call
  update_columns usr name =
      if has_columns usr name
      then exec env (update_user name) (on_users (update_rows name usr))
      else pure tt

  abbrev pub rename : User → String → Call
  rename usr name =
      if is_renamed usr name
      then exec env (rename_groups name usr.username) (on_groups (renamed_groups name usr.username))
      else pure tt

  abbrev pub group_user_name : User → String → String
  group_user_name usr name = if str_eq usr.username "" then name else usr.username

  abbrev pub clear_groups : String → Call
  clear_groups name = exec env (delete_groups name) (on_groups (without_groups name))

  abbrev pub replace_groups : String → Option (List String) → Call
  replace_groups name none = pure tt
  replace_groups name (some gs) = clear_groups name >> insert_groups name gs

  unfoldable pub update_statements : User → String → Call
  unfolding update_rows renamed_groups without_groups insert_groups
  update_statements usr name =
      update_columns usr name
      >> (rename usr name >> replace_groups (group_user_name usr name) usr.groups)

  unfoldable pub update : User → String → Change
  unfolding update_statements transaction
  update usr name =
      if str_eq name ""
      then lift (err username_empty)
      else transaction env (update_statements usr name)

  unfoldable pub delete_statements : String → Call
  unfolding without_user without_groups
  delete_statements name =
      exec env (delete_user name) (on_users (without_user name)) >> clear_groups name

  unfoldable pub delete : String → Change
  unfolding delete_statements transaction
  delete name = transaction env (delete_statements name)

-- `StaticProvider`: the users of the configuration cannot be changed.
unfoldable pub static_get_all_groups : Result Error (List String)
static_get_all_groups = err not_implemented

unfoldable pub static_change : Change
static_change = lift (err not_supported)
