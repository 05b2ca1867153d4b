-- ===== src/Users/Tables.antt =====
-- server/api/users/database.go: the tables of the users, and what is read from them.
use rport.Prelude.{String, Bool, not, Option, none, some, List, [], ◌∷◌, str_eq, if◌then◌else◌}
use rport.Result.{Result, ok, and_then, refuse_if}
use rport.Users.Model.{User, has, Error, database_failed}

pub record UserRow : Type 0 where
  pub username : String
  pub password : String
  pub two_fa_send_to : String
  pub token : Option String

pub record GroupRow : Type 0 where
  pub username : String
  pub group : String

pub record Tables : Type 0 where
  pub users : List UserRow
  pub groups : List GroupRow

-- `twoFAOn` and `hasTokenColumn`.
pub record UserDatabase : Type 0 where
  pub two_fa_on : Bool
  pub has_token_column : Bool

-- The statements, and which of them the database refuses: for want of a column, by a constraint, or
-- because it is down.
pub data Stmt : Type 0 where
  select_token select_users select_groups select_all select_all_groups begin_tx commit_tx : Stmt
  select_user select_groups_of insert_user update_user delete_user delete_groups : String → Stmt
  insert_group rename_groups : String → String → Stmt

pub record Env : Type 0 where
  pub fault : Stmt → Bool

abbrev pub run : Env → Stmt → Result Error (Unit {0})
run env stmt = refuse_if (env.fault stmt) database_failed

-- `NewUserDatabase` and `checkDatabaseTables`.
unfoldable pub new_user_database : Env → Bool → Result Error UserDatabase
new_user_database env two_fa_on = and_then (run env select_users) λ _.
    and_then (run env select_groups)
      λ _. ok (record { two_fa_on = two_fa_on; has_token_column = not (env.fault select_token) })

unfoldable pub find_row : String → List UserRow → Option UserRow
find_row name [] = none
find_row name (r ∷ rows) =
    let rest = find_row name rows in if str_eq r.username name then some r else rest

unfoldable pub groups_of : String → List GroupRow → List String
groups_of name [] = []
groups_of name (g ∷ rows) =
    let rest = groups_of name rows in if str_eq g.username name then g.group ∷ rest else rest

-- `SELECT DISTINCT`
unfoldable pub distinct : List String → List String
distinct [] = []
distinct (g ∷ gs) = let rest = distinct gs in if has g gs then rest else g ∷ rest

-- A select that finds nothing leaves the slice nil.
abbrev pub slice_of : List String → Option (List String)
slice_of [] = none
slice_of (g ∷ gs) = some (g ∷ gs)

module _ (d : UserDatabase) where
  -- `getSelectClause`: the columns that are not selected keep their zero value.
  abbrev pub to_user : UserRow → List String → User
  to_user r groups = record {
    username = r.username;
    password = r.password;
    groups = slice_of groups;
    two_fa_send_to = if d.two_fa_on then r.two_fa_send_to else "";
    token = if d.has_token_column then r.token else none;
  }

  abbrev pub with_groups : Env → String → List String → Option UserRow → Result Error (Option User)
  with_groups env name groups none = ok none
  with_groups env name groups (some r) =
      and_then (run env (select_groups_of name)) λ _. ok (some (to_user r (distinct groups)))

  -- The answer, from the first row of the name and its groups.
  abbrev pub answer : Env → String → Option UserRow → List String → Result Error (Option User)
  answer env name row groups =
      and_then (run env (select_user name)) λ _. with_groups env name groups row

  unfoldable pub get_by_username : Env → String → Tables → Result Error (Option User)
  unfolding find_row groups_of distinct
  get_by_username env name t = answer env name (find_row name t.users) (groups_of name t.groups)

  abbrev pub join_groups : List GroupRow → List UserRow → List User
  join_groups groups [] = []
  join_groups groups (r ∷ rows) = to_user r (groups_of r.username groups) ∷ join_groups groups rows

  -- `GetAll`, and what `ORDER BY` makes of the rows.
  unfoldable pub get_all :
      Env
      → (List UserRow → List UserRow)
      → (List GroupRow → List GroupRow)
      → Tables
      → Result Error (List User)
  unfolding groups_of
  get_all env by_username by_group t = and_then (run env select_all) λ _.
      and_then (run env select_all_groups)
        λ _. ok (join_groups (by_group t.groups) (by_username t.users))

abbrev pub group_names : List GroupRow → List String
group_names [] = []
group_names (g ∷ rows) = g.group ∷ group_names rows

unfoldable pub get_all_groups :
    Env → (List String → List String) → Tables → Result Error (List String)
unfolding distinct
get_all_groups env order_by t =
    and_then (run env select_all_groups) λ _. ok (order_by (distinct (group_names t.groups)))
