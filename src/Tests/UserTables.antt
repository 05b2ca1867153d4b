-- ===== src/Tests/UserTables.antt =====
-- Runs of the users in a database: a renamed user, a transaction that fails halfway.
use rport.Prelude.{String, Bool, true, false, none, some, [], ◌∷◌, ◌≡◌, refl, str_eq}
use rport.Result.{ok, err, is_ok}
use rport.Users.Model.{User, username_empty}
use rport.Users.Database.{
  Session, transaction, set_columns, update_rows, renamed_groups, without_user, without_groups,
  insert_groups, add_statements, add, update_statements, update, delete_statements, delete,
}
use rport.Users.Tables.{
  UserRow, GroupRow, Tables, UserDatabase, Env, Stmt, insert_group, find_row, groups_of, distinct,
  answer, get_by_username, get_all, get_all_groups, new_user_database,
}
use rport.Users.Database.Atomic.{change, updates, change_undone}
use rport.Users.Database.Frame.{get_by_username-change}
use rport.Users.Database.Stored.{IsChanged, get_by_username-update}

user_tables : Unit {0}
unfolding find_row groups_of distinct get_by_username get_all get_all_groups new_user_database
    transaction set_columns update_rows renamed_groups without_user without_groups insert_groups
    add_statements add update_statements update delete_statements delete change
user_tables = tt

abbrev row : String → UserRow
row name = record { username = name; password = "h"; two_fa_send_to = ""; token = some "t" }

abbrev member : String → String → GroupRow
member name group = record { username = name; group = group }

abbrev tables : Tables
tables = record {
  users = row "ann" ∷ row "bob" ∷ [];
  groups = member "ann" "ops" ∷ member "bob" "ops" ∷ member "ann" "dev" ∷ [];
}

abbrev session : Session
session = record { tables = tables; tx = none }

abbrev database : UserDatabase
database = record { two_fa_on = false; has_token_column = true }

abbrev fine : Env
fine = record { fault = λ stmt. false }

-- The second group cannot be written.
abbrev refuses : Stmt → Bool
refuses (insert_group name group) = str_eq group "qa"
refuses _ = false

abbrev full : Env
full = record { fault = refuses }

abbrev renamed : User
renamed = record {
  username = "eve";
  password = "";
  groups = some ("dev" ∷ "qa" ∷ []);
  two_fa_send_to = "";
  token = none;
}

abbrev eve : User
eve = record renamed { password = "h"; token = some "t" }

user_table_tests :
    (get_by_username database fine "ann" (update fine renamed "ann" session).1.tables ≡ ok none)
    × (get_by_username database fine "eve" (update fine renamed "ann" session).1.tables
        ≡ ok (some eve))
    × ((update fine renamed "" session).0 ≡ err username_empty)
    × ((delete fine "ann" session).1.tables
        ≡ record { users = row "bob" ∷ []; groups = member "bob" "ops" ∷ [] })
unfolding user_tables
user_table_tests = (refl, refl, refl, refl)

change_undone_example :
    (is_ok (update full renamed "ann" session).0 ≡ false
      → (update full renamed "ann" session).1.tables ≡ tables)
    × ((update full renamed "ann" session).1.tx ≡ none)
unfolding user_tables
change_undone_example = change_undone full database (updates renamed "ann") session refl

get_by_username-change_example :
    get_by_username database fine "bob" (update fine renamed "ann" session).1.tables
    ≡ get_by_username database fine "bob" tables
unfolding user_tables
get_by_username-change_example =
    get_by_username-change fine fine database (updates renamed "ann") session "bob" (refl, refl)

get_by_username-update_example :
    (now : UserRow) × IsChanged renamed (row "ann") now
    × (get_by_username database fine "eve" (update fine renamed "ann" session).1.tables
        ≡ answer database fine "eve" (some now) ("dev" ∷ "qa" ∷ []))
unfolding user_tables
get_by_username-update_example =
    get_by_username-update fine fine database renamed "ann" (row "ann") session
      (update fine renamed "ann" session).1 (λ r. (refl, refl)) refl refl
