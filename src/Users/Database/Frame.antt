-- ===== src/Users/Database/Frame.antt =====
-- server/api/users/database.go: a change of one user leaves every other user as it was.
use rport.Prelude.{
  String, Bool, false, Option, none, some, List, [], ◌∷◌, ◌++◌, ◌≡◌, refl, ap, sym, ◌∙◌, str_eq,
  if◌then◌else◌, either,
}
use rport.Result.{Result, ok, err}
use rport.Exec.{Preserves, bind-Preserves, lift-Preserves, if-Preserves, pure, ◌>>◌}
use rport.Users.Model.{User, Error, entries}
use rport.Users.Database.{
  Call, Change, Session, exec, transaction, on_users, add_group, add_row, new_row, insert_groups,
  update_columns, rename, replace_groups, group_user_name, clear_groups, is_renamed, has_columns,
  add_statements, update_statements, delete_statements, add, update, delete, without_user,
}
use rport.Users.Tables.{
  UserRow, Tables, UserDatabase, Env, Stmt, begin_tx, commit_tx, insert_group, insert_user,
  update_user, delete_user, rename_groups, delete_groups, find_row, groups_of, get_by_username,
  answer,
}
use rport.Users.Database.Rows.{
  find_row-append, groups_of-append, find_row-without_user, groups_of-without_groups,
  find_row-update_rows, groups_of-renamed_groups,
}
use rport.Users.Database.Atomic.{Request, adds, updates, deletes, change}
use rport.Users.Database.Transactions.{Outcome, all_or_nothing, transaction_lem}
use mathlib.Core.Path.{subst}
use mathlib.Core.List.{append-nil}

-- A user whose name the change neither names nor gives.
abbrev pub IsApart : String → Request → Type 0
IsApart other (adds usr) = str_eq usr.username other ≡ false
IsApart other (updates usr name) = (str_eq name other ≡ false) × (str_eq usr.username other ≡ false)
IsApart other (deletes name) = str_eq name other ≡ false

module _ (other : String) (row : Option UserRow) (gs : List String) where
  -- The rows of the other user are these.
  record Shows (t : Tables) : Type 0 where
    user : find_row other t.users ≡ row
    groups : groups_of other t.groups ≡ gs

  exec-Shows :
      (env : Env) (stmt : Stmt) (f : Tables → Tables)
      → ((t : Tables) → Shows t → Shows (f t))
      → Preserves Shows (exec env stmt f)
  exec-Shows env stmt f keeps t shows =
      either (λ (r : Result Error (Unit {0}) × Tables). Shows r.1) (env.fault stmt) _ _ shows
        (keeps t shows)

  all_or_nothing-Shows :
      (env : Env) (t : Tables) (r : Outcome)
      → Shows t
      → Shows r.1
      → Shows (all_or_nothing env t r).1
  all_or_nothing-Shows env t (ok u, after) before shows =
      either (λ (r : Result Error (Unit {0}) × Tables). Shows r.1) (env.fault commit_tx) _ _ before
        shows
  all_or_nothing-Shows env t (err e, after) before shows = before

  abbrev ShowsIn : Session → Type 0
  ShowsIn s = Shows s.tables

  transaction-Shows :
      (env : Env) (m : Call) → Preserves Shows m → Preserves ShowsIn (transaction env m)
  transaction-Shows env m keeps s shows =
      subst (λ (r : Outcome). Shows r.1) (sym (transaction_lem env m s).0)
        (either (λ (r : Outcome). Shows r.1) (env.fault begin_tx) _ _ shows
          (all_or_nothing-Shows env s.tables (m s.tables) shows (keeps s.tables shows)))

  then-Shows : (m k : Call) → Preserves Shows m → Preserves Shows k → Preserves Shows (m >> k)
  then-Shows m k first rest = bind-Preserves Shows m (λ u. k) first (λ u. rest)

  add_group-Shows :
      (name group : String) (t : Tables)
      → str_eq name other ≡ false
      → Shows t
      → Shows (add_group name group t)
  add_group-Shows name group t apart shows = record {
    user = shows.user;
    groups =
        groups_of-append other t.groups (record { username = name; group = group })
        ∙ ap (λ b. groups_of other t.groups ++ (if b then group ∷ [] else [])) apart
        ∙ append-nil (groups_of other t.groups)
        ∙ shows.groups;
  }

  insert_groups-Shows :
      (env : Env) (name : String) (groups : List String)
      → str_eq name other ≡ false
      → Preserves Shows (insert_groups env name groups)
  unfolding insert_groups
  insert_groups-Shows env name [] apart = lift-Preserves {E = Error} Shows (ok tt)
  insert_groups-Shows env name (g ∷ more) apart =
      then-Shows (exec env (insert_group name g) (add_group name g)) (insert_groups env name more)
        (exec-Shows env (insert_group name g) _ (λ t. add_group-Shows name g t apart))
        (insert_groups-Shows env name more apart)

  add_statements-Shows :
      (env : Env) (d : UserDatabase) (usr : User)
      → str_eq usr.username other ≡ false
      → Preserves Shows (add_statements env d usr)
  unfolding add_statements
  add_statements-Shows env d usr apart =
      then-Shows (exec env (insert_user usr.username) (add_row (new_row d usr))) _
        (exec-Shows env (insert_user usr.username) _ λ t shows. record {
          user = find_row-append other t.users (new_row d usr) apart ∙ shows.user;
          groups = shows.groups;
        })
        (insert_groups-Shows env usr.username (entries usr.groups) apart)

  clear_groups-Shows :
      (env : Env) (name : String)
      → str_eq name other ≡ false
      → Preserves Shows (clear_groups env name)
  clear_groups-Shows env name apart = exec-Shows env (delete_groups name) _ λ t shows. record {
    user = shows.user;
    groups = groups_of-without_groups other name t.groups apart ∙ shows.groups;
  }

  replace_groups-Shows :
      (env : Env) (name : String) (groups : Option (List String))
      → str_eq name other ≡ false
      → Preserves Shows (replace_groups env name groups)
  replace_groups-Shows env name none apart = lift-Preserves {E = Error} Shows (ok tt)
  replace_groups-Shows env name (some groups) apart =
      then-Shows (clear_groups env name) (insert_groups env name groups)
        (clear_groups-Shows env name apart) (insert_groups-Shows env name groups apart)

  if_exec-Shows :
      (env : Env) (b : Bool) (stmt : Stmt) (f : Tables → Tables)
      → ((t : Tables) → Shows t → Shows (f t))
      → Preserves Shows (if b then exec env stmt f else pure tt)
  if_exec-Shows env b stmt f keeps =
      if-Preserves Shows b (exec env stmt f) (pure tt) (exec-Shows env stmt f keeps)
        (lift-Preserves {E = Error} Shows (ok tt))

  update_statements-Shows :
      (env : Env) (usr : User) (name : String)
      → str_eq name other ≡ false
      → str_eq usr.username other ≡ false
      → Preserves Shows (update_statements env usr name)
  unfolding update_statements
  update_statements-Shows env usr name apart new_apart =
      then-Shows (update_columns env usr name) _
        (if_exec-Shows env (has_columns env usr name) (update_user name) _ λ t shows. record {
          user = find_row-update_rows other name usr t.users apart new_apart ∙ shows.user;
          groups = shows.groups;
        })
        (then-Shows (rename env usr name) _
          (if_exec-Shows env (is_renamed env usr name) (rename_groups name usr.username) _
            λ t shows. record {
              user = shows.user;
              groups =
                  groups_of-renamed_groups other name usr.username t.groups apart new_apart
                  ∙ shows.groups;
            })
          (replace_groups-Shows env (group_user_name env usr name) usr.groups (
            either (λ n. str_eq n other ≡ false) (str_eq usr.username "") name usr.username apart
              new_apart)))

  delete_statements-Shows :
      (env : Env) (name : String)
      → str_eq name other ≡ false
      → Preserves Shows (delete_statements env name)
  unfolding delete_statements
  delete_statements-Shows env name apart =
      then-Shows (exec env (delete_user name) (on_users (without_user name)))
        (clear_groups env name)
        (exec-Shows env (delete_user name) _ λ t shows. record {
          user = find_row-without_user other name t.users apart ∙ shows.user;
          groups = shows.groups;
        })
        (clear_groups-Shows env name apart)

  change-Shows :
      (env : Env) (d : UserDatabase) (c : Request)
      → IsApart other c
      → Preserves ShowsIn (change env d c)
  unfolding change add update delete
  change-Shows env d (adds usr) apart =
      transaction-Shows env (add_statements env d usr) (add_statements-Shows env d usr apart)
  change-Shows env d (updates usr name) (apart, new_apart) =
      either (λ (m : Change). Preserves ShowsIn m) (str_eq name "") _ _ (λ s shows. shows)
        (transaction-Shows env (update_statements env usr name)
          (update_statements-Shows env usr name apart new_apart))
  change-Shows env d (deletes name) apart =
      transaction-Shows env (delete_statements env name) (delete_statements-Shows env name apart)

-- An addition, an update or a deletion, whether it succeeds or fails, does not change what
-- `GetByUsername` says of a user whose name the change neither names nor gives.
pub get_by_username-change :
    (env env' : Env) (d : UserDatabase) (c : Request) (s : Session) (other : String)
    → IsApart other c
    → get_by_username d env' other (change env d c s).1.tables
      ≡ get_by_username d env' other s.tables
unfolding get_by_username
get_by_username-change env env' d c s other apart =
    let shows =
      change-Shows other (find_row other s.tables.users) (groups_of other s.tables.groups) env d c
        apart s (record { user = refl; groups = refl }) in
    ap (λ r. answer d env' other r (groups_of other (change env d c s).1.tables.groups)) shows.user
    ∙ ap (answer d env' other (find_row other s.tables.users)) shows.groups
