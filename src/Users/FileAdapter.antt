-- ===== src/Users/FileAdapter.antt =====
-- server/api/users/file_adapter.go. The mutex makes each call atomic; the log lines and the reload on
-- a signal, which is `load`, are left out.
use rport.Prelude.{
  String, Bool, false, not, ◌&&◌, ◌||◌, Option, none, some, List, [], ◌∷◌, ◌++◌, str_eq,
  if◌then◌else◌,
}
use rport.Result.{Result, ok, err, and_then, refuse_if}
use rport.Exec.{Exec, lift, reads, ◌>>=◌, ◌>>◌}
use rport.Dict.{Dict}
use rport.Users.Model.{User, Error, read_failed, write_failed, already_exists, user_not_found}
use rport.Users.File.{parse_users, load_cache}

pub record FileAdapter : Type 0 where
  pub by_username : Dict User
  pub file : List User

-- Whether reads fail, and what a failed write leaves in the file (`none`: the write succeeds).
pub record Env : Type 0 where
  pub read_fails : Bool
  pub write_leaves : Option (List User)

abbrev pub Call : Type 0 → Type 0
Call = Exec Error FileAdapter

abbrev pub after_write : Option (List User) → List User → Call (Unit {0})
after_write none users fa = (ok tt, record fa { file = users })
after_write (some left) users fa = (err write_failed, record fa { file = left })

-- `users[i].Username == name` for some `i`
abbrev pub has_user : String → List User → Bool
has_user name [] = false
has_user name (u ∷ users) = str_eq u.username name || has_user name users

-- `append(users[:foundIndex], users[foundIndex+1:]...)` for the first user of that name
unfoldable pub without_first : String → List User → List User
without_first name [] = []
without_first name (u ∷ users) =
    if str_eq u.username name then users else u ∷ without_first name users

abbrev pub or_old {ℓ} : {A : Type ℓ} → Option A → Option A → Option A
or_old none old = old
or_old (some a) old = some a

-- The fields that `Update` writes.
unfoldable pub change_user : User → User → User
change_user data_to_change u = record u {
  username = if str_eq data_to_change.username "" then u.username else data_to_change.username;
  password = if str_eq data_to_change.password "" then u.password else data_to_change.password;
  groups = or_old data_to_change.groups u.groups;
  token = or_old data_to_change.token u.token;
}

-- The change goes to the last user of the name, whose index the loop keeps.
unfoldable pub change_last : String → User → List User → List User
unfolding change_user
change_last name data_to_change [] = []
change_last name data_to_change (u ∷ users) =
    (if str_eq u.username name && not (has_user name users)
      then change_user data_to_change u
      else u)
    ∷ change_last name data_to_change users

module _ (env : Env) where
  unfoldable pub read_users_from_file : FileAdapter → Result Error (List User)
  read_users_from_file fa = and_then (refuse_if env.read_fails read_failed) λ _. parse_users fa.file

  unfoldable pub save_users_to_file : List User → Call (Unit {0})
  save_users_to_file users fa = after_write env.write_leaves users fa

  unfoldable pub load : Call (Unit {0})
  unfolding read_users_from_file
  load = do
    users ← reads read_users_from_file
    λ fa. (ok tt, record fa { by_username = load_cache users })

  unfoldable pub add : User → Call (Unit {0})
  unfolding load save_users_to_file read_users_from_file
  add data_to_change = do
    users ← reads read_users_from_file
    lift (refuse_if (has_user data_to_change.username users) already_exists)
    save_users_to_file (users ++ data_to_change ∷ [])
    load

  -- The name is refused where another user has it, and this is not a rename to itself.
  abbrev pub takes_other_name : User → String → List User → Bool
  takes_other_name data_to_change username_to_find users =
      not (str_eq data_to_change.username "")
      && has_user data_to_change.username users
      && not (str_eq data_to_change.username username_to_find)

  unfoldable pub update : User → String → Call (Unit {0})
  unfolding load save_users_to_file read_users_from_file change_last
  update data_to_change username_to_find = do
    users ← reads read_users_from_file
    lift (refuse_if (takes_other_name data_to_change username_to_find users) already_exists)
    lift (refuse_if (not (has_user username_to_find users)) (user_not_found username_to_find))
    save_users_to_file (change_last username_to_find data_to_change users)
    load

  unfoldable pub delete : String → Call (Unit {0})
  unfolding load save_users_to_file read_users_from_file without_first
  delete username_to_delete = do
    users ← reads read_users_from_file
    lift (refuse_if (not (has_user username_to_delete users)) (user_not_found username_to_delete))
    save_users_to_file (without_first username_to_delete users)
    load
