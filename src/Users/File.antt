-- ===== src/Users/File.antt =====
-- server/api/users/file.go and cache.go. The file is the list of users that the JSON decoder finds in
-- it; an empty file holds none. Reading may fail, and a failed write leaves some list behind: both are
-- said by the environment.
use rport.Prelude.{String, not, Option, List, [], ◌∷◌, str_eq, if◌then◌else◌, map}
use text.Mathlib.Text.{starts_with}
use rport.Result.{Result, ok, err, and_then}
use rport.Text.{trim_space}
use rport.Dict.{Dict, lookup, insert}
use rport.Users.Model.{User, has, Error, username_empty, password_empty, not_hashed, non_unique}

abbrev pub htpasswd_bcrypt_prefix : String
htpasswd_bcrypt_prefix = "$2y$"

-- One turn of the loop of `parseUsers`, with the names that it has met.
unfoldable pub parse_user : List String → User → Result Error User
parse_user usernames user =
    let u = trim_space user.username in
    let p = trim_space user.password in
    if str_eq u ""
    then err username_empty
    else if str_eq p ""
    then err password_empty
    else if not (starts_with p htpasswd_bcrypt_prefix)
    then err (not_hashed u)
    else if has u usernames
    then err (non_unique u)
    else ok (record user { username = u; password = p })

unfoldable pub parse_from : List String → List User → Result Error (List User)
parse_from usernames [] = ok []
parse_from usernames (user ∷ more) =
    and_then (parse_user usernames user)
      λ u. and_then (parse_from (u.username ∷ usernames) more) λ users. ok (u ∷ users)

abbrev pub parse_users : List User → Result Error (List User)
parse_users = parse_from []

-- `UserCache.Load`
unfoldable pub load_from : Dict User → List User → Dict User
load_from m [] = m
load_from m (u ∷ users) = load_from (insert u.username u m) users

abbrev pub load_cache : List User → Dict User
load_cache = load_from []

-- `UserCache.GetByUsername`
unfoldable pub get_by_username : Dict User → String → Option User
get_by_username by_username username = lookup username by_username

-- `UserCache.GetAll`
unfoldable pub get_all : Dict User → List User
get_all by_username = map (λ e. e.1) by_username
