-- ===== src/Tests/UserFiles.antt =====
-- Runs of the users file: a user added, a padded name, an update with a two factor address.
use rport.Prelude.{◌≡◌, refl, false, ◌∷◌, [], none, some}
use rport.Result.{ok, is_ok}
use rport.Text.{trim_space}
use rport.Users.Model.{User}
use rport.Users.File.{parse_user, parse_from, load_from, load_cache, get_by_username}
use rport.Users.FileAdapter.{
  FileAdapter, Env, read_users_from_file, save_users_to_file, load, add, update, delete,
  change_user, change_last, without_first,
}
use rport.Users.Parsing.{normal}
use rport.Users.Changes.{get_by_username-add}

unfoldable pub user_files : Unit {0}
unfolding parse_user parse_from load_from get_by_username read_users_from_file save_users_to_file
    load add update delete change_user change_last without_first trim_space
user_files = tt

abbrev pub fine : Env
fine = record { read_fails = false; write_leaves = none }

abbrev pub ann : User
ann = record {
  username = "ann";
  password = "$2y$x";
  groups = some ("ops" ∷ []);
  two_fa_send_to = "";
  token = none;
}

abbrev pub only_ann : FileAdapter
only_ann = record { by_username = load_cache (ann ∷ []); file = ann ∷ [] }

abbrev pub bob : User
bob = record ann { username = " bob " }

abbrev padded : User
padded = record ann { username = "ann " }

abbrev with_bob : FileAdapter
with_bob = (add fine bob only_ann).1

user_file_tests :
    ((add fine bob only_ann).0 ≡ ok tt)
    × (is_ok (add fine ann only_ann).0 ≡ false)
    × ((delete fine "ann" only_ann).1.file ≡ [])
    × (is_ok (delete fine "eve" only_ann).0 ≡ false)
unfolding user_files
user_file_tests = (refl, refl, refl, refl)

get_by_username-add_example :
    get_by_username with_bob.by_username (trim_space bob.username) ≡ some (normal bob)
unfolding user_files
get_by_username-add_example = get_by_username-add fine bob only_ann with_bob refl
