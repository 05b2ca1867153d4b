-- ===== src/Tests/UserChanges.antt =====
-- Runs of the user service over the users file.
use rport.Prelude.{◌≡◌, refl, false, ◌∷◌, [], none, some}
use rport.Result.{ok, err, is_ok}
use rport.Dict.{lookup, insert}
use rport.Users.Model.{groups_not_found}
use rport.Users.File.{get_by_username}
use rport.Users.FileAdapter.{FileAdapter, add, update, delete}
use rport.Users.Service.{
  Provider, Settings, with_password, validate, exist_groups, add_user, update_user, delete_user,
  change,
}
use rport.Users.Taken.{change_taken}
use rport.Tests.UserFiles.{user_files, fine, ann, bob, only_ann}

user_service : Unit {0}
unfolding lookup insert user_files with_password validate exist_groups add_user update_user
    delete_user change
user_service = tt

abbrev file_provider : Provider
file_provider = record {
  Store = FileAdapter;
  get_all_groups = λ fa. ok ("ops" ∷ []);
  get_by_username = λ name fa. ok (get_by_username fa.by_username name);
  add = add fine;
  update = update fine;
  delete = delete fine;
}

abbrev plain : Settings
plain = record { two_fa_on = false; delivery = none; bcrypt = λ p. some "$2a$x" }

user_service_tests :
    (exist_groups file_provider ("ops" ∷ "dev" ∷ []) only_ann ≡ err (groups_not_found ("dev" ∷ [])))
    × ((change file_provider plain bob "" only_ann).0 ≡ ok tt)
    × (is_ok (delete_user file_provider "eve" only_ann).0 ≡ false)
unfolding user_service
user_service_tests = (refl, refl, refl)

change_taken_example :
    (is_ok (change file_provider plain ann "bob" only_ann).0 ≡ false)
    × ((change file_provider plain ann "bob" only_ann).1 ≡ only_ann)
unfolding user_service
change_taken_example = change_taken file_provider only_ann plain ann ann "bob" refl refl refl
