-- ===== src/Users/Changes.antt =====
-- server/api/users/file_adapter.go: what the calls leave in the file and in the cache.
use rport.Prelude.{
  String, true, false, none, some, List, [], ◌∷◌, ◌++◌, ◌≡◌, refl, eq_iff, arith, inl, inr, ◌∙◌,
}
use rport.Result.{ok, is_ok, Result-cases}
use rport.Text.{trim_space}
use rport.Users.Model.{User}
use rport.Users.File.{parse_users, load_cache, get_by_username}
use rport.Users.FileAdapter.{
  FileAdapter, Env, has_user, read_users_from_file, add, update, change_user, change_last,
}
use rport.Users.Parsing.{normal, parse-last, lookup-load-last, has_trimmed, parse_repeated}

module _ (env : Env) (u : User) (fa fa' : FileAdapter) (added : add env u fa ≡ (ok tt, fa')) where
  add_shape :
      (users : List User) × (parse_users fa.file ≡ ok users)
      × (fa'.file ≡ users ++ u ∷ [])
      × (after : List User) × (parse_users (users ++ u ∷ []) ≡ ok after)
      × (fa'.by_username ≡ load_cache after)
  unfolding add
  add_shape = elim (Result-cases (parse_users fa.file)) [
    | inr (e, failed) ↦ absurd (ground arith)
    | inl (users, read) ↦ elim (Result-cases (parse_users (users ++ u ∷ []))) [
      | inr (e, failed) ↦ absurd (ground arith)
      | inl (after, again) ↦ (users, read, ground arith, after, again, ground arith)
    ]
  ]

  -- A user that `Add` accepted is found from then on under its trimmed name, as it was given, but
  -- for the spaces around its name and its password.
  pub get_by_username-add :
      get_by_username fa'.by_username (trim_space u.username) ≡ some (normal u)
  unfolding get_by_username
  get_by_username-add =
      let (users, _, _, after, again, cached) = add_shape in
      let (zs, last) = parse-last [] users u after again in
      rw (cached, last)
        (lookup-load-last [] zs (normal u) (trim_space u.username)
          ∙ ground (arith, eq_iff (trim_space u.username) (trim_space u.username)))

-- `Add` compares the names as they are given, but the file is read with the names trimmed. Where
-- the new name is another one's with spaces around it, and the file is read and written without
-- fault, `Add` writes the user, reports an error, and from then on every read of the file fails.
pub add_padded_name :
    (u : User) (fa : FileAdapter) (users : List User)
    → parse_users fa.file ≡ ok users
    → has_user u.username users ≡ false
    → has_trimmed u.username users ≡ true
    → (env : Env) → env.read_fails ≡ false
    → env.write_leaves ≡ none
    → (is_ok (add env u fa).0 ≡ false)
      × ((add env u fa).1.file ≡ users ++ u ∷ [])
      × ((env' : Env) → is_ok (read_users_from_file env' (add env u fa).1) ≡ false)
unfolding add
add_padded_name u fa users read new padded env fine fine' =
    let broken = parse_repeated [] users u padded in
    (
      ground (arith, broken),
      ground (arith, broken),
      λ env'. unfold read_users_from_file in ground (arith, broken),
    )

change_last_ignores :
    (d : User) (name address : String) (users : List User)
    → change_last name (record d { two_fa_send_to = address }) users ≡ change_last name d users
unfolding change_last change_user
change_last_ignores d name address [] = refl
change_last_ignores d name address (u ∷ users) =
    ground (arith, change_last_ignores d name address users)

-- `Update` never looks at the two factor address: the file, the cache and the result are the same
-- whatever address the request holds.
pub update_ignores_two_fa :
    (env : Env) (data_to_change : User) (name address : String) (fa : FileAdapter)
    → update env (record data_to_change { two_fa_send_to = address }) name fa
      ≡ update env data_to_change name fa
unfolding update
update_ignores_two_fa env d name address fa = elim (Result-cases (parse_users fa.file)) [
  | inr (e, failed) ↦ ground arith
  | inl (users, read) ↦ ground (arith, change_last_ignores d name address users)
]
