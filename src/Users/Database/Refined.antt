-- ===== src/Users/Database/Refined.antt =====
-- server/api/users/database.go, `Update`: the user that a successful change leaves.
use text.Mathlib.TextEquality.{eq_iff}
use rport.Prelude.{
  String, Bool, true, false, Option, none, some, List, [], ◌∷◌, ◌++◌, ◌≡◌, refl, arith, ap, sym,
  ◌∙◌, Bool-cases, inl, inr, str_eq, if◌then◌else◌, All, is_none,
}
use rport.Result.{Result, ok}
use rport.Exec.{Exec, bind_ok, pure}
use rport.Users.Model.{User, Error}
use rport.Users.Database.{
  set_columns, update_rows, or_row, renamed_groups, without_groups, on_users, on_groups, exec,
  insert_groups, update_columns, rename, replace_groups, clear_groups, group_user_name, is_renamed,
  has_columns,
}
use rport.Users.Tables.{
  UserRow, GroupRow, Tables, Env, update_user, rename_groups, delete_groups, find_row, groups_of,
}
use rport.Users.Database.Updated.{
  Free, map_row, str_eq_refl, left, exec_ok, insert_groups_ok, find_row-update_rows_new,
  groups_of-renamed_new, groups_of-cleared,
}

pub taken :
    {S : Type 0} (b : Bool) (m k : Exec Error S (Unit {0})) (t : S)
    (r : Result Error (Unit {0}) × S)
    → b ≡ true
    → (if b then m else k) t ≡ r
    → m t ≡ r
taken true m k t r e done = done
taken false m k t r e done = absurd (ground (arith, e))

pub skipped :
    {S : Type 0} (b : Bool) (m k : Exec Error S (Unit {0})) (t : S)
    (r : Result Error (Unit {0}) × S)
    → b ≡ false
    → (if b then m else k) t ≡ r
    → k t ≡ r
skipped true m k t r e done = absurd (ground (arith, e))
skipped false m k t r e done = done

abbrev name_of : Option UserRow → String → String
name_of none name = name
name_of (some r) name = r.username

find_row-name :
    (name : String) (rows : List UserRow) → str_eq (name_of (find_row name rows) name) name ≡ true
unfolding find_row
find_row-name name [] = str_eq_refl name
find_row-name name (q ∷ rows) = elim (Bool-cases (str_eq q.username name)) [
  | inl same ↦ rw same same
  | inr other ↦ rw other (find_row-name name rows)
]

module _ (env : Env) (usr : User) (name : String) where
  abbrev pub new : String
  new = group_user_name env usr name

  -- The name of a changed row is the new one.
  gives_new :
      (q : UserRow) → str_eq q.username name ≡ true → str_eq (set_columns usr q).username new ≡ true
  unfolding set_columns
  gives_new q same = elim (Bool-cases (str_eq usr.username "")) [
    | inl kept ↦ rw kept same
    | inr given ↦ rw given (str_eq_refl usr.username)
  ]

  -- A user that is not renamed keeps the name.
  keeps_name : is_renamed env usr name ≡ false → new ≡ name
  keeps_name kept = elim (Bool-cases (str_eq usr.username "")) [
    | inl empty ↦ rw empty refl
    | inr given ↦ rw given ((eq_iff usr.username name).0 (ground (arith, given, kept)))
  ]

  pub takes_name : is_renamed env usr name ≡ true → new ≡ usr.username
  takes_name renamed = elim (Bool-cases (str_eq usr.username "")) [
    | inl empty ↦ absurd (ground (arith, empty, renamed))
    | inr given ↦ ap (λ b. if b then name else usr.username) given
  ]

  pub kept-Free : (username : String) → is_renamed env usr name ≡ false → Free new name username
  kept-Free username kept apart = ap (λ n. str_eq username n) (keeps_name kept) ∙ apart

  -- Nothing to write changes nothing.
  abbrev row_of : String → String → String → Option String → UserRow
  row_of username password two_fa token = record {
    username = username;
    password = password;
    two_fa_send_to = two_fa;
    token = token;
  }

  no_name :
      (username : String)
      → is_renamed env usr name ≡ false
      → str_eq username name ≡ true
      → (if str_eq usr.username "" then username else usr.username) ≡ username
  no_name username kept same = elim (Bool-cases (str_eq usr.username "")) [
    | inl empty ↦ ap (λ b. if b then username else usr.username) empty
    | inr given ↦
        ap (λ b. if b then username else usr.username) given
        ∙ (eq_iff usr.username name).0 (ground (arith, given, kept))
        ∙ sym ((eq_iff username name).0 same)
  ]

  no_text :
      (given old : String) → str_eq given "" ≡ true → (if str_eq given "" then old else given) ≡ old
  no_text given old empty = ap (λ b. if b then old else given) empty

  no_token : (token old : Option String) → is_none token ≡ true → or_row token old ≡ old
  no_token none old empty = refl
  no_token (some t) old empty = absurd (ground (arith, empty))

  no_columns :
      (r : UserRow)
      → has_columns env usr name ≡ false
      → str_eq r.username name ≡ true
      → set_columns usr r ≡ r
  unfolding set_columns
  no_columns r nothing same =
      ap
        (λ x.
          row_of x (set_columns usr r).password (set_columns usr r).two_fa_send_to
            (set_columns usr r).token)
        (no_name r.username (ground (arith, nothing)) same)
      ∙ ap (λ x. row_of r.username x (set_columns usr r).two_fa_send_to (set_columns usr r).token)
          (no_text usr.password r.password (ground (arith, nothing)))
      ∙ ap (λ x. row_of r.username r.password x (set_columns usr r).token)
          (no_text usr.two_fa_send_to r.two_fa_send_to (ground (arith, nothing)))
      ∙ ap (row_of r.username r.password r.two_fa_send_to)
          (no_token usr.token r.token (ground (arith, nothing)))

  -- The three parts of an update.
  module _ (row : UserRow) where
    found_name :
        (rows : List UserRow) → find_row name rows ≡ some row → str_eq row.username name ≡ true
    found_name rows there =
        ap (λ o. str_eq (name_of o name) name) (sym there) ∙ find_row-name name rows

    pub columns_ok :
        (t t' : Tables) (u : Unit {0})
        → All (λ (q : UserRow). Free new name q.username) t.users
        → find_row name t.users ≡ some row
        → update_columns env usr name t ≡ (ok u, t')
        → (find_row new t'.users ≡ some (set_columns usr row)) × (t'.groups ≡ t.groups)
    columns_ok t t' u free there done = elim (Bool-cases (has_columns env usr name)) [
      | inl some_column ↦
          let write = exec env (update_user name) (on_users (update_rows name usr)) in
          let after =
            exec_ok env (update_user name) (on_users (update_rows name usr)) t t' u
              (taken (has_columns env usr name) write (pure tt) t (ok u, t') some_column done) in
          (
            ap (λ (x : Tables). find_row new x.users) after
                ∙ find_row-update_rows_new usr name new gives_new t.users free
                ∙ ap (map_row (set_columns usr)) there,
            ap (λ (x : Tables). x.groups) after,
          )
      | inr nothing ↦
          let write = exec env (update_user name) (on_users (update_rows name usr)) in
          let after =
            left (ok tt, t) u t'
              (skipped (has_columns env usr name) write (pure tt) t (ok u, t') nothing done) in
          (
            ap (λ (x : Tables). find_row new x.users) after
                ∙ ap (λ n. find_row n t.users) (keeps_name (ground (arith, nothing)))
                ∙ there
                ∙ ap (λ r. some r) (sym (no_columns row nothing (found_name t.users there))),
            ap (λ (x : Tables). x.groups) after,
          )
    ]

  pub rename_ok :
      (t t' : Tables) (u : Unit {0})
      → All (λ (g : GroupRow). Free new name g.username) t.groups
      → rename env usr name t ≡ (ok u, t')
      → (t'.users ≡ t.users) × (groups_of new t'.groups ≡ groups_of name t.groups)
  rename_ok t t' u free done = elim (Bool-cases (is_renamed env usr name)) [
    | inl renamed ↦
        let write =
          exec env (rename_groups name usr.username)
            (on_groups (renamed_groups name usr.username)) in
        let after =
          exec_ok env (rename_groups name usr.username)
            (on_groups (renamed_groups name usr.username)) t t' u
            (taken (is_renamed env usr name) write (pure tt) t (ok u, t') renamed done) in
        (
          ap (λ (x : Tables). x.users) after,
          ap (λ (x : Tables). groups_of new x.groups) after
              ∙ ap (λ n. groups_of new (renamed_groups name n t.groups)) (sym (takes_name renamed))
              ∙ groups_of-renamed_new name new t.groups free,
        )
    | inr kept ↦
        let write =
          exec env (rename_groups name usr.username)
            (on_groups (renamed_groups name usr.username)) in
        let after =
          left (ok tt, t) u t'
            (skipped (is_renamed env usr name) write (pure tt) t (ok u, t') kept done) in
        (
          ap (λ (x : Tables). x.users) after,
          ap (λ (x : Tables). groups_of new x.groups) after
              ∙ ap (λ n. groups_of n t.groups) (keeps_name kept),
        )
  ]

  abbrev pub new_groups : Option (List String) → List String → List String
  new_groups none old = old
  new_groups (some gs) old = gs

  pub replace_ok :
      (groups : Option (List String)) (t t' : Tables) (u : Unit {0})
      → replace_groups env new groups t ≡ (ok u, t')
      → (t'.users ≡ t.users)
        × (groups_of new t'.groups ≡ new_groups groups (groups_of new t.groups))
  replace_ok none t t' u done =
      let after = left (ok tt, t) u t' done in
      (ap (λ (x : Tables). x.users) after, ap (λ (x : Tables). groups_of new x.groups) after)
  replace_ok (some gs) t t' u done =
      let clear = clear_groups env new in
      let (v, first, rest) = bind_ok clear (λ v. insert_groups env new gs) t t' u done in
      let cleared = (clear t).1 in
      let one =
        exec_ok env (delete_groups new) (on_groups (without_groups new)) t cleared v
          (ap (λ r. (r, cleared)) first) in
      let (users, groups) = insert_groups_ok env new gs cleared t' u rest in
      (
        users ∙ ap (λ (x : Tables). x.users) one,
        groups
            ∙ ap (λ (x : Tables). groups_of new x.groups ++ gs) one
            ∙ ap (λ hs. hs ++ gs) (groups_of-cleared new t.groups),
      )
