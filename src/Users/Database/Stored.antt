-- ===== src/Users/Database/Stored.antt =====
-- server/api/users/database.go: what `GetByUsername` says of a user after an update.
use mathlib.Core.Path.{subst}
use text.Mathlib.TextEquality.{eq_iff}
use rport.Prelude.{
  String, true, false, none, some, List, [], ◌∷◌, ◌≡◌, arith, ap, sym, ◌∙◌, Bool-cases, inl, inr,
  str_eq, if◌then◌else◌, All, All-map, is_none, is_empty,
}
use rport.Result.{ok, err, is_ok}
use rport.Exec.{bind_ok, lift, ◌>>◌}
use rport.Users.Model.{User, username_empty}
use rport.Users.Database.{
  Session, set_columns, or_row, transaction, update_columns, rename, replace_groups,
  group_user_name, is_renamed, update_statements, update,
}
use rport.Users.Tables.{
  UserRow, GroupRow, Tables, UserDatabase, Env, find_row, groups_of, answer, get_by_username,
}
use rport.Users.Database.Updated.{Free, transaction_ok}
use rport.Users.Database.Refined.{
  taken, skipped, takes_name, kept-Free, columns_ok, rename_ok, replace_ok, new_groups,
}

rows_apart :
    (n : String) (rows : List UserRow)
    → find_row n rows ≡ none
    → All (λ (q : UserRow). str_eq q.username n ≡ false) rows
unfolding find_row
rows_apart n [] missing = tt
rows_apart n (q ∷ rows) missing = elim (Bool-cases (str_eq q.username n)) [
  | inl found ↦ absurd (ground (arith, found, ap is_none missing))
  | inr other ↦ (other, rows_apart n rows (ground (arith, other, missing)))
]

groups_apart :
    (n : String) (rows : List GroupRow)
    → groups_of n rows ≡ []
    → All (λ (g : GroupRow). str_eq g.username n ≡ false) rows
unfolding groups_of
groups_apart n [] missing = tt
groups_apart n (g ∷ rows) missing = elim (Bool-cases (str_eq g.username n)) [
  | inl found ↦ absurd (ground (arith, found, ap is_empty missing))
  | inr other ↦ (other, groups_apart n rows (ground (arith, other, missing)))
]

every : {A : Type 0} (P : A → Type 0) (xs : List A) → ((x : A) → P x) → All P xs
every P [] all = tt
every P (x ∷ xs) all = (all x, every P xs all)

-- The text of a change, or the old one where the change has none.
pub record IsWritten (given old now : String) : Type 0 where
  pub kept : given ≡ "" → now ≡ old
  pub written : ¬ (given ≡ "") → now ≡ given

-- The row of the user after the change: each column that the change names, and the old others.
pub record IsChanged (usr : User) (old now : UserRow) : Type 0 where
  pub username : IsWritten usr.username old.username now.username
  pub password : IsWritten usr.password old.password now.password
  pub two_fa_send_to : IsWritten usr.two_fa_send_to old.two_fa_send_to now.two_fa_send_to
  pub kept_token : usr.token ≡ none → now.token ≡ old.token
  pub new_token : (t : String) → usr.token ≡ some t → now.token ≡ some t

text-IsWritten : (given old : String) → IsWritten given old (if str_eq given "" then old else given)
text-IsWritten given old = record {
  kept = λ empty. ap (λ b. if b then old else given) ((eq_iff given "").1 empty);
  written = λ other. elim (Bool-cases (str_eq given "")) [
    | inl same ↦ absurd (other ((eq_iff given "").0 same))
    | inr differs ↦ ap (λ b. if b then old else given) differs
  ];
}

set_columns-IsChanged : (usr : User) (old : UserRow) → IsChanged usr old (set_columns usr old)
unfolding set_columns
set_columns-IsChanged usr old = record {
  username = text-IsWritten usr.username old.username;
  password = text-IsWritten usr.password old.password;
  two_fa_send_to = text-IsWritten usr.two_fa_send_to old.two_fa_send_to;
  kept_token = λ missing. ap (λ t. or_row t old.token) missing;
  new_token = λ t given. ap (λ t. or_row t old.token) given;
}

-- The new name, if there is one, is the name of nobody.
abbrev pub IsFree : Env → User → String → Tables → Type 0
IsFree env usr name t =
    is_renamed env usr name ≡ true
    → (find_row usr.username t.users ≡ none) × (groups_of usr.username t.groups ≡ [])

module _ (env : Env) (usr : User) (name : String) (t : Tables) (free : IsFree env usr name t) where
  abbrev pub to : String
  to = group_user_name env usr name

  users-Free : All (λ (q : UserRow). Free to name q.username) t.users
  users-Free = elim (Bool-cases (is_renamed env usr name)) [
    | inl renamed ↦
        All-map _ _ t.users
          (λ q apart other. ap (λ n. str_eq q.username n) (takes_name env usr name renamed) ∙ apart)
          (rows_apart usr.username t.users (free renamed).0)
    | inr kept ↦ every _ t.users (λ q. kept-Free env usr name q.username kept)
  ]

  groups-Free : All (λ (g : GroupRow). Free to name g.username) t.groups
  groups-Free = elim (Bool-cases (is_renamed env usr name)) [
    | inl renamed ↦
        All-map _ _ t.groups
          (λ g apart other. ap (λ n. str_eq g.username n) (takes_name env usr name renamed) ∙ apart)
          (groups_apart usr.username t.groups (free renamed).1)
    | inr kept ↦ every _ t.groups (λ g. kept-Free env usr name g.username kept)
  ]

  statements_ok :
      (row : UserRow) (t' : Tables) (u : Unit {0})
      → find_row name t.users ≡ some row
      → update_statements env usr name t ≡ (ok u, t')
      → (find_row to t'.users ≡ some (set_columns usr row))
        × (groups_of to t'.groups ≡ new_groups env usr name usr.groups (groups_of name t.groups))
  unfolding update_statements
  statements_ok row t' u there done =
      let columns = update_columns env usr name in
      let renaming = rename env usr name in
      let replacing = replace_groups env to usr.groups in
      let (u1, first, d1) = bind_ok columns (λ v. renaming >> replacing) t t' u done in
      let t1 = (columns t).1 in
      let (u2, second, d2) = bind_ok renaming (λ v. replacing) t1 t' u d1 in
      let t2 = (renaming t1).1 in
      let (found, same_groups) =
        columns_ok env usr name row t t1 u1 users-Free there (ap (λ r. (r, t1)) first) in
      let (same_users, renamed_to) =
        rename_ok env usr name t1 t2 u2
          (subst (λ gs. All (λ (g : GroupRow). Free to name g.username) gs) (sym same_groups)
            groups-Free)
          (ap (λ r. (r, t2)) second) in
      let (kept_users, replaced) = replace_ok env usr name usr.groups t2 t' u d2 in
      (
        ap (find_row to) (kept_users ∙ same_users) ∙ found,
        replaced
            ∙ ap (new_groups env usr name usr.groups)
                (renamed_to ∙ ap (groups_of name) same_groups),
      )

-- After an Update that succeeds, of a user whose new name, if there is one, nobody had, GetByUsername
-- answers for the name that the user then has from the user's old row with the columns that the
-- change names, and from the groups that it gives, or the old ones if it gives none.
pub get_by_username-update :
    (env env' : Env) (d : UserDatabase) (usr : User) (name : String) (row : UserRow)
    (s s' : Session)
    → IsFree env usr name s.tables
    → find_row name s.tables.users ≡ some row
    → update env usr name s ≡ (ok tt, s')
    → (now : UserRow) × IsChanged usr row now
      × (get_by_username d env' (group_user_name env usr name) s'.tables
          ≡ answer d env'
              (group_user_name env usr name)
              (some now)
              (new_groups env usr name usr.groups (groups_of name s.tables.groups)))
unfolding get_by_username update
get_by_username-update env env' d usr name row s s' free there done =
    elim (Bool-cases (str_eq name "")) [
      | inl empty ↦ absurd (
          ground (
            arith,
            ap (λ r. is_ok r.0)
                (taken (str_eq name "") (lift (err username_empty))
                  (transaction env (update_statements env usr name)) s (ok tt, s') empty done),
          ))
      | inr named ↦
          let after = s'.tables in
          let now = group_user_name env usr name in
          let (user, groups) = statements_ok env usr name s.tables free row after tt there (
            transaction_ok env (update_statements env usr name) s s' tt (
              skipped (str_eq name "") (lift (err username_empty))
                (transaction env (update_statements env usr name)) s (ok tt, s') named done)) in
          (
            set_columns usr row,
            set_columns-IsChanged usr row,
            ap (λ r. answer d env' now r (groups_of now after.groups)) user
                ∙ ap (answer d env' now (some (set_columns usr row))) groups,
          )
    ]
