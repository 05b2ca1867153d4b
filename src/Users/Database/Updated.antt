-- ===== src/Users/Database/Updated.antt =====
-- server/api/users/database.go: what `Update` makes of the user that it changes.
use text.Mathlib.TextEquality.{eq_iff}
use rport.Prelude.{
  String, Bool, true, false, Option, none, some, List, [], ◌∷◌, ◌++◌, ◌≡◌, refl, arith, ap, sym,
  ◌∙◌, Bool-cases, inl, inr, str_eq, if◌then◌else◌, All,
}
use rport.Result.{ok, err, is_ok}
use rport.Users.Model.{User, Error, database_failed}
use rport.Exec.{bind_ok}
use rport.Users.Database.Transactions.{Outcome, all_or_nothing, seen, transaction_lem}
use mathlib.Core.List.{append-nil, append_assoc}
use rport.Users.Database.{
  Call, set_columns, update_rows, renamed_groups, without_groups, add_group, exec, transaction,
  Session, insert_groups,
}
use rport.Users.Tables.{
  UserRow, GroupRow, Tables, Env, begin_tx, commit_tx, find_row, groups_of, Stmt, insert_group,
}
use rport.Users.Database.Rows.{groups_of-append}

pub str_eq_refl : (s : String) → str_eq s s ≡ true
str_eq_refl s = (eq_iff s s).1 refl

-- A row that does not have the name does not have the new name either.
abbrev pub Free : String → String → String → Type 0
Free new name username = str_eq username name ≡ false → str_eq username new ≡ false

abbrev pub map_row : (UserRow → UserRow) → Option UserRow → Option UserRow
map_row f none = none
map_row f (some r) = some (f r)

module _ (usr : User) (name new : String)
    (gives : (q : UserRow)
      → str_eq q.username name ≡ true
      → str_eq (set_columns usr q).username new ≡ true) where
  pub find_row-update_rows_new :
      (rows : List UserRow)
      → All (λ (q : UserRow). Free new name q.username) rows
      → find_row new (update_rows name usr rows) ≡ map_row (set_columns usr) (find_row name rows)
  unfolding find_row update_rows
  find_row-update_rows_new [] free = refl
  find_row-update_rows_new (q ∷ rows) (apart, free) = elim (Bool-cases (str_eq q.username name)) [
    | inl same ↦ rw same (rw (gives q same) refl)
    | inr other ↦ rw other (rw (apart other) (find_row-update_rows_new rows free))
  ]

pub groups_of-renamed_new :
    (name new : String) (rows : List GroupRow)
    → All (λ (g : GroupRow). Free new name g.username) rows
    → groups_of new (renamed_groups name new rows) ≡ groups_of name rows
unfolding groups_of renamed_groups
groups_of-renamed_new name new [] free = refl
groups_of-renamed_new name new (g ∷ rows) (apart, free) =
    elim (Bool-cases (str_eq g.username name)) [
      | inl same ↦ rw same (
          rw (str_eq_refl new) (ap (λ gs. g.group ∷ gs) (groups_of-renamed_new name new rows free)))
      | inr other ↦ rw other (rw (apart other) (groups_of-renamed_new name new rows free))
    ]

pub groups_of-cleared :
    (name : String) (rows : List GroupRow) → groups_of name (without_groups name rows) ≡ []
unfolding groups_of without_groups
groups_of-cleared name [] = refl
groups_of-cleared name (g ∷ rows) = elim (Bool-cases (str_eq g.username name)) [
  | inl same ↦ rw same (groups_of-cleared name rows)
  | inr other ↦ rw other (rw other (groups_of-cleared name rows))
]

pub failed_ok :
    (t t' : Tables) (e : Error) (u : Unit {0}) → ¬ (◌≡◌ {A = Outcome} (err e, t) (ok u, t'))
failed_ok t t' e u same = ground (arith, ap (λ (r : Outcome). is_ok r.0) same)

pub fine_ok :
    (b : Bool) (t t' : Tables) (r : Outcome) (u : Unit {0})
    → (if b then (err database_failed, t) else r) ≡ (ok u, t')
    → r ≡ (ok u, t')
fine_ok true t t' r u done = absurd (failed_ok t t' database_failed u done)
fine_ok false t t' r u done = done

pub left : (r : Outcome) (u : Unit {0}) (t' : Tables) → r ≡ (ok u, t') → t' ≡ r.1
left r u t' done = sym (ap (λ (x : Outcome). x.1) done)

module _ (env : Env) where
  pub exec_ok :
      (stmt : Stmt) (f : Tables → Tables) (t t' : Tables) (u : Unit {0})
      → exec env stmt f t ≡ (ok u, t')
      → t' ≡ f t
  exec_ok stmt f t t' u done =
      left (ok tt, f t) u t' (fine_ok (env.fault stmt) t t' (ok tt, f t) u done)

  settle_ok :
      (t t' : Tables) (r : Outcome) (u : Unit {0})
      → all_or_nothing env t r ≡ (ok u, t')
      → r ≡ (ok u, t')
  settle_ok t t' (ok v, after) u done = fine_ok (env.fault commit_tx) t t' (ok v, after) u done
  settle_ok t t' (err e, after) u done = absurd (failed_ok t t' e u done)

  pub transaction_ok :
      (m : Call) (s s' : Session) (u : Unit {0})
      → transaction env m s ≡ (ok u, s')
      → m s.tables ≡ (ok u, s'.tables)
  transaction_ok m s s' u done =
      let t = s.tables in
      settle_ok t s'.tables (m t) u (
        fine_ok (env.fault begin_tx) t s'.tables (all_or_nothing env t (m t)) u
          (sym (transaction_lem env m s).0 ∙ ap seen done))

  -- A group that is inserted comes after the groups of the name.
  add_group_lem :
      (name group : String) (t : Tables)
      → groups_of name (add_group name group t).groups ≡ groups_of name t.groups ++ group ∷ []
  add_group_lem name group t =
      groups_of-append name t.groups (record { username = name; group = group })
      ∙ ap (λ b. groups_of name t.groups ++ (if b then group ∷ [] else [])) (str_eq_refl name)

  pub insert_groups_ok :
      (name : String) (gs : List String) (t t' : Tables) (u : Unit {0})
      → insert_groups env name gs t ≡ (ok u, t')
      → (t'.users ≡ t.users) × (groups_of name t'.groups ≡ groups_of name t.groups ++ gs)
  unfolding insert_groups
  insert_groups_ok name [] t t' u done =
      let same = left (ok tt, t) u t' done in
      (
        ap (λ (x : Tables). x.users) same,
        ap (λ (x : Tables). groups_of name x.groups) same
            ∙ sym (append-nil (groups_of name t.groups)),
      )
  insert_groups_ok name (g ∷ gs) t t' u done =
      let insert_one = exec env (insert_group name g) (add_group name g) in
      let (v, first, rest) = bind_ok insert_one (λ v. insert_groups env name gs) t t' u done in
      let after = (insert_one t).1 in
      let one : after ≡ add_group name g t =
        exec_ok (insert_group name g) (add_group name g) t after v (ap (λ r. (r, after)) first) in
      let (users, groups) = insert_groups_ok name gs after t' u rest in
      (
        users ∙ ap (λ (x : Tables). x.users) one,
        groups
            ∙ ap (λ (x : Tables). groups_of name x.groups ++ gs) one
            ∙ ap (λ hs. hs ++ gs) (add_group_lem name g t)
            ∙ append_assoc (groups_of name t.groups) (g ∷ []) gs,
      )
