-- ===== src/Users/Database/Rows.antt =====
-- server/api/users/database.go: what the statements of a change do to the rows of one name.
use text.Mathlib.TextEquality.{eq_iff}
use rport.Prelude.{
  String, true, false, List, [], ◌∷◌, ◌++◌, ◌≡◌, refl, ap, sym, ◌∙◌, Bool-cases, inl, inr, str_eq,
  if◌then◌else◌, either,
}
use rport.Users.Model.{User}
use rport.Users.Database.{set_columns, update_rows, renamed_groups, without_user, without_groups}
use rport.Users.Tables.{UserRow, GroupRow, find_row, groups_of}

-- A text is apart from another as a text that it equals is.
same_apart : (a b c : String) → str_eq a b ≡ true → str_eq b c ≡ false → str_eq a c ≡ false
same_apart a b c same apart = ap (λ x. str_eq x c) ((eq_iff a b).0 same) ∙ apart

module _ (other : String) where
  pub find_row-append :
      (rows : List UserRow) (r : UserRow)
      → str_eq r.username other ≡ false
      → find_row other (rows ++ r ∷ []) ≡ find_row other rows
  unfolding find_row
  find_row-append [] r apart = rw apart refl
  find_row-append (q ∷ rows) r apart = elim (Bool-cases (str_eq q.username other)) [
    | inl found ↦ rw found refl
    | inr missed ↦ rw missed (find_row-append rows r apart)
  ]

  pub groups_of-append :
      (rows : List GroupRow) (g : GroupRow)
      → groups_of other (rows ++ g ∷ [])
        ≡ groups_of other rows ++ (if str_eq g.username other then g.group ∷ [] else [])
  unfolding groups_of
  groups_of-append [] g = refl
  groups_of-append (q ∷ rows) g = elim (Bool-cases (str_eq q.username other)) [
    | inl found ↦ rw found (ap (λ gs. q.group ∷ gs) (groups_of-append rows g))
    | inr missed ↦ rw missed (groups_of-append rows g)
  ]

  -- Two lists with the same first row agree on the first row of a name if their rests do.
  find_row-cons :
      (q : UserRow) (rows rows' : List UserRow)
      → find_row other rows ≡ find_row other rows'
      → find_row other (q ∷ rows) ≡ find_row other (q ∷ rows')
  unfolding find_row
  find_row-cons q rows rows' same = elim (Bool-cases (str_eq q.username other)) [
    | inl found ↦ rw found refl
    | inr missed ↦ rw missed same
  ]

  -- A row of another name is skipped.
  find_row-skip :
      (q : UserRow) (rows : List UserRow)
      → str_eq q.username other ≡ false
      → find_row other (q ∷ rows) ≡ find_row other rows
  unfolding find_row
  find_row-skip q rows apart = rw apart refl

  groups_of-cons :
      (g : GroupRow) (rows rows' : List GroupRow)
      → groups_of other rows ≡ groups_of other rows'
      → groups_of other (g ∷ rows) ≡ groups_of other (g ∷ rows')
  unfolding groups_of
  groups_of-cons g rows rows' same = elim (Bool-cases (str_eq g.username other)) [
    | inl found ↦ rw found (ap (λ gs. g.group ∷ gs) same)
    | inr missed ↦ rw missed same
  ]

  groups_of-skip :
      (g : GroupRow) (rows : List GroupRow)
      → str_eq g.username other ≡ false
      → groups_of other (g ∷ rows) ≡ groups_of other rows
  unfolding groups_of
  groups_of-skip g rows apart = rw apart refl

  pub find_row-without_user :
      (name : String) (rows : List UserRow)
      → str_eq name other ≡ false
      → find_row other (without_user name rows) ≡ find_row other rows
  unfolding without_user
  find_row-without_user name [] apart = refl
  find_row-without_user name (q ∷ rows) apart = elim (Bool-cases (str_eq q.username name)) [
    | inl same ↦ rw same (
        find_row-without_user name rows apart
        ∙ sym (find_row-skip q rows (same_apart q.username name other same apart)))
    | inr other_name ↦
        rw other_name
          (find_row-cons q (without_user name rows) rows (find_row-without_user name rows apart))
  ]

  pub groups_of-without_groups :
      (name : String) (rows : List GroupRow)
      → str_eq name other ≡ false
      → groups_of other (without_groups name rows) ≡ groups_of other rows
  unfolding without_groups
  groups_of-without_groups name [] apart = refl
  groups_of-without_groups name (g ∷ rows) apart = elim (Bool-cases (str_eq g.username name)) [
    | inl same ↦ rw same (
        groups_of-without_groups name rows apart
        ∙ sym (groups_of-skip g rows (same_apart g.username name other same apart)))
    | inr other_name ↦ rw other_name (
        groups_of-cons g (without_groups name rows) rows (groups_of-without_groups name rows apart))
  ]

  set_columns_apart :
      (usr : User) (q : UserRow)
      → str_eq usr.username other ≡ false
      → str_eq q.username other ≡ false
      → str_eq (set_columns usr q).username other ≡ false
  unfolding set_columns
  set_columns_apart usr q apart apart' =
      either (λ n. str_eq n other ≡ false) (str_eq usr.username "") q.username usr.username apart'
        apart

  pub find_row-update_rows :
      (name : String) (usr : User) (rows : List UserRow)
      → str_eq name other ≡ false
      → str_eq usr.username other ≡ false
      → find_row other (update_rows name usr rows) ≡ find_row other rows
  unfolding update_rows
  find_row-update_rows name usr [] apart new_apart = refl
  find_row-update_rows name usr (q ∷ rows) apart new_apart =
      let rest = find_row-update_rows name usr rows apart new_apart in
      let changed = update_rows name usr rows in
      elim (Bool-cases (str_eq q.username name)) [
        | inl same ↦
            let old_apart = same_apart q.username name other same apart in
            rw same (
              find_row-skip (set_columns usr q) changed
                (set_columns_apart usr q new_apart old_apart)
              ∙ rest
              ∙ sym (find_row-skip q rows old_apart))
        | inr other_name ↦ rw other_name (find_row-cons q changed rows rest)
      ]

  pub groups_of-renamed_groups :
      (name new : String) (rows : List GroupRow)
      → str_eq name other ≡ false
      → str_eq new other ≡ false
      → groups_of other (renamed_groups name new rows) ≡ groups_of other rows
  unfolding renamed_groups
  groups_of-renamed_groups name new [] apart new_apart = refl
  groups_of-renamed_groups name new (g ∷ rows) apart new_apart =
      let rest = groups_of-renamed_groups name new rows apart new_apart in
      let changed = renamed_groups name new rows in
      elim (Bool-cases (str_eq g.username name)) [
        | inl same ↦ rw same (
            groups_of-skip (record g { username = new }) changed new_apart
            ∙ rest
            ∙ sym (groups_of-skip g rows (same_apart g.username name other same apart)))
        | inr other_name ↦ rw other_name (groups_of-cons g changed rows rest)
      ]
