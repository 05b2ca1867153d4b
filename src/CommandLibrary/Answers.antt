-- ===== src/CommandLibrary/Answers.antt =====
-- server/api/command/manager.go: what an update answers is what it stored.
use rport.Prelude.{
  ℕ, String, false, not, ◌&&◌, ◌||◌, Option, none, some, List, [], ◌∷◌, ◌≡◌, refl, arith, str_eq,
  eq_iff, if◌then◌else◌, is_none, ap, sym, ◌∙◌, Bool-cases, Option-cases, inl, inr,
}
use rport.Result.{ok, refuse_if, value_or}
use rport.Exec.{bind_ok, lift, reads, pure}
use rport.Scripts.{update, whole_seconds}
use rport.CommandLibrary.{
  Command, InputCommand, Env, same_name, not_found, validate, find_id, update_row, set_columns,
  name_taken, get_one, list_named, save, changed_command, other_first, save_over, change,
}

abbrev pub map_some : (Command → Command) → Option Command → Option Command
map_some f none = none
map_some f (some c) = some (f c)

find_id-update_row :
    (c : Command) (other : String) (rows : List Command)
    → find_id other (update_row c rows) ≡ (
        if str_eq c.id other
        then map_some (set_columns c) (find_id other rows)
        else find_id other rows)
unfolding find_id update_row
find_id-update_row c other [] = ground arith
find_id-update_row c other (r ∷ rows) =
    ground (
      arith,
      find_id-update_row c other rows,
      eq_iff r.id c.id,
      eq_iff r.id other,
      eq_iff c.id other,
    )

id_of : Option Command → String → String
id_of none id = id
id_of (some c) id = c.id

found_id : (id : String) (rows : List Command) → id_of (find_id id rows) id ≡ id
unfolding find_id id_of
found_id id [] = refl
found_id id (r ∷ rows) = elim (Bool-cases (str_eq r.id id)) [
  | inl same ↦ rw same ((eq_iff r.id id).0 same)
  | inr other ↦ rw other (found_id id rows)
]

module _ (env : Env) (id : String) (iv : InputCommand) (username : String)
    (rows : List Command) where
  abbrev pub changed : Command → Command
  changed = changed_command env id iv username

  -- What an update of `old` at the time `at` has to give.
  abbrev pub updated : Command → ℕ → Command
  updated old at = record {
    id = id;
    name = iv.name;
    created_by = old.created_by;
    created_at = old.created_at;
    updated_by = username;
    updated_at = at;
    cmd = iv.cmd;
  }

  abbrev pub stored_row : Command → Command
  stored_row old = updated old (whole_seconds env.now)

  saved_lem :
      (c : Command) (cid : String)
      → str_eq c.id "" ≡ false
      → (save env c rows).0 ≡ ok cid
      → (save env c rows).1 ≡ update_row c rows
  unfolding save
  saved_lem c cid named saved =
      elim (Bool-cases
        (env.fault update || (not (is_none (find_id c.id rows)) && name_taken c.id c.name rows))) [
          | inl failed ↦ absurd (ground arith)
          | inr fine ↦ ground arith
        ]

  save_over_lem :
      (old answer : Command) (rows' : List Command)
      → str_eq id "" ≡ false
      → save_over env id iv username (some old) rows ≡ (ok answer, rows')
      → (answer ≡ changed old) × (rows' ≡ update_row (changed old) rows)
  save_over_lem old answer rows' named done =
      let (cid, saved, last) =
        bind_ok (save env (changed old)) (λ cid. pure (changed old)) rows rows' answer done in
      (
        sym (ap (λ x. value_or answer x.0) last),
        sym (ap (λ x. x.1) last) ∙ saved_lem (changed old) cid named saved,
      )

  same_row :
      (old : Command) → find_id id rows ≡ some old → set_columns (changed old) old ≡ stored_row old
  unfolding id_of
  same_row old there =
      ap (λ x. record (stored_row old) { id = x })
        (sym (ap (λ o. id_of o id) there) ∙ found_id id rows)

  updated_lem :
      (old : Command) (other : String)
      → find_id id rows ≡ some old
      → find_id other (update_row (changed old) rows)
        ≡ (if str_eq id other then some (stored_row old) else find_id other rows)
  updated_lem old other there =
      find_id-update_row (changed old) other rows ∙ elim (Bool-cases (str_eq id other)) [
        | inr differs ↦ rw differs refl
        | inl equal ↦
            let same : id ≡ other = (eq_iff id other).0 equal in
            rw equal (
              ap (λ x. map_some (set_columns (changed old)) (find_id x rows)) (sym same)
              ∙ ap (map_some (set_columns (changed old))) there
              ∙ ap (λ c. some c) (same_row old there))
      ]

  found_lem : (o : Option Command) → get_one env id rows ≡ ok o → find_id id rows ≡ o
  found_lem o got = ground arith

  -- An Update that succeeds changes the command that the library has under the id, and no other: it gets
  -- the name and the text of the request, the caller as the one who changed it, and the time of the
  -- change in whole seconds, and keeps its creator and the time of its creation. The answer is that
  -- command, but with the time of the change to the nanosecond.
  pub change_answers :
      (answer : Command) (rows' : List Command)
      → str_eq id "" ≡ false
      → change env id iv username rows ≡ (ok answer, rows')
      → (old : Command) × (find_id id rows ≡ some old)
        × (answer ≡ updated old env.now)
        × ((other : String)
            → find_id other rows'
              ≡ (if str_eq id other then some (stored_row old) else find_id other rows))
  unfolding change
  change_answers answer rows' named done =
      let (u1, valid, d1) = bind_ok (lift (validate iv)) _ rows rows' answer done in
      let (found, got, d2) = bind_ok (reads (get_one env id)) _ rows rows' answer d1 in
      let (u3, known, d3) =
        bind_ok (lift (refuse_if (is_none found) not_found)) _ rows rows' answer d2 in
      let (same, listed, d4) = bind_ok (reads (list_named env iv.name)) _ rows rows' answer d3 in
      let (u5, free, d5) =
        bind_ok (lift (refuse_if (other_first env id same) same_name))
          (λ _. save_over env id iv username found) rows rows' answer d4 in
      elim (Option-cases found) [
        | inl missing ↦ absurd (ground arith)
        | inr (old, is_old) ↦
            let there : find_id id rows ≡ some old = found_lem found got ∙ is_old in
            let (is_answer, after) =
              save_over_lem old answer rows' named
                (ap (λ o. save_over env id iv username o rows) (sym is_old) ∙ d5) in
            (old, there, is_answer, λ other. ap (find_id other) after ∙ updated_lem old other there)
      ]
