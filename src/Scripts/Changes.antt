-- ===== src/Scripts/Changes.antt =====
-- server/script/manager.go: what an update changes.
use rport.Prelude.{
  String, false, not, ◌&&◌, ◌||◌, Option, none, some, List, [], ◌∷◌, ◌≡◌, refl, arith, str_eq,
  eq_iff, if◌then◌else◌, is_none, ap, sym, ◌∙◌, Bool-cases, Option-cases, inl, inr,
}
use rport.Result.{ok, refuse_if, value_or}
use rport.Exec.{bind_ok, lift, reads, pure}
use rport.Scripts.{
  Script, InputScript, Env, same_name, not_found, validate, find_id, update_row, name_taken,
  get_one, list_named, save, to_save, other_first, save_over, change, update,
}

-- The row with what an update may set.
abbrev pub with_input : InputScript → Script → Script
with_input iv s = record s {
  name = iv.name;
  interpreter = iv.interpreter;
  is_sudo = iv.is_sudo;
  cwd = iv.cwd;
  script = iv.script;
}

abbrev pub map_some : (Script → Script) → Option Script → Option Script
map_some f none = none
map_some f (some s) = some (f s)

find_id-update_row :
    (env : Env) (id : String) (iv : InputScript) (username other : String) (rows : List Script)
    → find_id other (update_row (to_save env id iv username) rows) ≡ (
        if str_eq id other
        then map_some (with_input iv) (find_id other rows)
        else find_id other rows)
unfolding find_id update_row
find_id-update_row env id iv username other [] = ground arith
find_id-update_row env id iv username other (r ∷ rows) = ground (
  arith,
  find_id-update_row env id iv username other rows,
  eq_iff r.id id,
  eq_iff r.id other,
  eq_iff id other,
)

module _ (env : Env) (id : String) (iv : InputScript) (username : String) (rows : List Script) where
  saved_lem :
      (s : Script) (sid : String)
      → str_eq s.id "" ≡ false
      → (save env s rows).0 ≡ ok sid
      → (sid ≡ s.id) × ((save env s rows).1 ≡ update_row s rows)
  unfolding save
  saved_lem s sid named saved =
      elim (Bool-cases
        (env.fault update || (not (is_none (find_id s.id rows)) && name_taken s.id s.name rows))) [
          | inl failed ↦ absurd (ground arith)
          | inr fine ↦ (ground arith, ground arith)
        ]

  save_over_lem :
      (answer : Script) (rows' : List Script)
      → str_eq id "" ≡ false
      → save_over env id iv username rows ≡ (ok answer, rows')
      → (answer ≡ to_save env id iv username)
        × (rows' ≡ update_row (to_save env id iv username) rows)
  save_over_lem answer rows' named done =
      let s = to_save env id iv username in
      let (sid, saved, last) =
        bind_ok (save env s) (λ sid. pure (to_save env sid iv username)) rows rows' answer done in
      let (same, after) = saved_lem s sid named saved in
      (
        sym (ap (λ x. value_or answer x.0) last) ∙ ap (λ x. to_save env x iv username) same,
        sym (ap (λ x. x.1) last) ∙ after,
      )

  updated_lem :
      (row : Script) (other : String)
      → find_id id rows ≡ some row
      → (if str_eq id other
          then map_some (with_input iv) (find_id other rows)
          else find_id other rows)
        ≡ (if str_eq id other then some (with_input iv row) else find_id other rows)
  updated_lem row other there = elim (Bool-cases (str_eq id other)) [
    | inr differs ↦ rw differs refl
    | inl equal ↦
        let same : id ≡ other = ground (arith, equal, eq_iff id other) in
        rw equal (
          ap (λ x. map_some (with_input iv) (find_id x rows)) (sym same)
          ∙ ap (map_some (with_input iv)) there)
  ]

  found_lem : (o : Option Script) → get_one env id rows ≡ ok o → find_id id rows ≡ o
  found_lem o got = ground arith

  -- A change that succeeds sets exactly the name, the interpreter, the directory, the text and the
  -- right to run as root of the row with the id, which was there, and leaves every other row and the
  -- row's creator and time as they were, while the answer names the caller as the creator.
  pub change_lem :
      (answer : Script) (rows' : List Script)
      → str_eq id "" ≡ false
      → change env id iv username rows ≡ (ok answer, rows')
      → (row : Script) × (find_id id rows ≡ some row)
        × (answer ≡ to_save env id iv username)
        × ((other : String)
            → find_id other rows'
              ≡ (if str_eq id other then some (with_input iv row) else find_id other rows))
  unfolding change
  change_lem answer rows' named done =
      let (u1, valid, d1) = bind_ok (lift (validate iv)) _ rows rows' answer done in
      let (found, got, d2) = bind_ok (reads (get_one env id)) _ rows rows' answer d1 in
      let (u3, known, d3) =
        bind_ok (lift (refuse_if (is_none found) not_found)) _ rows rows' answer d2 in
      let (same, listed, d4) = bind_ok (reads (list_named env iv.name)) _ rows rows' answer d3 in
      let (u5, free, d5) =
        bind_ok (lift (refuse_if (other_first env id same) same_name))
          (λ _. save_over env id iv username) rows rows' answer d4 in
      let (is_answer, after) = save_over_lem answer rows' named d5 in
      elim (Option-cases found) [
        | inl missing ↦ absurd (ground arith)
        | inr (row, is_row) ↦
            let there : find_id id rows ≡ some row = found_lem found got ∙ is_row in
            (
              row,
              there,
              is_answer,
              λ other.
                  ap (find_id other) after
                  ∙ find_id-update_row env id iv username other rows
                  ∙ updated_lem row other there,
            )
      ]
