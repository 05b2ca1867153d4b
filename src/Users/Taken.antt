-- ===== src/Users/Taken.antt =====
-- server/api/users/service.go: a name that another user has.
use rport.Prelude.{
  String, Bool, true, false, not, Option, none, some, ◌≡◌, refl, arith, str_eq, either, sym, ap,
  ◌∙◌, is_none,
}
use rport.Result.{Result, ok, err, is_ok, refuse_if}
use rport.Exec.{Exec, continue, ◌>>◌}
use rport.Users.Model.{User, Error, user_not_found}
use rport.Users.Service.{
  Provider, Settings, Call, with_password, hash_token, validate, add_user, update_user, apply,
  change, refuse_found, refuse_taken,
}

module _ {E S : Type 0} (st : S) where
  abbrev Refuses : {A : Type 0} → Exec E S A → Type 0
  Refuses m = (is_ok (m st).0 ≡ false) × ((m st).1 ≡ st)

  bind-Refuses :
      {A B : Type 0} (r : Result E A) (f : A → Exec E S B)
      → ((a : A) → r ≡ ok a → Refuses (f a))
      → Refuses (λ s. continue r f s)
  bind-Refuses (ok a) f refused = refused a refl
  bind-Refuses (err e) f refused = (refl, refl)

abbrev is_found : Result Error (Option User) → Bool
is_found (ok none) = false
is_found (ok (some u)) = true
is_found (err e) = false

hashed_name :
    (set : Settings) (usr d : User) → with_password set usr ≡ ok d → d.username ≡ usr.username
unfolding with_password
hashed_name set usr d hashed = ground arith

token_name :
    (set : Settings) (usr d : User) (t : Option String)
    → hash_token set usr t ≡ ok d
    → d.username ≡ usr.username
token_name set usr d t hashed = ground arith

module _ (p : Provider) (st : p.Store) where
  refuse_found-Refuses :
      (other : User) (o : Option User) (next : Call p (Unit {0}))
      → ◌≡◌ {A = Result Error (Option User)} (ok (some other)) (ok o)
      → Refuses st (refuse_found p o >> next)
  refuse_found-Refuses other none next found = absurd (ground (arith, ap (is_found) found))
  refuse_found-Refuses other (some u) next found = (refl, refl)

  module _ (d other : User) (name : String)
      (found : p.get_by_username d.username st ≡ ok (some other))
      (named : str_eq d.username "" ≡ false) (renamed : str_eq d.username name ≡ false) where
    add_user-Refuses : Refuses st (add_user p d)
    unfolding add_user
    add_user-Refuses =
        bind-Refuses st (p.get_by_username d.username st) _
          λ o same. refuse_found-Refuses other o (p.add d) (sym found ∙ same)

    taken-Refuses : Refuses st (refuse_taken p d name >> p.update d name)
    taken-Refuses = rw (named, renamed, found) (refl, refl)

    update_user-Refuses : Refuses st (update_user p d name)
    unfolding update_user
    update_user-Refuses = bind-Refuses st (p.get_by_username name st) _ λ existing same.
        bind-Refuses st (refuse_if (is_none existing) (user_not_found name)) _
          λ u passed. taken-Refuses

    apply-Refuses : Refuses st (apply p d name)
    apply-Refuses =
        either {A = Call p (Unit {0})} (Refuses st) (not (str_eq name "")) _ _ update_user-Refuses
          add_user-Refuses

  -- Where the provider finds a user under the name that a request asks for, and that name is
  -- neither empty nor the name of the user to change, `Change` fails and changes nothing, whether
  -- it is to add a user or to change the one named `name`.
  pub change_taken :
      (set : Settings) (usr other : User) (name : String)
      → p.get_by_username usr.username st ≡ ok (some other)
      → str_eq usr.username "" ≡ false
      → str_eq usr.username name ≡ false
      → (is_ok (change p set usr name st).0 ≡ false) × ((change p set usr name st).1 ≡ st)
  unfolding change
  change_taken set usr other name found named renamed =
      bind-Refuses st (with_password set usr) _ λ d hashed.
        bind-Refuses st (hash_token set d d.token) _ λ d' hashed'.
          bind-Refuses st (validate set d' name) _ λ u valid.
            let same = token_name set d d' d.token hashed' ∙ hashed_name set usr d hashed in
            apply-Refuses d' other name (ap (λ n. p.get_by_username n st) same ∙ found)
              (ap (λ n. str_eq n "") same ∙ named) (ap (λ n. str_eq n name) same ∙ renamed)
