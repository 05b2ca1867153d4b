-- ===== src/Users/Parsing.antt =====
-- server/api/users/file.go: what `parseUsers` lets through, at the end of the file.
use rport.Prelude.{
  String, Bool, true, false, ◌||◌, some, List, [], ◌∷◌, ◌++◌, ◌≡◌, str_eq, if◌then◌else◌, arith,
  inl, inr,
}
use rport.Result.{ok, is_ok, Result-cases}
use rport.Text.{trim_space}
use rport.Dict.{Dict, lookup, insert, lookup-insert}
use rport.Users.Model.{User, has}
use rport.Users.File.{parse_user, parse_from, load_from}

-- A user as the file gives it back.
abbrev pub normal : User → User
normal u = record u { username = trim_space u.username; password = trim_space u.password }

pub parse_user-normal :
    (seen : List String) (u v : User)
    → parse_user seen u ≡ ok v
    → (v ≡ normal u) × (has (trim_space u.username) seen ≡ false)
unfolding parse_user
parse_user-normal seen u v h = (ground arith, ground arith)

-- `parse_user` fails on a name that has been met.
parse_user_met :
    (seen : List String) (u : User)
    → has (trim_space u.username) seen ≡ true
    → is_ok (parse_user seen u) ≡ false
unfolding parse_user
parse_user_met seen u h = ground arith

-- A parsed file ends with the last user, normalised.
pub parse-last :
    (seen : List String) (xs : List User) (u : User) (ys : List User)
    → parse_from seen (xs ++ u ∷ []) ≡ ok ys
    → (zs : List User) × (ys ≡ zs ++ normal u ∷ [])
unfolding parse_from
parse-last seen [] u ys h = elim (Result-cases (parse_user seen u)) [
  | inr (e, failed) ↦ absurd (ground arith)
  | inl (v, good) ↦ ([], ground (arith, parse_user-normal seen u v good))
]
parse-last seen (x ∷ xs) u ys h = elim (Result-cases (parse_user seen x)) [
  | inr (e, failed) ↦ absurd (ground arith)
  | inl (v, good) ↦ elim (Result-cases (parse_from (v.username ∷ seen) (xs ++ u ∷ []))) [
    | inr (e, failed) ↦ absurd (ground arith)
    | inl (ws, more) ↦
        let (zs, tail) = parse-last (v.username ∷ seen) xs u ws more in
        (v ∷ zs, ground (arith, tail))
  ]
]

-- Loading a list into the cache: the last user is found, and the others as before.
pub lookup-load-last :
    (m : Dict User) (xs : List User) (u : User) (name : String)
    → lookup name (load_from m (xs ++ u ∷ []))
      ≡ (if str_eq u.username name then some u else lookup name (load_from m xs))
unfolding load_from
lookup-load-last m [] u name = lookup-insert u.username name u m
lookup-load-last m (x ∷ xs) u name = lookup-load-last (insert x.username x m) xs u name

-- Some user of the list has the name, once both are trimmed.
abbrev pub has_trimmed : String → List User → Bool
has_trimmed name [] = false
has_trimmed name (u ∷ users) =
    str_eq (trim_space u.username) (trim_space name) || has_trimmed name users

-- A list in which the last name stood before, once trimmed, is never parsed.
pub parse_repeated :
    (seen : List String) (xs : List User) (u : User)
    → (has (trim_space u.username) seen || has_trimmed u.username xs) ≡ true
    → is_ok (parse_from seen (xs ++ u ∷ [])) ≡ false
unfolding parse_from
parse_repeated seen [] u h = ground (arith, parse_user_met seen u)
parse_repeated seen (x ∷ xs) u h = elim (Result-cases (parse_user seen x)) [
  | inr (e, failed) ↦ ground arith
  | inl (v, good) ↦
      let (same, _) = parse_user-normal seen x v good in
      let met : (has (trim_space u.username) (v.username ∷ seen) || has_trimmed u.username xs)
          ≡ true =
        rw same (ground arith) in
      ground (arith, parse_repeated (v.username ∷ seen) xs u met)
]
