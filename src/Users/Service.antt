-- ===== src/Users/Service.antt =====
-- server/api/users/service.go, over any provider. bcrypt and the delivery service are parameters.
use Prim.Native.String.{◌++◌ as concat, len, slice}
use text.Mathlib.Text.{find?}
use rport.Prelude.{
  ℕ, ◌+◌, String, Bool, false, not, ◌&&◌, ◌||◌, Option, none, some, List, [], ◌∷◌, ◌++◌, str_eq,
  if◌then◌else◌, is_none,
}
use rport.Result.{Result, ok, err, and_then, refuse_if}
use rport.Exec.{Exec, pure, lift, reads, ◌>>=◌, ◌>>◌}
use rport.Users.Model.{
  User, has, Error, FieldError, username_required, password_required, two_fa_required,
  nothing_to_change, invalid_receiver, already_exists, hash_failed, user_not_found,
  groups_not_found, invalid,
}
use rport.Users.File.{htpasswd_bcrypt_prefix}

pub record Provider : Type 1 where
  pub Store : Type 0
  pub get_all_groups : Store → Result Error (List String)
  pub get_by_username : String → Store → Result Error (Option User)
  pub add : User → Exec Error Store (Unit {0})
  pub update : User → String → Exec Error Store (Unit {0})
  pub delete : String → Exec Error Store (Unit {0})

-- `two_fa_on`, the receivers that the delivery service accepts, if there is one, and what bcrypt
-- makes of a text.
pub record Settings : Type 0 where
  pub two_fa_on : Bool
  pub delivery : Option (String → Bool)
  pub bcrypt : String → Option String

abbrev pub htpasswd_bcrypt_alt_prefix : String
htpasswd_bcrypt_alt_prefix = "$2a$"

abbrev pub put_at : String → String → String → Option ℕ → String
put_at s old new none = s
put_at s old new (some i) = concat (slice s 0 i) (concat new (slice s (i + len old) (len s)))

-- `strings.Replace(s, old, new, 1)`
abbrev pub replace_one : String → String → String → String
replace_one s old new = put_at s old new (find? s old)

abbrev pub hashed_of : Option String → Result Error String
hashed_of none = err hash_failed
hashed_of (some h) = ok (replace_one h htpasswd_bcrypt_alt_prefix htpasswd_bcrypt_prefix)

abbrev pub missing_groups : List String → List String → List String
missing_groups existing [] = []
missing_groups existing (g ∷ gs) =
    if has g existing then missing_groups existing gs else g ∷ missing_groups existing gs

abbrev pub all_exist : List String → Result Error (Unit {0})
all_exist [] = ok tt
all_exist (g ∷ gs) = err (groups_not_found (g ∷ gs))

abbrev pub only_if : Bool → FieldError → List FieldError
only_if b e = if b then e ∷ [] else []

abbrev pub no_errors : List FieldError → Result Error (Unit {0})
no_errors [] = ok tt
no_errors (e ∷ es) = err (invalid (e ∷ es))

abbrev pub rejects : Option (String → Bool) → String → Bool
rejects none receiver = false
rejects (some accepts) receiver = not (accepts receiver)

module _ (set : Settings) where
  unfoldable pub with_password : User → Result Error User
  with_password usr =
      if str_eq usr.password ""
      then ok usr
      else and_then (hashed_of (set.bcrypt usr.password)) λ h. ok (record usr { password = h })

  abbrev pub hash_token : User → Option String → Result Error User
  hash_token usr none = ok usr
  hash_token usr (some t) =
      if str_eq t ""
      then ok usr
      else and_then (hashed_of (set.bcrypt t)) λ h. ok (record usr { token = some h })

  abbrev pub errors_of_new : User → List FieldError
  errors_of_new d =
      only_if (str_eq d.username "") username_required
      ++ only_if (str_eq d.password "") password_required
      ++ only_if (set.two_fa_on && str_eq d.two_fa_send_to "") two_fa_required

  abbrev pub errors_of_change : User → String → List FieldError
  errors_of_change d name =
      only_if
        ((str_eq d.username "" || str_eq d.username name)
          && str_eq d.password ""
          && is_none d.groups
          && (not set.two_fa_on || str_eq d.two_fa_send_to "")
          && is_none d.token)
        nothing_to_change

  unfoldable pub validate : User → String → Result Error (Unit {0})
  validate d name = no_errors (
      (if str_eq name "" then errors_of_new d else errors_of_change d name)
      ++ only_if (not (str_eq d.two_fa_send_to "") && rejects set.delivery d.two_fa_send_to)
          invalid_receiver)

module _ (p : Provider) where
  abbrev pub Call : Type 0 → Type 0
  Call = Exec Error p.Store

  unfoldable pub exist_groups : List String → p.Store → Result Error (Unit {0})
  exist_groups groups st =
      and_then (p.get_all_groups st) λ existing. all_exist (missing_groups existing groups)

  abbrev pub refuse_found : Option User → Call (Unit {0})
  refuse_found found = lift (refuse_if (not (is_none found)) already_exists)

  unfoldable pub add_user : User → Call (Unit {0})
  add_user d = reads (p.get_by_username d.username) >>= λ found. refuse_found found >> p.add d

  abbrev pub refuse_taken : User → String → Call (Unit {0})
  refuse_taken d name =
      if not (str_eq d.username "") && not (str_eq d.username name)
      then reads (p.get_by_username d.username) >>= refuse_found
      else pure tt

  unfoldable pub update_user : User → String → Call (Unit {0})
  update_user d name = reads (p.get_by_username name) >>= λ existing.
      lift (refuse_if (is_none existing) (user_not_found name))
      >> (refuse_taken d name >> p.update d name)

  abbrev pub apply : User → String → Call (Unit {0})
  apply d name = if not (str_eq name "") then update_user d name else add_user d

  unfoldable pub change : Settings → User → String → Call (Unit {0})
  change set usr name = lift (with_password set usr) >>= λ d.
      lift (hash_token set d d.token) >>= λ d'. lift (validate set d' name) >> apply d' name

  unfoldable pub delete_user : String → Call (Unit {0})
  delete_user name = reads (p.get_by_username name) >>= λ user.
      lift (refuse_if (is_none user) (user_not_found name)) >> p.delete name
