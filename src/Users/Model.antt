-- ===== src/Users/Model.antt =====
-- server/api/users/user.go and share/collections/collections.go.
use rport.Prelude.{ℕ, String, Bool, false, ◌||◌, Option, none, some, List, [], ◌∷◌, str_eq}

-- `Groups` and `Token` may be nil.
pub record User : Type 0 where
  pub username : String
  pub password : String
  pub groups : Option (List String)
  pub two_fa_send_to : String
  pub token : Option String

abbrev pub administrators : String
administrators = "Administrators"

-- `range` over a nil slice visits nothing.
abbrev pub entries : Option (List String) → List String
entries none = []
entries (some gs) = gs

-- A map built by `ConvertToStringBoolMap`, asked by `Has`; also a loop that looks for a name.
abbrev pub has : String → List String → Bool
has name [] = false
has name (g ∷ gs) = str_eq g name || has name gs

unfoldable pub is_admin : User → Bool
is_admin u = has administrators (entries u.groups)

pub data FieldError : Type 0 where
  username_required password_required two_fa_required nothing_to_change : FieldError
  invalid_receiver : FieldError

-- Each constructor is one error of the package, with what its message shows.
pub data Error : Type 0 where
  -- of the users file
  read_failed write_failed username_empty password_empty : Error
  not_hashed non_unique : String → Error
  -- of the providers and the service
  already_exists not_supported not_implemented hash_failed database_failed : Error
  user_not_found : String → Error
  groups_not_found : List String → Error
  invalid : List FieldError → Error

-- The `HTTPStatus` of the error; 0 for an error that is no `APIError`.
pub http_status : Error → ℕ
http_status already_exists = 400
http_status (user_not_found name) = 404
http_status (groups_not_found names) = 404
http_status (invalid errs) = 400
http_status _ = 0
