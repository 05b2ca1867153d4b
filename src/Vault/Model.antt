-- ===== src/Vault/Model.antt =====
-- server/vault/model.go, validate.go and the errors of the package. Passwords, secret values and
-- what is encrypted are byte strings, other texts are `String`. The identifiers of
-- rows are natural numbers, since the sqlite key counts up from 1; `Store` takes any integer, and to
-- `GetOne` and `Delete` a negative one is like one that no row has.
use rport.Prelude.{
  ℕ, String, Bool, Option, List, [], ◌∷◌, ◌++◌, str_eq, if◌then◌else◌, is_empty, ◌||◌,
}
use rport.Result.{Result, ok, err}
use rport.Enc
use rport.Enc.{Bytes}

abbrev pub db_status_init : String
db_status_init = "setup-completed"

abbrev pub db_status_not_init : String
db_status_not_init = "uninitialized"

abbrev pub status_locked : String
status_locked = "locked"

abbrev pub status_unlocked : String
status_unlocked = "unlocked"

pub record DbStatus : Type 0 where
  pub status_name : String
  pub enc_check_value : Bytes
  pub dec_check_value : Bytes

pub record StatusReport : Type 0 where
  pub init_status : String
  pub lock_status : String

pub record InputValue : Type 0 where
  pub client_id : String
  pub required_group : String
  pub key : String
  pub value : Bytes
  pub value_type : String

pub record StoredValue : Type 0 where
  pub input : InputValue
  pub open input use *
  pub id : ℕ
  pub created_at : ℕ
  pub updated_at : ℕ
  pub created_by : String
  pub updated_by : Option String

pub record ValueKey : Type 0 where
  pub id : ℕ
  pub client_id : String
  pub created_by : String
  pub created_at : ℕ
  pub key : String

-- `UserDataProvider`
pub record User : Type 0 where
  pub username : String
  pub groups : List String

-- The messages of `Validate`.
pub data FieldError : Type 0 where
  key_required value_required type_required : FieldError
  unknown_type : String → FieldError

-- The statements that the program sends to sqlite.
pub data DbOp : Type 0 where
  open_db get_status set_status get_by_id list find_by_key save delete : DbOp

-- Each constructor is one `errors.New`, `fmt.Errorf` or `APIError` of the package, with what its
-- message shows.
pub data Error : Type 0 where
  too_short too_long : ℕ → Error
  already_initialized already_unlocked already_locked not_yet_initialized : Error
  wrong_password locked not_initialized database_not_initialised : Error
  group_forbidden existing_not_found entry_not_found : Error
  another_key : String → String → Error
  invalid : List FieldError → Error
  check_value_empty : Error
  no_affected_row : ℕ → Error
  crypto : Enc.Error → Error
  db_failed : DbOp → Error

-- The `HTTPStatus` of the error; 0 for an error that is no `APIError`.
pub http_status : Error → ℕ
http_status (too_short n) = 400
http_status (too_long n) = 400
http_status already_initialized = 409
http_status already_unlocked = 409
http_status already_locked = 409
http_status not_yet_initialized = 409
http_status wrong_password = 401
http_status locked = 409
http_status not_initialized = 409
http_status database_not_initialised = 409
http_status group_forbidden = 403
http_status existing_not_found = 404
http_status entry_not_found = 404
http_status (another_key key client_id) = 409
http_status (invalid errs) = 400
http_status _ = 0

-- What a call finds outside the program: which statements sqlite fails, the clock, which is stored in
-- whole seconds and is a number of them here, the bytes of
-- the random source, and the digits of the time in nanoseconds.
pub record Env : Type 0 where
  pub fault : DbOp → Bool
  pub now : ℕ
  pub random : Option Bytes
  pub unix_nano : Bytes

abbrev pub known_type : String → Bool
known_type t = str_eq t "text" || str_eq t "secret" || str_eq t "markdown" || str_eq t "string"

key_errors : InputValue → List FieldError
key_errors iv = if str_eq iv.key "" then key_required ∷ [] else []

value_errors : InputValue → List FieldError
value_errors iv = if is_empty iv.value then value_required ∷ [] else []

type_errors : InputValue → List FieldError
type_errors iv =
    if str_eq iv.value_type ""
    then type_required ∷ []
    else if known_type iv.value_type
    then []
    else unknown_type iv.value_type ∷ []

report : List FieldError → Result Error (Unit {0})
report [] = ok tt
report (e ∷ errs) = err (invalid (e ∷ errs))

-- `Validate` collects all errors.
unfoldable pub validate : InputValue → Result Error (Unit {0})
unfolding key_errors value_errors type_errors report
validate iv = report (key_errors iv ++ value_errors iv ++ type_errors iv)
