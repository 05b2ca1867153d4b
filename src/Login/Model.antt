-- ===== src/Login/Model.antt =====
-- The sessions, the two factor codes and the bans of the API, and what a request and its
-- surroundings are. One request sees one time: the clock does not advance within it.
use rport.Prelude.{ℕ, String, Bool, Option}
use rport.Result.{Result}
use rport.Exec.{Exec}
use rport.Dict.{Dict}
use rport.Users.Model.{User}
use rport.Security.BanList.{BanList, MaxBadAttemptsBanList}

pub record ApiSession : Type 0 where
  pub token : String
  pub expires_at : ℕ

pub record ExpirableToken : Type 0 where
  pub token : String
  pub expiry : ℕ

-- What requests change of `APIListener`, its session repository and its `TwoFAService`.
pub record Listener : Type 0 where
  pub sessions : Dict ApiSession
  pub banned_users : BanList
  pub banned_ips : Option MaxBadAttemptsBanList
  pub tokens_by_user : Dict ExpirableToken

-- `fails` is an error with its HTTP status; `next` hands the request on, with its user.
pub data Response : Type 0 where
  fails : ℕ → Response
  token_created : String → Response
  code_sent_to : String → Response
  no_content : Response
  next : String → Response

-- The packages jwt, with the configured secret, bcrypt, strings and strconv. `parse_int` returns the
-- bits of an int64.
pub record Packages : Type 0 where
  pub jwt_sign : String → ℕ → Option String
  pub jwt_parse : String → Option (String × Bool)
  pub bcrypt_matches : String → String → Bool
  pub equal_fold : String → String → Bool
  pub parse_int : String → Option ℕ

pub record Config : Type 0 where
  pub two_fa_on : Bool
  pub token_ttl : ℕ

-- The time, the random numbers, what the user service finds, and whether a message goes out. An
-- error of the user service has the HTTP status that it is answered with.
pub record Env : Type 0 where
  pub now : ℕ
  pub jwt_id : ℕ
  pub get_by_username : String → Result ℕ (Option User)
  pub new_token : Option String
  pub message_sent : Bool

pub record Request : Type 0 where
  -- the host that `net.SplitHostPort` finds in the peer's address
  pub ip : Option String
  -- what `req.BasicAuth()` finds
  pub basic : Option (String × String)
  pub authorization : String
  pub token_lifetime : String

-- A handler that stops early has answered.
abbrev pub Call : Type 0 → Type 0
Call = Exec Response Listener
