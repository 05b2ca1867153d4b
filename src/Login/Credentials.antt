-- ===== src/Login/Credentials.antt =====
-- server/bearer_auth.go, 2fa_auth.go and api_listener.go: what makes a request an authorized one. The
-- debug and error logs are left out.
use Prim.Native.String.{len, slice}
use text.Mathlib.Text.{starts_with}
use rport.Prelude.{
  ◌+◌, String, Bool, true, false, not, ◌&&◌, ◌||◌, Option, none, some, str_eq, ltb, if◌then◌else◌,
}
use rport.Result.{Result, ok, and_then, refuse_if, map_err}
use rport.Exec.{pure, reads, ◌>>=◌, ◌>>◌}
use rport.Dict.{lookup, insert, remove}
use rport.Users.Model.{User}
use rport.Users.File.{htpasswd_bcrypt_prefix}
use rport.Security.BanList.{is_banned, after}
use rport.Login.Model.{ApiSession, Listener, Response, fails, Packages, Config, Env, Request, Call}
use rport.Login.Lifetime.{default_token_lifetime}

-- `APISessionRepository`
abbrev pub save_session : ApiSession → Call (Unit {0})
save_session s l = (ok tt, record l { sessions = insert s.token s l.sessions })

abbrev pub delete_session : ApiSession → Call (Unit {0})
delete_session s l = (ok tt, record l { sessions = remove s.token l.sessions })

abbrev pub find_one : String → Listener → Option ApiSession
find_one id l = lookup id l.sessions

abbrev pub refuse_banned : Env → String → Listener → Result Response (Unit {0})
refuse_banned env username l = refuse_if (is_banned l.banned_users username env.now) (fails 429)

abbrev pub found_user : Env → String → Result Response (Option User)
found_user env username = map_err fails (env.get_by_username username)

-- An authorization that did not succeed has a user's name, where the credentials had one.
pub record Authorization : Type 0 where
  pub authorized : Bool
  pub username : String

abbrev pub refused_as : String → Authorization
refused_as username = record { authorized = false; username = username }

abbrev pub granted_to : String → Authorization
granted_to username = record { authorized = true; username = username }

-- The result of `validateBearerToken`.
pub record BearerCheck : Type 0 where
  pub valid : Bool
  pub username : String
  pub session : Option ApiSession

abbrev pub no_bearer : BearerCheck
no_bearer = record { valid = false; username = ""; session = none }

abbrev pub check_session : Env → String → Option ApiSession → BearerCheck
check_session env username none = no_bearer
check_session env username (some s) = record {
  valid = after s.expires_at env.now;
  username = username;
  session = some s;
}

-- `getBearerToken`, with an empty text where none is provided: the prefix is compared in any case.
abbrev pub bearer_prefix : String
bearer_prefix = "Bearer "

module _ (lib : Packages) where
  -- `verifyPassword`
  abbrev pub verify_password : String → String → Bool
  verify_password saved provided =
      if starts_with saved htpasswd_bcrypt_prefix
      then lib.bcrypt_matches saved provided
      else str_eq saved provided

  unfoldable pub get_bearer_token : String → Option String
  get_bearer_token auth =
      if ltb (len auth) (len bearer_prefix)
        || not (lib.equal_fold (slice auth 0 (len bearer_prefix)) bearer_prefix)
      then none
      else some (slice auth (len bearer_prefix) (len auth))

  abbrev pub check_claims :
      Env → String → Option (String × Bool) → Listener → Result Response BearerCheck
  check_claims env token none l = ok no_bearer
  check_claims env token (some (username, valid)) l = and_then (refuse_banned env username l) λ _.
      ok (
        if not valid || str_eq username ""
        then no_bearer
        else check_session env username (find_one token l))

  unfoldable pub validate_bearer_token : Env → String → Listener → Result Response BearerCheck
  validate_bearer_token env token l = check_claims env token (lib.jwt_parse token) l

  -- The session is shared: what changes its expiry changes it in the repository too, and `Save` puts
  -- it there once more.
  unfoldable pub increase_session_lifetime : Env → ApiSession → Call (Unit {0})
  increase_session_lifetime env s = save_session (record s {
    expires_at =
        if after env.now s.expires_at
        then env.now + default_token_lifetime
        else s.expires_at + default_token_lifetime;
  })

  abbrev pub prolong_session : Env → Option ApiSession → Call (Unit {0})
  prolong_session env none = pure tt
  prolong_session env (some s) = increase_session_lifetime env s

  abbrev pub prolong : Env → BearerCheck → Call (Unit {0})
  prolong env c = if c.valid then prolong_session env c.session else pure tt

  unfoldable pub handle_bearer_token : Env → String → Call Authorization
  unfolding validate_bearer_token increase_session_lifetime
  handle_bearer_token env token = do
    c ← reads (validate_bearer_token env token)
    prolong env c
    pure (record { authorized = c.valid; username = c.username })

  abbrev pub token_matches : Option String → String → Bool
  token_matches none password = false
  token_matches (some t) password = not (str_eq t "") && verify_password t password

  abbrev pub check_user : Config → String → String → Option User → Authorization
  check_user cfg username password none = refused_as username
  check_user cfg username password (some user) =
      if not cfg.two_fa_on && verify_password user.password password
      then granted_to username
      else if token_matches user.token password
      then granted_to username
      else refused_as username

  abbrev pub basic_of : Config → Env → String → String → Result Response Authorization
  basic_of cfg env username password =
      if str_eq username ""
      then ok (refused_as "")
      else and_then (found_user env username) λ user. ok (check_user cfg username password user)

  unfoldable pub handle_basic_auth :
      Config → Env → String → String → Listener → Result Response Authorization
  handle_basic_auth cfg env username password l =
      and_then (refuse_banned env username l) λ _. basic_of cfg env username password

  abbrev pub without_credentials : Env → Call Authorization
  without_credentials env = reads (refuse_banned env "") >> pure (refused_as "")

  abbrev pub bearer_or_none : Env → Option String → Call Authorization
  bearer_or_none env none = without_credentials env
  bearer_or_none env (some token) = handle_bearer_token env token

  abbrev pub by_header : Config → Env → Request → Option (String × String) → Call Authorization
  by_header cfg env req (some (username, password)) =
      reads (handle_basic_auth cfg env username password)
  by_header cfg env req none = bearer_or_none env (get_bearer_token req.authorization)

  unfoldable pub lookup_user : Config → Env → Request → Call Authorization
  unfolding get_bearer_token handle_bearer_token handle_basic_auth
  lookup_user cfg env req = by_header cfg env req req.basic
