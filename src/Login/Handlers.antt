-- ===== src/Login/Handlers.antt =====
-- server/api.go: the middlewares and the handlers of login, logout and the second factor, and
-- share/security/middleware.go. Decoding a request's body is left out: its fields are arguments.
use rport.Prelude.{
  ℕ, ◌+◌, String, Bool, false, not, ◌||◌, Option, none, some, str_eq, if◌then◌else◌,
}
use rport.Result.{Result, ok, err, and_then, refuse_if, map_err}
use rport.Exec.{pure, lift, reads, ◌>>=◌, ◌>>◌}
use rport.Dict.{lookup, insert}
use rport.Users.Model.{User}
use rport.Security.BanList.{
  MaxBadAttemptsBanList, add, add_bad_attempt, add_success_attempt, is_visitor_banned, after,
}
use rport.Login.Model.{
  ApiSession, ExpirableToken, Listener, Response, fails, token_created, code_sent_to, no_content,
  next, Packages, Config, Env, Request, Call,
}
use rport.Login.Lifetime.{parse_token_lifetime}
use rport.Login.Credentials.{
  Authorization, BearerCheck, save_session, delete_session, refuse_banned, found_user,
  verify_password, get_bearer_token, validate_bearer_token, handle_bearer_token, lookup_user,
}

abbrev pub record_attempt : Env → Bool → String → MaxBadAttemptsBanList → MaxBadAttemptsBanList
record_attempt env authorized ip l =
    if authorized then add_success_attempt l ip else add_bad_attempt l ip env.now

-- `handleBannedIPs`
unfoldable pub handle_banned_ips : Env → Request → Bool → Call (Unit {0})
unfolding add_success_attempt add_bad_attempt
handle_banned_ips env req authorized l = elim l.banned_ips [
  | none ↦ (ok tt, l)
  | some ips ↦ elim req.ip [
    | none ↦ (err (fails 500), l)
    | some ip ↦ (ok tt, record l { banned_ips = some (record_attempt env authorized ip ips) })
  ]
]

abbrev pub ban_user : Env → String → Call (Unit {0})
ban_user env username l = (ok tt, record l { banned_users = add l.banned_users username env.now })

-- Ends in an error after the failure was recorded.
abbrev pub ban_and_fail : Env → String → ℕ → Call Response
ban_and_fail env username status = ban_user env username >> lift (err (fails status))

-- `RejectBannedIPs`: where the peer's address has no host, the request is answered and still goes on,
-- with an empty host.
unfoldable pub reject_banned_ips : Env → Request → MaxBadAttemptsBanList → Option Response
reject_banned_ips env req l = elim req.ip [
  | none ↦ if is_visitor_banned l "" env.now then some (fails 423) else none
  | some ip ↦ if is_visitor_banned l ip env.now then some (fails 423) else none
]

module _ (lib : Packages) (cfg : Config) (env : Env) where
  abbrev pub admit : Authorization → Call Response
  admit a =
      if not a.authorized || str_eq a.username ""
      then ban_and_fail env a.username 401
      else pure (next a.username)

  -- `wrapWithAuthMiddleware`
  unfoldable pub wrap_with_auth : Request → Call Response
  wrap_with_auth req =
      lookup_user lib cfg env req >>= λ a. handle_banned_ips env req a.authorized >> admit a

  abbrev pub admit_token : Request → String → Call Response
  admit_token req token =
      handle_bearer_token lib env token >>= λ a. handle_banned_ips env req a.authorized >> admit a

  -- `wsAuth`, with the query parameter `access_token`
  unfoldable pub ws_auth : Request → String → Call Response
  ws_auth req token =
      if str_eq token ""
      then handle_banned_ips env req false >> lift (err (fails 401))
      else admit_token req token

  abbrev pub signed : Option String → Result Response String
  signed none = err (fails 500)
  signed (some token) = ok token

  -- `createAuthToken`
  unfoldable pub create_auth_token : ℕ → String → Call String
  create_auth_token lifetime username = do
    lift (refuse_if (str_eq username "") (fails 500))
    token ← lift (signed (lib.jwt_sign username env.jwt_id))
    save_session (record { token = token; expires_at = env.now + lifetime })
    pure token

  unfoldable pub send_jwt_token : Request → String → Call Response
  unfolding create_auth_token
  send_jwt_token req username = do
    lifetime ← lift (map_err fails (parse_token_lifetime lib.parse_int req.token_lifetime))
    token ← create_auth_token lifetime username
    pure (token_created token)

  abbrev pub receiver_of : Option User → Result Response String
  receiver_of none = err (fails 404)
  receiver_of (some user) =
      if str_eq user.two_fa_send_to "" then err (fails 400) else ok user.two_fa_send_to

  abbrev pub generated : Option String → Result Response String
  generated none = err (fails 500)
  generated (some token) = ok token

  abbrev pub keep_code : String → String → Call (Unit {0})
  keep_code username token l = (
    ok tt,
    record l {
      tokens_by_user =
          insert username (record { token = token; expiry = env.now + cfg.token_ttl })
            l.tokens_by_user;
    },
  )

  -- `TwoFAService.SendToken`
  unfoldable pub send_token : String → Call String
  send_token username = do
    lift (refuse_if (str_eq username "") (fails 400))
    user ← lift (found_user env username)
    send_to ← lift (receiver_of user)
    token ← lift (generated env.new_token)
    lift (refuse_if (not env.message_sent) (fails 500))
    keep_code username token
    pure send_to

  abbrev pub check_code : String → Option ExpirableToken → Result Response (Unit {0})
  check_code token none = err (fails 401)
  check_code token (some t) =
      and_then (refuse_if (after env.now t.expiry) (fails 401))
        λ _. refuse_if (not (str_eq t.token token)) (fails 401)

  -- `TwoFAService.ValidateToken`
  unfoldable pub validate_token : String → String → Listener → Result Response (Unit {0})
  validate_token username token l = check_code token (lookup username l.tokens_by_user)

  abbrev pub password_right : String → Option User → Bool
  password_right pwd none = false
  password_right pwd (some user) = verify_password lib user.password pwd

  -- `validateCredentials`
  unfoldable pub validate_credentials : String → String → Result Response Bool
  validate_credentials username password =
      if str_eq username ""
      then ok false
      else and_then (found_user env username) λ user. ok (password_right password user)

  abbrev pub second_factor : String → Call Response
  second_factor username = do send_to ← send_token username; pure (code_sent_to send_to)

  abbrev pub after_password : Request → String → Bool → Call Response
  after_password req username authorized =
      if not authorized
      then ban_and_fail env username 401
      else if cfg.two_fa_on
      then second_factor username
      else send_jwt_token req username

  unfoldable pub handle_login : Request → String → String → Call Response
  unfolding validate_credentials handle_banned_ips send_token send_jwt_token
  handle_login req username pwd = do
    reads (refuse_banned env username)
    lift (refuse_if (str_eq username "") (fails 401))
    authorized ← lift (validate_credentials username pwd)
    handle_banned_ips env req authorized
    after_password req username authorized

  -- `parseAndValidate2FATokenRequest`
  unfoldable pub parse_and_validate : String → String → Listener → Result Response (Unit {0})
  unfolding validate_token
  parse_and_validate username token l = and_then (refuse_if (not cfg.two_fa_on) (fails 409)) λ _.
      and_then (refuse_banned env username l) λ _.
        and_then (refuse_if (str_eq username "") (fails 401)) λ _.
          and_then (refuse_if (str_eq token "") (fails 401)) λ _. validate_token username token l

  abbrev pub after_check : Request → String → Result Response (Unit {0}) → Call Response
  after_check req username (ok u) = send_jwt_token req username
  after_check req username (err e) = handle_banned_ips env req false >> lift (err e)

  unfoldable pub handle_post_verify_2fa_token : Request → String → String → Call Response
  unfolding parse_and_validate
  handle_post_verify_2fa_token req username token l =
      after_check req username (parse_and_validate username token l) l

  abbrev pub end_session : Option ApiSession → Call Response
  end_session none = pure no_content
  end_session (some s) = delete_session s >> pure no_content

  abbrev pub after_bearer : BearerCheck → Call Response
  after_bearer c = if not c.valid then ban_and_fail env c.username 400 else end_session c.session

  abbrev pub refusal : Request → Call Response
  refusal req = handle_banned_ips env req false >> lift (err (fails 400))

  abbrev pub logout_by : Request → String → Call Response
  logout_by req token = reads (validate_bearer_token lib env token) >>= λ c.
      handle_banned_ips env req c.valid >> after_bearer c

  abbrev pub logout_with : Request → Option String → Call Response
  logout_with req none = refusal req
  logout_with req (some token) = if str_eq token "" then refusal req else logout_by req token

  unfoldable pub handle_delete_logout : Request → Call Response
  handle_delete_logout req = logout_with req (get_bearer_token lib req.authorization)
