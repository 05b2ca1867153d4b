-- ===== src/Login/Preserved.antt =====
-- server/api_session.go, api_listener.go and api.go: what the operations that write the state keep, every
-- handler keeps.
use rport.Prelude.{ℕ, ◌+◌, String, Bool, false, Option, none, some, str_eq, not, ◌||◌}
use rport.Result.{Result, ok, err, refuse_if, map_err}
use rport.Exec.{Preserves, bind-Preserves, if-Preserves, pure, lift, reads, ◌>>◌}
use rport.Login.Model.{ApiSession, Listener, Response, fails, Packages, Config, Env, Request}
use rport.Login.Lifetime.{parse_token_lifetime}
use rport.Login.Credentials.{
  Authorization, save_session, delete_session, refuse_banned, get_bearer_token,
  validate_bearer_token, handle_bearer_token, prolong, prolong_session, increase_session_lifetime,
  bearer_or_none, by_header, lookup_user,
}
use rport.Login.Handlers.{
  handle_banned_ips, ban_user, ban_and_fail, admit, wrap_with_auth, ws_auth, create_auth_token,
  signed, send_jwt_token, send_token, after_password, handle_login, validate_credentials,
  after_check, parse_and_validate, handle_post_verify_2fa_token, end_session, logout_with,
  handle_delete_logout,
}

-- What the five operations that write the state keep.
pub record IsKept (P : Listener → Type 0) (lib : Packages) (cfg : Config) (env : Env) : Type 0 where
  pub saves : (s : ApiSession) → Preserves P (save_session s)
  pub deletes : (s : ApiSession) → Preserves P (delete_session s)
  pub records :
      (req : Request) (authorized : Bool) → Preserves P (handle_banned_ips env req authorized)
  pub bans : (username : String) → Preserves P (ban_user env username)
  pub codes : (username : String) → Preserves P (send_token lib cfg env username)

module _ {P : Listener → Type 0} {lib : Packages} {cfg : Config} {env : Env}
    (k : IsKept P lib cfg env) where
  failed-keeps : (username : String) (status : ℕ) → Preserves P (ban_and_fail env username status)
  failed-keeps username status =
      bind-Preserves P {B = Response} (ban_user env username) (λ u. lift (err (fails status)))
        (k.bans username) (λ u l held. held)

  prolong_session-keeps : (o : Option ApiSession) → Preserves P (prolong_session lib env o)
  unfolding increase_session_lifetime
  prolong_session-keeps none l held = held
  prolong_session-keeps (some s) l held = k.saves _ l held

  handle_bearer_token-keeps : (token : String) → Preserves P (handle_bearer_token lib env token)
  unfolding handle_bearer_token
  handle_bearer_token-keeps token =
      bind-Preserves P (reads (validate_bearer_token lib env token)) _ (λ l held. held)
        λ c.
          bind-Preserves P (prolong lib env c) _
            (if-Preserves P c.valid (prolong_session lib env c.session) (pure tt)
              (prolong_session-keeps c.session) (λ l held. held))
            (λ u l held. held)

  header-keeps : (bearer : Option String) → Preserves P (bearer_or_none lib env bearer)
  header-keeps none =
      bind-Preserves P (reads (refuse_banned env "")) _ (λ l held. held) (λ u l held. held)
  header-keeps (some token) = handle_bearer_token-keeps token

  by_header-keeps :
      (req : Request) (basic : Option (String × String))
      → Preserves P (by_header lib cfg env req basic)
  by_header-keeps req none l held = header-keeps (get_bearer_token lib req.authorization) l held
  by_header-keeps req (some (username, password)) l held = held

  admit-keeps : (a : Authorization) → Preserves P (admit lib cfg env a)
  admit-keeps a =
      if-Preserves P (not a.authorized || str_eq a.username "") _ _ (failed-keeps a.username 401)
        (λ l held. held)

  admitted-keeps :
      (req : Request) (a : Authorization)
      → Preserves P (handle_banned_ips env req a.authorized >> admit lib cfg env a)
  admitted-keeps req a =
      bind-Preserves P (handle_banned_ips env req a.authorized) _ (k.records req a.authorized)
        (λ u. admit-keeps a)

  pub wrap_with_auth-keeps : (req : Request) → Preserves P (wrap_with_auth lib cfg env req)
  unfolding wrap_with_auth lookup_user
  wrap_with_auth-keeps req =
      bind-Preserves P (by_header lib cfg env req req.basic) _ (by_header-keeps req req.basic)
        (admitted-keeps req)

  refusal-keeps :
      (req : Request) (e : Response)
      → Preserves P {A = Response} (handle_banned_ips env req false >> lift (err e))
  refusal-keeps req e =
      bind-Preserves P (handle_banned_ips env req false) _ (k.records req false) (λ u l held. held)

  pub ws_auth-keeps : (req : Request) (token : String) → Preserves P (ws_auth lib cfg env req token)
  unfolding ws_auth
  ws_auth-keeps req token = if-Preserves P (str_eq token "") _ _ (refusal-keeps req (fails 401)) (
      bind-Preserves P (handle_bearer_token lib env token) _ (handle_bearer_token-keeps token)
        (admitted-keeps req))

  send_jwt_token-keeps :
      (req : Request) (username : String) → Preserves P (send_jwt_token lib cfg env req username)
  unfolding send_jwt_token create_auth_token
  send_jwt_token-keeps req username =
      bind-Preserves P
        (lift (map_err fails (parse_token_lifetime lib.parse_int req.token_lifetime))) _
        (λ l held. held)
        λ lifetime.
          bind-Preserves P (create_auth_token lib cfg env lifetime username) _
            (bind-Preserves P (lift (refuse_if (str_eq username "") (fails 500))) _ (λ l held. held)
              λ u.
                bind-Preserves P (lift (signed lib cfg env (lib.jwt_sign username env.jwt_id))) _
                  (λ l held. held)
                  λ token l held.
                    k.saves (record { token = token; expires_at = env.now + lifetime }) l held)
            (λ token l held. held)

  after_password-keeps :
      (req : Request) (username : String) (authorized : Bool)
      → Preserves P (after_password lib cfg env req username authorized)
  after_password-keeps req username authorized =
      if-Preserves P (not authorized) _ _ (failed-keeps username 401) (
        if-Preserves P cfg.two_fa_on _ _
          (bind-Preserves P (send_token lib cfg env username) _ (k.codes username)
            (λ to l held. held))
          (send_jwt_token-keeps req username))

  pub handle_login-keeps :
      (req : Request) (username pwd : String)
      → Preserves P (handle_login lib cfg env req username pwd)
  unfolding handle_login
  handle_login-keeps req username pwd =
      bind-Preserves P (reads (refuse_banned env username)) _ (λ l held. held)
        λ u.
          bind-Preserves P (lift (refuse_if (str_eq username "") (fails 401))) _ (λ l held. held)
            λ u.
              bind-Preserves P (lift (validate_credentials lib cfg env username pwd)) _
                (λ l held. held)
                λ authorized.
                  bind-Preserves P (handle_banned_ips env req authorized) _
                    (k.records req authorized) (λ u. after_password-keeps req username authorized)

  after_check-keeps :
      (req : Request) (username : String) (r : Result Response (Unit {0}))
      → Preserves P (after_check lib cfg env req username r)
  after_check-keeps req username (ok u) = send_jwt_token-keeps req username
  after_check-keeps req username (err e) = refusal-keeps req e

  pub verify-keeps :
      (req : Request) (username token : String)
      → Preserves P (handle_post_verify_2fa_token lib cfg env req username token)
  unfolding handle_post_verify_2fa_token
  verify-keeps req username token l =
      after_check-keeps req username (parse_and_validate lib cfg env username token l) l

  end_session-keeps : (o : Option ApiSession) → Preserves P (end_session lib cfg env o)
  end_session-keeps none l held = held
  end_session-keeps (some s) l held = k.deletes s l held

  logout_with-keeps :
      (req : Request) (bearer : Option String) → Preserves P (logout_with lib cfg env req bearer)
  logout_with-keeps req none = refusal-keeps req (fails 400)
  logout_with-keeps req (some token) =
      if-Preserves P (str_eq token "") _ _ (refusal-keeps req (fails 400)) (
        bind-Preserves P (reads (validate_bearer_token lib env token)) _ (λ l held. held)
          λ c. bind-Preserves P (handle_banned_ips env req c.valid) _ (k.records req c.valid) λ u.
            if-Preserves P (not c.valid) _ _ (failed-keeps c.username 400)
              (end_session-keeps c.session))

  pub logout-keeps : (req : Request) → Preserves P (handle_delete_logout lib cfg env req)
  unfolding handle_delete_logout
  logout-keeps req = logout_with-keeps req (get_bearer_token lib req.authorization)
