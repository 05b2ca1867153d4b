-- ===== src/Login/SecondFactor.antt =====
-- server/api.go and 2fa_auth.go: a login with a second factor.
use rport.Prelude.{
  String, Bool, true, false, not, some, ◌≡◌, refl, arith, str_eq, inl, inr, Option-cases, ap, sym,
  ◌∙◌,
}
use rport.Result.{ok, err, is_ok, Result-cases}
use rport.Exec.{Preserves, bind-Preserves, if-Preserves, then-Preserves, bind_ok, lift, reads}
use rport.Dict.{Dict, lookup}
use rport.Security.BanList.{is_banned, after}
use rport.Login.Model.{
  ApiSession, ExpirableToken, Listener, Response, Packages, Config, Env, Request,
}
use rport.Login.Credentials.{refuse_banned}
use rport.Login.Handlers.{
  handle_banned_ips, ban_and_fail, send_token, send_jwt_token, second_factor, validate_token,
  validate_credentials, after_password, handle_login, parse_and_validate, after_check,
  handle_post_verify_2fa_token,
}
use rport.Login.Keyed.{handle_banned_ips-sessions}

abbrev HasSessions : Dict ApiSession → Listener → Type 0
HasSessions d l = l.sessions ≡ d

module _ (lib : Packages) (cfg : Config) (env : Env) (d : Dict ApiSession) where
  send_token-HasSessions :
      (username : String) → Preserves (HasSessions d) (send_token lib cfg env username)
  unfolding send_token
  send_token-HasSessions username l same = ground arith

  banned_ips-HasSessions :
      (req : Request) (authorized : Bool)
      → Preserves (HasSessions d) (handle_banned_ips env req authorized)
  banned_ips-HasSessions req authorized l same =
      handle_banned_ips-sessions env req authorized l ∙ same

  second_factor-HasSessions :
      (req : Request) (username : String) (authorized : Bool)
      → cfg.two_fa_on ≡ true
      → Preserves (HasSessions d) (after_password lib cfg env req username authorized)
  second_factor-HasSessions req username authorized on =
      if-Preserves (HasSessions d) (not authorized) (ban_and_fail env username 401) _
        (λ l same. same)
        (then-Preserves (HasSessions d) cfg.two_fa_on (second_factor lib cfg env username)
          (send_jwt_token lib cfg env req username) on
          (bind-Preserves (HasSessions d) (send_token lib cfg env username) _
            (send_token-HasSessions username) (λ to l same. same)))

-- While a second factor is asked for, no login starts, prolongs or ends a session, whatever name and
-- password it has.
pub handle_login-sessions :
    (lib : Packages) (cfg : Config) (env : Env) (req : Request) (username pwd : String)
    (l : Listener)
    → cfg.two_fa_on ≡ true
    → (handle_login lib cfg env req username pwd l).1.sessions ≡ l.sessions
unfolding handle_login
handle_login-sessions lib cfg env req username pwd l on =
    let P = HasSessions l.sessions in
    bind-Preserves P (reads (refuse_banned env username)) _ (λ l same. same)
      (λ u.
        bind-Preserves P (lift _) _ (λ l same. same)
          λ u.
            bind-Preserves P (lift (validate_credentials lib cfg env username pwd)) _
              (λ l same. same)
              λ authorized.
                bind-Preserves P (handle_banned_ips env req authorized) _
                  (banned_ips-HasSessions lib cfg env l.sessions req authorized)
                  (λ u.
                    second_factor-HasSessions lib cfg env l.sessions req username authorized on))
      l refl

-- The code that the user was sent last.
pub record IsCurrent (env : Env) (username code : String) (l : Listener) : Type 0 where
  pub kept : ExpirableToken
  pub found : lookup username l.tokens_by_user ≡ some kept
  pub same : str_eq kept.token code ≡ true
  pub unexpired : after env.now kept.expiry ≡ false

module _ (lib : Packages) (cfg : Config) (env : Env) where
  passed_checks :
      (username code : String) (l : Listener)
      → parse_and_validate lib cfg env username code l ≡ ok tt
      → (cfg.two_fa_on ≡ true)
        × (is_banned l.banned_users username env.now ≡ false)
        × IsCurrent env username code l
  unfolding parse_and_validate validate_token
  passed_checks username code l passed = elim (Option-cases (lookup username l.tokens_by_user)) [
    | inl unsent ↦ absurd (ground arith)
    | inr (t, found) ↦ (
      ground arith,
      ground arith,
      record { kept = t; found = found; same = ground arith; unexpired = ground arith },
    )
  ]

  refusal_fails :
      (req : Request) (e r : Response) (l l' : Listener)
      → after_check lib cfg env req "" (err e) l ≡ (ok r, l')
      → ⊥
  refusal_fails req e r l l' done =
      let (u, recorded, last) =
        bind_ok (handle_banned_ips env req false) (λ _. lift (err e)) l l' r done in
      absurd (ground (arith, ap (λ x. is_ok x.0) last))

-- A verification that is not answered with an error was asked for while the second factor is on, of a
-- user who is not banned, and with the code that the user was sent last, which has not expired.
pub handle_post_verify_2fa_token_safe :
    (lib : Packages) (cfg : Config) (env : Env) (req : Request) (username code : String)
    (r : Response) (l l' : Listener)
    → handle_post_verify_2fa_token lib cfg env req username code l ≡ (ok r, l')
    → (cfg.two_fa_on ≡ true)
      × (is_banned l.banned_users username env.now ≡ false)
      × IsCurrent env username code l
unfolding handle_post_verify_2fa_token
handle_post_verify_2fa_token_safe lib cfg env req username code r l l' done =
    elim (Result-cases (parse_and_validate lib cfg env username code l)) [
      | inl (u, passed) ↦ passed_checks lib cfg env username code l passed
      | inr (e, failed) ↦ absurd (
          refusal_fails lib cfg env req e r l l'
            (ap (λ x. after_check lib cfg env req username x l) (sym failed) ∙ done))
    ]
