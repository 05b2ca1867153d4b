-- ===== src/Login/Logout.antt =====
-- server/api.go, `handleDeleteLogout`: a session that has ended.
use rport.Prelude.{
  String, true, false, not, none, some, ◌≡◌, arith, str_eq, eq_iff, Bool-cases, Option-cases, inl,
  inr, ◌⊎◌, sym, ap, ◌∙◌, if◌then◌else◌,
}
use rport.Result.{ok, err, is_ok}
use rport.Exec.{bind_ok, lift, reads, ◌>>◌}
use rport.Dict.{lookup, remove, lookup-remove}
use rport.Login.Model.{
  ApiSession, Listener, fails, next, no_content, Packages, Config, Env, Request,
}
use rport.Login.Credentials.{BearerCheck, get_bearer_token, validate_bearer_token}
use rport.Login.Handlers.{
  handle_banned_ips, ban_and_fail, after_bearer, refusal, logout_by, end_session, logout_with,
  handle_delete_logout, wrap_with_auth,
}
use rport.Login.Keyed.{IsKeyed}
use rport.Login.Admission.{wrap_with_auth_safe, ByPassword, BySession}

module _ (lib : Packages) (cfg : Config) (env : Env) where
  bearer_session :
      (token : String) (c : BearerCheck) (l : Listener)
      → validate_bearer_token lib env token l ≡ ok c
      → c.valid ≡ true
      → (s : ApiSession) × (c.session ≡ some s) × (lookup token l.sessions ≡ some s)
  unfolding validate_bearer_token
  bearer_session token c l passed valid = elim (Option-cases (lookup token l.sessions)) [
    | inl unkept ↦ absurd (ground arith)
    | inr (s, kept) ↦ (s, ground arith, kept)
  ]

  deleted :
      (token : String) (s : ApiSession) (l l' : Listener)
      → s.token ≡ token
      → end_session lib cfg env (some s) l ≡ (ok no_content, l')
      → lookup token l'.sessions ≡ none
  deleted token s l l' keyed done =
      ap (λ x. lookup token x.1.sessions) (sym done)
      ∙ ap (λ t. lookup token (remove t l.sessions)) keyed
      ∙ ground (arith, lookup-remove token token l.sessions, eq_iff token token)

  ended_by :
      (token : String) (c : BearerCheck) (l l1 l' : Listener)
      → IsKeyed l
      → validate_bearer_token lib env token l ≡ ok c
      → after_bearer lib cfg env c l1 ≡ (ok no_content, l')
      → lookup token l'.sessions ≡ none
  ended_by token c l l1 l' keyed passed done = elim (Bool-cases c.valid) [
    | inl valid ↦
        let (s, has, kept) = bearer_session token c l passed valid in
        deleted token s l1 l' (keyed token s kept) (
          ap (λ o. end_session lib cfg env o l1) (sym has)
          ∙ ap
              (λ b.
                (if not b
                    then ban_and_fail env c.username 400
                    else end_session lib cfg env c.session)
                  l1)
              (sym valid)
          ∙ done)
    | inr invalid ↦ absurd (ground arith)
  ]

  logout_with_ended :
      (req : Request) (token : String) (l l' : Listener)
      → IsKeyed l
      → str_eq token "" ≡ false
      → logout_with lib cfg env req (some token) l ≡ (ok no_content, l')
      → lookup token l'.sessions ≡ none
  logout_with_ended req token l l' keyed some_token done =
      let (c, checked, step) =
        bind_ok (reads (validate_bearer_token lib env token))
          (λ c. handle_banned_ips env req c.valid >> after_bearer lib cfg env c) l l' no_content
          (ap (λ b. (if b then refusal lib cfg env req else logout_by lib cfg env req token) l)
              (sym some_token)
            ∙ done) in
      let (u, recorded, last) =
        bind_ok (handle_banned_ips env req c.valid) (λ _. after_bearer lib cfg env c) l l'
          no_content step in
      ended_by token c l (handle_banned_ips env req c.valid l).1 l' keyed checked last

  refused_empty :
      (req : Request) (token : String) (l l' : Listener)
      → logout_with lib cfg env req (some token) l ≡ (ok no_content, l')
      → str_eq token "" ≡ false
  refused_empty req token l l' done = elim (Bool-cases (str_eq token "")) [
    | inr some_token ↦ some_token
    | inl empty ↦
        let (u, recorded, last) =
          bind_ok (handle_banned_ips env req false) (λ _. lift (err (fails 400))) l l' no_content
            (ap (λ b. (if b then refusal lib cfg env req else logout_by lib cfg env req token) l)
                (sym empty)
              ∙ done) in
        absurd (ground (arith, ap (λ x. is_ok x.0) last))
  ]

  not_kept :
      (env' : Env) (req' : Request) (token username : String) (l' : Listener)
      → lookup token l'.sessions ≡ none
      → ByPassword lib cfg env' l' none username ⊎ BySession lib cfg env' l' (some token) username
      → ⊥
  not_kept env' req' token username l' ended (inl p) = absurd (ground (arith, p.given))
  not_kept env' req' token username l' ended (inr b) =
      absurd (ground (arith, b.given, b.kept, ended))

-- After a logout that was answered with no content, a request with that bearer token and no user name
-- and password that is answered next is not handed on, as whichever user, if every session stood
-- under its own token before the logout.
pub handle_delete_logout_ends :
    (lib : Packages) (cfg : Config) (env env' : Env) (req req' : Request) (token username : String)
    (l l' l'' : Listener)
    → IsKeyed l
    → get_bearer_token lib req.authorization ≡ some token
    → handle_delete_logout lib cfg env req l ≡ (ok no_content, l')
    → get_bearer_token lib req'.authorization ≡ some token
    → req'.basic ≡ none
    → ¬ (wrap_with_auth lib cfg env' req' l' ≡ (ok (next username), l''))
unfolding handle_delete_logout
handle_delete_logout_ends lib cfg env env' req req' token username l l' l'' keyed bears done bears'
      no_basic passed =
    let out = ap (λ o. logout_with lib cfg env req o l) (sym bears) ∙ done in
    let ended =
      logout_with_ended lib cfg env req token l l' keyed
        (refused_empty lib cfg env req token l l' out) out in
    let (named, free, how) = wrap_with_auth_safe lib cfg env' l' req' username l'' passed in
    not_kept lib cfg env env' req' token username l' ended (rw (sym no_basic) (rw (sym bears') how))
