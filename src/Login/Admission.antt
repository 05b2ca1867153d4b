-- ===== src/Login/Admission.antt =====
-- server/api.go, `wrapWithAuthMiddleware`: the requests that are handed on.
use rport.Prelude.{
  String, true, false, Option, none, some, ◌≡◌, refl, arith, ◌⊎◌, inl, inr, str_eq, ltb, Bool-cases,
  Option-cases, ap, sym, ◌∙◌,
}
use rport.Result.{ok, Result-cases}
use rport.Result.{value_or}
use rport.Exec.{bind_ok, reads, pure}
use rport.Dict.{lookup}
use rport.Users.Model.{User}
use rport.Security.BanList.{is_banned}
use rport.Login.Model.{ApiSession, Listener, next, Packages, Config, Env, Request}
use rport.Login.Credentials.{
  Authorization, BearerCheck, verify_password, token_matches, get_bearer_token,
  validate_bearer_token, handle_bearer_token, handle_basic_auth, check_user, by_header,
  bearer_or_none, lookup_user, prolong,
}
use rport.Login.Handlers.{handle_banned_ips, admit, wrap_with_auth}

module _ (lib : Packages) (cfg : Config) (env : Env) (l : Listener) where
  -- The request names a user and a password that is the user's, where no second factor is asked
  -- for, or the user's token.
  pub record ByPassword (basic : Option (String × String)) (username : String) : Type 0 where
    pub password : String
    pub user : User
    pub given : basic ≡ some (username, password)
    pub known : env.get_by_username username ≡ ok (some user)
    pub right :
        ((cfg.two_fa_on ≡ false) × (verify_password lib user.password password ≡ true))
        ⊎ (token_matches lib user.token password ≡ true)

  -- The request has a token that was signed for the user and belongs to a session that has not expired.
  pub record BySession (bearer : Option String) (username : String) : Type 0 where
    pub token : String
    pub session : ApiSession
    pub given : bearer ≡ some token
    pub is_signed : lib.jwt_parse token ≡ some (username, true)
    pub kept : lookup token l.sessions ≡ some session
    pub unexpired : ltb env.now session.expires_at ≡ true

  abbrev pub Authentic : Request → String → Type 0
  Authentic req username =
      (str_eq username "" ≡ false)
      × (is_banned l.banned_users username env.now ≡ false)
      × (ByPassword req.basic username
          ⊎ BySession (get_bearer_token lib req.authorization) username)

  check_user_lem :
      (username password : String) (user : User)
      → (check_user lib cfg username password (some user)).authorized ≡ true
      → ((cfg.two_fa_on ≡ false) × (verify_password lib user.password password ≡ true))
        ⊎ (token_matches lib user.token password ≡ true)
  check_user_lem username password user granted =
      elim (Bool-cases (token_matches lib user.token password)) [
        | inl by_token ↦ inr by_token
        | inr other ↦ inl (ground arith, ground arith)
      ]

  basic_lem :
      (username password : String) (a : Authorization)
      → handle_basic_auth lib cfg env username password l ≡ ok a
      → a.authorized ≡ true
      → (a.username ≡ username)
        × (is_banned l.banned_users username env.now ≡ false)
        × ByPassword (some (username, password)) username
  unfolding handle_basic_auth
  basic_lem username password a passed granted =
      elim (Result-cases (env.get_by_username username)) [
        | inr (e, failed) ↦ absurd (ground arith)
        | inl (o, found) ↦ elim (Option-cases o) [
          | inl unknown ↦ absurd (ground arith)
          | inr (user, is_user) ↦ (
            ground arith,
            ground arith,
            record {
              password = password;
              user = user;
              given = refl;
              known = cc;
              right = check_user_lem username password user (ground arith);
            },
          )
        ]
      ]

  bearer_lem :
      (token : String) (c : BearerCheck)
      → validate_bearer_token lib env token l ≡ ok c
      → c.valid ≡ true
      → (is_banned l.banned_users c.username env.now ≡ false) × BySession (some token) c.username
  unfolding validate_bearer_token
  bearer_lem token c passed valid = elim (Option-cases (lib.jwt_parse token)) [
    | inl unsigned ↦ absurd (ground arith)
    | inr ((u, is_valid), parsed) ↦ elim (Option-cases (lookup token l.sessions)) [
      | inl unkept ↦ absurd (ground arith)
      | inr (session, kept) ↦ (
        ground arith,
        record {
          token = token;
          session = session;
          given = refl;
          is_signed = ground arith;
          kept = kept;
          unexpired = ground arith;
        },
      )
    ]
  ]

  session_lem :
      (token : String) (a : Authorization) (l' : Listener)
      → handle_bearer_token lib env token l ≡ (ok a, l')
      → a.authorized ≡ true
      → (is_banned l.banned_users a.username env.now ≡ false) × BySession (some token) a.username
  unfolding handle_bearer_token
  session_lem token a l' passed granted =
      let (c, checked, step) =
        bind_ok (reads (validate_bearer_token lib env token)) _ l l' a passed in
      let (u, kept, last) =
        bind_ok (prolong lib env c)
          (λ _. pure (record { authorized = c.valid; username = c.username })) l l' a step in
      let same = ap (λ x. value_or a x.0) last in
      rw (sym (ap (λ x. x.username) same))
        (bearer_lem token c checked (ap (λ x. x.authorized) same ∙ granted))

  header_lem :
      (bearer : Option String) (a : Authorization) (l' : Listener)
      → bearer_or_none lib env bearer l ≡ (ok a, l')
      → a.authorized ≡ true
      → (is_banned l.banned_users a.username env.now ≡ false) × BySession bearer a.username
  header_lem none a l' passed granted = absurd (ground arith)
  header_lem (some token) a l' passed granted = session_lem token a l' passed granted

  lookup_lem :
      (req : Request) (basic : Option (String × String)) (a : Authorization) (l' : Listener)
      → by_header lib cfg env req basic l ≡ (ok a, l')
      → a.authorized ≡ true
      → (is_banned l.banned_users a.username env.now ≡ false)
        × (ByPassword basic a.username
            ⊎ BySession (get_bearer_token lib req.authorization) a.username)
  lookup_lem req none a l' passed granted =
      let (free, session) =
        header_lem (get_bearer_token lib req.authorization) a l' passed granted in
      (free, inr session)
  lookup_lem req (some (username, password)) a l' passed granted =
      let (same, free, known) = basic_lem username password a (ap (λ x. x.0) passed) granted in
      rw same (free, inl known)

  admit_lem :
      (a : Authorization) (l' l'' : Listener) (username : String)
      → admit lib cfg env a l' ≡ (ok (next username), l'')
      → (a.authorized ≡ true) × (a.username ≡ username) × (str_eq a.username "" ≡ false)
  admit_lem a l' l'' username admitted = ground arith

  -- A request that the middleware hands on, as that of a user, comes with that user's password while
  -- no second factor is asked for, with the user's token, or with a signed token of a session that has
  -- not expired. The user has a name and is not banned.
  pub wrap_with_auth_safe :
      (req : Request) (username : String) (l' : Listener)
      → wrap_with_auth lib cfg env req l ≡ (ok (next username), l')
      → Authentic req username
  unfolding wrap_with_auth lookup_user
  wrap_with_auth_safe req username l' passed =
      let (a, looked, step) =
        bind_ok (by_header lib cfg env req req.basic) _ l l' (next username) passed in
      let l1 = (by_header lib cfg env req req.basic l).1 in
      let (u, recorded, last) =
        bind_ok (handle_banned_ips env req a.authorized) (λ _. admit lib cfg env a) l1 l'
          (next username) step in
      let (granted, same, named) =
        admit_lem a (handle_banned_ips env req a.authorized l1).1 l' username last in
      let (free, how) = lookup_lem req req.basic a l1 (ap (λ x. (x, l1)) looked) granted in
      rw (sym same) (named, free, how)
