-- ===== src/Login/Lockout.antt =====
-- server/api.go, `handleLogin`, with share/security/banlist.go: a user is locked out after a wrong password.
use rport.Prelude.{
  ℕ, ◌+◌, ◌<◌, ◌≤◌, leb, none, some, String, Bool, true, false, Option, ◌≡◌, refl, ap, sym, ◌∙◌,
  arith, str_eq, eq_iff,
}
use rport.Result.{ok, err}
use rport.Dict.{lookup, lookup-insert}
use rport.Users.Model.{User}
use rport.Security.BanList.{BanList, add, is_banned}
use rport.Login.Model.{Listener, fails, Packages, Config, Env, Request}
use rport.Login.Handlers.{
  handle_banned_ips, password_right, validate_credentials, handle_login, ban_user, send_token,
}
use rport.Login.Credentials.{save_session, delete_session}
use rport.Login.Preserved.{IsKept}
use rport.Login.Steps.{Reach, Reach-keeps}

handle_banned_ips-banned_users :
    (env : Env) (req : Request) (authorized : Bool) (l : Listener)
    → (handle_banned_ips env req authorized l).1.banned_users ≡ l.banned_users
unfolding handle_banned_ips
handle_banned_ips-banned_users env req authorized l = ground arith

refused_while_banned :
    (lib : Packages) (cfg : Config) (env : Env) (req : Request) (username pwd : String)
    (l : Listener)
    → is_banned l.banned_users username env.now ≡ true
    → handle_login lib cfg env req username pwd l ≡ (err (fails 429), l)
unfolding handle_login
refused_while_banned lib cfg env req username pwd l banned = rw banned refl

wrong_login :
    (lib : Packages) (cfg : Config) (env : Env) (req : Request) (username pwd : String)
    (o : Option User) (l : Listener)
    → str_eq username "" ≡ false
    → is_banned l.banned_users username env.now ≡ false
    → env.get_by_username username ≡ ok o
    → password_right lib cfg env pwd o ≡ false
    → (handle_banned_ips env req false l).0 ≡ ok tt
    → ((handle_login lib cfg env req username pwd l).0 ≡ err (fails 401))
      × ((handle_login lib cfg env req username pwd l).1.banned_users
          ≡ add l.banned_users username env.now)
unfolding handle_login validate_credentials
wrong_login lib cfg env req username pwd o l named free found wrong recorded = (
  ground (arith, handle_banned_ips-banned_users env req false l),
  ground (arith, handle_banned_ips-banned_users env req false l),
)

-- A ban of the name lasts at least until a time, and bans last as long as they did.
abbrev ends_after : ℕ → Option ℕ → Bool
ends_after until none = false
ends_after until (some t) = leb until t

record IsLocked (username : String) (until duration : ℕ) (l : Listener) : Type 0 where
  lasts : ends_after until (lookup username l.banned_users.visitors) ≡ true
  same_duration : l.banned_users.ban_duration ≡ duration

module _ (username : String) (until duration : ℕ) where
  same_bans-IsLocked :
      (l l' : Listener)
      → l'.banned_users ≡ l.banned_users
      → IsLocked username until duration l
      → IsLocked username until duration l'
  same_bans-IsLocked l l' same locked = record {
    lasts = ap (λ b. ends_after until (lookup username b.visitors)) same ∙ locked.lasts;
    same_duration = ap (λ b. b.ban_duration) same ∙ locked.same_duration;
  }

  -- A new ban, of this name or another, ends no sooner.
  ban_user-IsLocked :
      (env : Env) (other : String) (l : Listener)
      → until ≤ env.now + duration
      → IsLocked username until duration l
      → IsLocked username until duration (ban_user env other l).1
  unfolding add
  ban_user-IsLocked env other l late locked = record {
    lasts = ground (
      arith,
      lookup-insert other username (env.now + l.banned_users.ban_duration) l.banned_users.visitors,
      locked.lasts,
      locked.same_duration,
    );
    same_duration = locked.same_duration;
  }

  send_token-banned_users :
      (lib : Packages) (cfg : Config) (env : Env) (name : String) (l : Listener)
      → (send_token lib cfg env name l).1.banned_users ≡ l.banned_users
  unfolding send_token
  send_token-banned_users lib cfg env name l = ground arith

  IsLocked-IsKept :
      (lib : Packages) (cfg : Config) (env : Env)
      → until ≤ env.now + duration
      → IsKept (IsLocked username until duration) lib cfg env
  IsLocked-IsKept lib cfg env late = record {
    saves = λ s l. same_bans-IsLocked l (save_session s l).1 refl;
    deletes = λ s l. same_bans-IsLocked l (delete_session s l).1 refl;
    records = λ req authorized l.
        same_bans-IsLocked l _ (handle_banned_ips-banned_users env req authorized l);
    bans = λ other l. ban_user-IsLocked env other l late;
    codes = λ name l. same_bans-IsLocked l _ (send_token-banned_users lib cfg env name l);
  }

  locked_banned :
      (l : Listener) (now : ℕ)
      → now < until
      → IsLocked username until duration l
      → is_banned l.banned_users username now ≡ true
  unfolding is_banned
  locked_banned l now early locked = ground (arith, locked.lasts)

banned-IsLocked :
    (username : String) (now : ℕ) (b : BanList) (l : Listener)
    → l.banned_users ≡ add b username now
    → IsLocked username (now + b.ban_duration) b.ban_duration l
unfolding add
banned-IsLocked username now b l banned = record {
  lasts =
      ap (λ x. ends_after (now + b.ban_duration) (lookup username x.visitors)) banned
      ∙ ground (
        arith,
        lookup-insert username username (now + b.ban_duration) b.visitors,
        eq_iff username username,
      );
  same_duration = ap (λ x. x.ban_duration) banned;
}

-- After a login with a name that is not empty and not banned, and a password that is not the user's,
-- every login of that name is refused with status 429 and changes nothing, from any address and also
-- with the right password, until the ban duration has passed, whatever requests are answered in
-- between, none of them at an earlier time than that login.
pub handle_login_locks :
    (lib : Packages) (cfg : Config) (env env' : Env) (req req' : Request)
    (username pwd pwd' : String) (o : Option User) (l l' m : Listener)
    → str_eq username "" ≡ false
    → is_banned l.banned_users username env.now ≡ false
    → env.get_by_username username ≡ ok o
    → password_right lib cfg env pwd o ≡ false
    → (handle_banned_ips env req false l).0 ≡ ok tt
    → (handle_login lib cfg env req username pwd l).1 ≡ l'
    → Reach lib cfg env.now l' m
    → env'.now < env.now + l.banned_users.ban_duration
    → ((handle_login lib cfg env req username pwd l).0 ≡ err (fails 401))
      × (handle_login lib cfg env' req' username pwd' m ≡ (err (fails 429), m))
handle_login_locks lib cfg env env' req req' username pwd pwd' o l l' m named free found wrong
      recorded left between early =
    let (refused, banned) =
      wrong_login lib cfg env req username pwd o l named free found wrong recorded in
    let duration = l.banned_users.ban_duration in
    let until = env.now + duration in
    let at_first : IsLocked username until duration l' =
      banned-IsLocked username env.now l.banned_users l'
        (sym (ap (λ x. x.banned_users) left) ∙ banned) in
    let locked =
      Reach-keeps (λ e after. IsLocked-IsKept username until duration lib cfg e (omega arith))
        between at_first in
    (
      refused,
      refused_while_banned lib cfg env' req' username pwd' m
          (locked_banned username until duration m env'.now early locked),
    )
