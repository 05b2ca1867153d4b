-- ===== src/Login/Keyed.antt =====
-- server/api_session.go: every session stands under its own token.
use rport.Prelude.{String, Bool, some, ◌≡◌, arith, eq_iff, ◌∙◌, sym, ap}
use rport.Exec.{Preserves}
use rport.Dict.{lookup, lookup-insert, lookup-remove}
use rport.Login.Model.{ApiSession, Listener, Packages, Config, Env, Request}
use rport.Login.Preserved.{IsKept}
use rport.Login.Credentials.{save_session, delete_session}
use rport.Login.Handlers.{handle_banned_ips, send_token}

abbrev pub IsKeyed : Listener → Type 0
IsKeyed l = (token : String) (s : ApiSession) → lookup token l.sessions ≡ some s → s.token ≡ token

save_session-IsKeyed : (s : ApiSession) → Preserves IsKeyed (save_session s)
save_session-IsKeyed s l keyed token s' found =
    ground (arith, lookup-insert s.token token s l.sessions, eq_iff s.token token, keyed token s')

delete_session-IsKeyed : (s : ApiSession) → Preserves IsKeyed (delete_session s)
delete_session-IsKeyed s l keyed token s' found =
    ground (arith, lookup-remove s.token token l.sessions, keyed token s')

pub handle_banned_ips-sessions :
    (env : Env) (req : Request) (authorized : Bool) (l : Listener)
    → (handle_banned_ips env req authorized l).1.sessions ≡ l.sessions
unfolding handle_banned_ips
handle_banned_ips-sessions env req authorized l = ground arith

handle_banned_ips-IsKeyed :
    (env : Env) (req : Request) (authorized : Bool)
    → Preserves IsKeyed (handle_banned_ips env req authorized)
handle_banned_ips-IsKeyed env req authorized l keyed token s found =
    keyed token s
      (ap (lookup token) (sym (handle_banned_ips-sessions env req authorized l)) ∙ found)

send_token-IsKeyed :
    (lib : Packages) (cfg : Config) (env : Env) (username : String)
    → Preserves IsKeyed (send_token lib cfg env username)
unfolding send_token
send_token-IsKeyed lib cfg env username l keyed token s found = ground (arith, keyed token s)

pub IsKeyed-IsKept : (lib : Packages) (cfg : Config) (env : Env) → IsKept IsKeyed lib cfg env
IsKeyed-IsKept lib cfg env = record {
  saves = save_session-IsKeyed;
  deletes = delete_session-IsKeyed;
  records = handle_banned_ips-IsKeyed env;
  bans = λ username l keyed. keyed;
  codes = send_token-IsKeyed lib cfg env;
}
