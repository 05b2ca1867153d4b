-- ===== src/Tests/Logins.antt =====
-- Runs of login, logout and the second factor, with a toy of the packages jwt, bcrypt, strings and strconv.
use rport.Prelude.{
  ℕ, ◌≡◌, refl, true, false, none, some, [], ◌≤◌, ◌<◌, arith, str_eq, if◌then◌else◌,
}
use rport.Result.{ok, err}
use rport.Dict.{lookup, insert, remove}
use rport.Users.Model.{User}
use rport.Security.BanList.{is_banned, add, add_bad_attempt, add_success_attempt}
use rport.Login.Model.{
  Listener, fails, token_created, code_sent_to, no_content, next, Packages, Config, Env, Request,
}
use rport.Login.Lifetime.{
  lifetime_of, parse_token_lifetime, parse_token_lifetime_bounds, max_token_lifetime,
}
use rport.Login.Credentials.{
  get_bearer_token, validate_bearer_token, increase_session_lifetime, handle_bearer_token,
  handle_basic_auth, lookup_user,
}
use rport.Login.Handlers.{
  handle_banned_ips, reject_banned_ips, wrap_with_auth, ws_auth, create_auth_token, send_jwt_token,
  send_token, validate_token, validate_credentials, handle_login, parse_and_validate,
  handle_post_verify_2fa_token, handle_delete_logout,
}
use rport.Login.Admission.{Authentic, wrap_with_auth_safe}
use rport.Login.Keyed.{IsKeyed}
use rport.Login.Steps.{here, then_step, logs_in, Reach-IsKeyed}
use rport.Login.Lockout.{handle_login_locks}
use rport.Login.Logout.{handle_delete_logout_ends}
use rport.Login.SecondFactor.{IsCurrent, handle_post_verify_2fa_token_safe}

logins : Unit {0}
unfolding lifetime_of parse_token_lifetime get_bearer_token validate_bearer_token
    increase_session_lifetime handle_bearer_token handle_basic_auth lookup_user handle_banned_ips
    reject_banned_ips wrap_with_auth ws_auth create_auth_token send_jwt_token send_token
    validate_token validate_credentials handle_login parse_and_validate handle_post_verify_2fa_token
    handle_delete_logout lookup insert remove is_banned add add_bad_attempt add_success_attempt
logins = tt

abbrev toy : Packages
toy = record {
  jwt_sign = λ username id. some "ann-jwt";
  jwt_parse = λ token. if str_eq token "ann-jwt" then some ("ann", true) else none;
  bcrypt_matches = λ saved provided. false;
  equal_fold = str_eq;
  parse_int = λ s. if str_eq s "0" then some 0 else if str_eq s "60" then some 60 else none;
}

abbrev plain : Config
plain = record { two_fa_on = false; token_ttl = 600 }

abbrev two_factors : Config
two_factors = record { two_fa_on = true; token_ttl = 600 }

abbrev ann : User
ann = record {
  username = "ann";
  password = "secret";
  groups = none;
  two_fa_send_to = "ann@example.com";
  token = none;
}

abbrev at : ℕ → Env
at now = record {
  now = now;
  jwt_id = 1;
  get_by_username = λ username. ok (if str_eq username "ann" then some ann else none);
  new_token = some "123456";
  message_sent = true;
}

abbrev anonymous : Request
anonymous = record { ip = some "10.0.0.1"; basic = none; authorization = ""; token_lifetime = "60" }

abbrev with_token : Request
with_token = record anonymous { authorization = "Bearer ann-jwt" }

abbrev started : Listener
started = record {
  sessions = [];
  banned_users = record { ban_duration = 100; visitors = [] };
  banned_ips = some (record { ban_duration = 50; max_bad_attempts = 3; visitors = [] });
  tokens_by_user = [];
}

abbrev logged_in : Listener
logged_in = (handle_login toy plain (at 10) anonymous "ann" "secret" started).1

abbrev logged_out : Listener
logged_out = (handle_delete_logout toy plain (at 30) with_token logged_in).1

abbrev sent : Listener
sent = (handle_login toy two_factors (at 10) anonymous "ann" "secret" started).1

login_tests :
    ((handle_login toy plain (at 10) anonymous "ann" "secret" started).0
      ≡ ok (token_created "ann-jwt"))
    × ((wrap_with_auth toy plain (at 20) with_token logged_in).0 ≡ ok (next "ann"))
    × ((wrap_with_auth toy plain (at 20) anonymous logged_in).0 ≡ err (fails 401))
    × ((handle_delete_logout toy plain (at 30) with_token logged_in).0 ≡ ok no_content)
    × ((wrap_with_auth toy plain (at 40) with_token logged_out).0 ≡ err (fails 401))
    × ((handle_login toy two_factors (at 10) anonymous "ann" "secret" started).0
        ≡ ok (code_sent_to "ann@example.com"))
    × ((handle_post_verify_2fa_token toy two_factors (at 20) anonymous "ann" "123456" sent).0
        ≡ ok (token_created "ann-jwt"))
    × ((handle_post_verify_2fa_token toy two_factors (at 611) anonymous "ann" "123456" sent).0
        ≡ err (fails 401))
unfolding logins
login_tests = (refl, refl, refl, refl, refl, refl, refl, refl)

-- A number of seconds whose product with a second wraps to a small one is granted, beyond the maximum.
lifetime_tests :
    (lifetime_of 60 ≡ ok 60000000000)
    × (lifetime_of 7776001 ≡ err 400)
    × (lifetime_of 36028797018963969 ≡ ok 1000000000)
unfolding logins
lifetime_tests = (refl, refl, refl)

parse_token_lifetime_bounds_example : (0 < 60000000000) × (60000000000 ≤ max_token_lifetime)
unfolding logins
parse_token_lifetime_bounds_example =
    parse_token_lifetime_bounds toy.parse_int "60" 60000000000 refl

wrap_with_auth_safe_example : Authentic toy plain (at 20) logged_in with_token "ann"
unfolding logins
wrap_with_auth_safe_example =
    wrap_with_auth_safe toy plain (at 20) logged_in with_token "ann"
      (wrap_with_auth toy plain (at 20) with_token logged_in).1 refl

started-IsKeyed : IsKeyed started
unfolding lookup
started-IsKeyed token s found = absurd (ground arith)

abbrev wrong_once : Listener
wrong_once = (handle_login toy plain (at 10) anonymous "ann" "wrong" started).1

-- Another request comes in between.
abbrev meanwhile : Listener
meanwhile = (handle_login toy plain (at 20) anonymous "bob" "wrong" wrong_once).1

handle_login_locks_example :
    ((handle_login toy plain (at 10) anonymous "ann" "wrong" started).0 ≡ err (fails 401))
    × (handle_login toy plain (at 109) with_token "ann" "secret" meanwhile
        ≡ (err (fails 429), meanwhile))
unfolding logins
handle_login_locks_example =
    handle_login_locks toy plain (at 10) (at 109) anonymous with_token "ann" "wrong" "secret"
      (some ann) started wrong_once meanwhile refl refl refl refl refl refl
      (then_step (at 20) (omega arith) here (logs_in anonymous "bob" "wrong")) (omega arith)

logged_in-IsKeyed : IsKeyed logged_in
unfolding logins
logged_in-IsKeyed =
    Reach-IsKeyed toy plain started logged_in
      (then_step (at 10) (omega arith) here (logs_in anonymous "ann" "secret")) started-IsKeyed

handle_delete_logout_ends_example :
    ¬ (wrap_with_auth toy plain (at 40) with_token logged_out ≡ (ok (next "ann"), logged_out))
unfolding logins
handle_delete_logout_ends_example =
    handle_delete_logout_ends toy plain (at 30) (at 40) with_token with_token "ann-jwt" "ann"
      logged_in logged_out logged_out logged_in-IsKeyed refl refl refl refl

handle_post_verify_2fa_token_safe_example :
    (two_factors.two_fa_on ≡ true)
    × (is_banned sent.banned_users "ann" 20 ≡ false)
    × IsCurrent (at 20) "ann" "123456" sent
unfolding logins
handle_post_verify_2fa_token_safe_example =
    handle_post_verify_2fa_token_safe toy two_factors (at 20) anonymous "ann" "123456"
      (token_created "ann-jwt") sent
      (handle_post_verify_2fa_token toy two_factors (at 20) anonymous "ann" "123456" sent).1 refl
