-- ===== src/ClientAuth/Connecting.antt =====
-- server/client_listener.go, `authUser` and `getCID`: a client that connects. The log lines are left out.
use rport.Prelude.{
  ℕ, String, Bool, false, not, ◌&&◌, Option, none, some, ◌≡◌, refl, arith, str_eq, eq_iff,
  if◌then◌else◌, ◌↔◌,
}
use rport.Result.{Result, ok, err}
use rport.Exec.{Exec, lift}
use rport.Security.BanList.{
  BanList, MaxBadAttemptsBanList, add, is_banned, add_bad_attempt, add_success_attempt,
}
use rport.ClientAuth.Model.{ClientAuth, Error}

pub data AuthError : Type 0 where
  too_many_requests invalid_authentication : AuthError
  provider_failed : Error → AuthError

-- What a connection changes of `ClientListener`.
pub record ClientListener : Type 0 where
  pub banned_client_auths : BanList
  pub banned_ips : Option MaxBadAttemptsBanList

abbrev pub Call : Type 0 → Type 0
Call = Exec AuthError ClientListener

abbrev pub bad_attempt : String → ℕ → Option MaxBadAttemptsBanList → Option MaxBadAttemptsBanList
bad_attempt ip now none = none
bad_attempt ip now (some l) = some (add_bad_attempt l ip now)

abbrev pub success_attempt : String → Option MaxBadAttemptsBanList → Option MaxBadAttemptsBanList
success_attempt ip none = none
success_attempt ip (some l) = some (add_success_attempt l ip)

abbrev pub login_failed : ℕ → String → String → Call (Unit {0})
login_failed now client_auth_id ip cl = (
  err invalid_authentication,
  record {
    banned_client_auths = add cl.banned_client_auths client_auth_id now;
    banned_ips = bad_attempt ip now cl.banned_ips;
  },
)

abbrev pub logged_in : String → Call (Unit {0})
logged_in ip cl = (ok tt, record cl { banned_ips = success_attempt ip cl.banned_ips })

abbrev pub check_password : ℕ → String → String → String → Option ClientAuth → Call (Unit {0})
check_password now client_auth_id ip password none = login_failed now client_auth_id ip
check_password now client_auth_id ip password (some a) =
    if not (str_eq a.password password) then login_failed now client_auth_id ip else logged_in ip

abbrev pub check_answer :
    ℕ → String → String → String → Result Error (Option ClientAuth) → Call (Unit {0})
check_answer now client_auth_id ip password (err e) = lift (err (provider_failed e))
check_answer now client_auth_id ip password (ok o) = check_password now client_auth_id ip password o

-- `get` is the provider's.
unfoldable pub auth_user :
    (String → Result Error (Option ClientAuth)) → ℕ → String → String → String → Call (Unit {0})
unfolding add_bad_attempt add_success_attempt
auth_user get now client_auth_id ip password cl =
    if is_banned cl.banned_client_auths client_auth_id now
    then (err too_many_requests, cl)
    else check_answer now client_auth_id ip password (get client_auth_id) cl

-- `new_id`: what `NewClientID` draws, or fails to.
unfoldable pub get_cid : String → Bool → Bool → String → Option String → Option String
get_cid req_id auth_multiuse_creds equate_ids client_auth_id new_id =
    if not (str_eq req_id "")
    then some req_id
    else if not auth_multiuse_creds && equate_ids
    then some client_auth_id
    else new_id

-- The stored credentials of an id have the password.
pub record HasPassword (answer : Result Error (Option ClientAuth)) (password : String)
    : Type 0 where
  pub kept : ClientAuth
  pub answered : answer ≡ ok (some kept)
  pub same : kept.password ≡ password

check_answer_lem :
    (now : ℕ) (client_auth_id ip password : String) (answer : Result Error (Option ClientAuth))
    (cl : ClientListener)
    → (check_answer now client_auth_id ip password answer cl).0 ≡ ok tt
    → HasPassword answer password
check_answer_lem now client_auth_id ip password (err e) cl passed = absurd (ground arith)
check_answer_lem now client_auth_id ip password (ok none) cl passed = absurd (ground arith)
check_answer_lem now client_auth_id ip password (ok (some a)) cl passed = record {
  kept = a;
  answered = refl;
  same = ground (arith, eq_iff a.password password);
}

-- A connection is let in exactly if its credentials' id is not banned and the provider answers with
-- credentials that have the given password.
pub auth_user_iff :
    (get : String → Result Error (Option ClientAuth)) (now : ℕ)
    (client_auth_id ip password : String) (cl : ClientListener)
    → ((auth_user get now client_auth_id ip password cl).0 ≡ ok tt) ↔ (
        (is_banned cl.banned_client_auths client_auth_id now ≡ false)
        × HasPassword (get client_auth_id) password)
unfolding auth_user
auth_user_iff get now client_auth_id ip password cl = (
  λ passed.
      let free : is_banned cl.banned_client_auths client_auth_id now ≡ false = ground arith in
      (
        free,
        check_answer_lem now client_auth_id ip password (get client_auth_id) cl (ground arith),
      ),
  λ (free, has).
      rw free (rw has.answered (ground (arith, has.same, eq_iff has.kept.password password))),
)
