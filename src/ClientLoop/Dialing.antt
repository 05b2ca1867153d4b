-- ===== src/ClientLoop/Dialing.antt =====
-- client/client.go: `verifyServer`, `connect`, `connectToMainOrFallback` and `sendConnectionRequest`.
-- The websocket and SSH libraries are parameters. An error is its text.
use Prim.Native.String.{◌++◌ as concat}
use rport.Prelude.{
  ℕ, suc, String, Bool, true, false, not, ◌&&◌, Option, none, some, List, [], ◌∷◌, str_eq, ◌==◌,
  if◌then◌else◌,
}
use rport.Text.{has_prefix, contains}
use rport.Result.{Result, ok, err, and_then, map_err}

-- `verifyServer`: the fingerprint of the server's key may be given by its beginning.
unfoldable pub verify_server : String → String → Result String (Unit {0})
unfolding has_prefix
verify_server fingerprint got =
    if not (str_eq fingerprint "") && not (has_prefix got fingerprint)
    then err (concat "Invalid fingerprint (" (concat got ")"))
    else ok tt

-- `err.(retryableError)`: the type is an interface, and every error implements it.
abbrev pub is_retryable : String → Bool
is_retryable e = true

pub record Auth : Type 0 where
  pub user : String
  pub password : String

pub record ProxyUrl : Type 0 where
  pub scheme : String
  pub host : String
  pub user : Option Auth

-- How a websocket reaches its server.
pub data Route (Dialer : Type 0) : Type 0 where
  direct : Route Dialer
  through_socks : Dialer → Route Dialer
  through_http : ProxyUrl → Route Dialer

-- The libraries: a SOCKS5 dialer for a proxy, a websocket along a route, and an SSH session over it.
pub record Network : Type 1 where
  pub Dialer : Type 0
  pub Socket : Type 0
  pub Conn : Type 0
  pub socks5 : String → Option Auth → Result String Dialer
  pub dial : Route Dialer → String → Result String Socket
  pub new_client_conn : Socket → Result String Conn

module _ (n : Network) where
  abbrev pub socks_route : ProxyUrl → Result String (Route n.Dialer)
  socks_route proxy =
      if not (str_eq proxy.scheme "socks") && not (str_eq proxy.scheme "socks5h")
      then err (
          concat "unsupported socks proxy type: "
            (concat proxy.scheme ":// (only socks5h:// or socks:// is supported)"))
      else and_then (n.socks5 proxy.host proxy.user) (λ dialer. ok (through_socks dialer))

  unfoldable pub route : Option ProxyUrl → Result String (Route n.Dialer)
  unfolding has_prefix
  route none = ok direct
  route (some proxy) =
      if has_prefix proxy.scheme "socks" then socks_route proxy else ok (through_http proxy)

  -- An error of the handshake is returned as it is, with or without the retryable type.
  unfoldable pub connect : Option ProxyUrl → String → Result String n.Conn
  unfolding route
  connect proxy server =
      and_then (route proxy) λ r. and_then (n.dial r server) λ socket. n.new_client_conn socket

module _ {Conn : Type 0} where
  abbrev pub on_error :
      (String → Result String (Conn × Bool)) → ℕ → Result String Conn → Result String (Conn × Bool)
  on_error next i (ok conn) = ok (conn, i == 0)
  on_error next i (err e) = if is_retryable e then next e else err e

  -- The loop of `connectToMainOrFallback` from the server of index `i`, then the ones after it.
  unfoldable pub try_servers :
      (String → Result String Conn) → ℕ → String → List String → Result String (Conn × Bool)
  try_servers connect i server [] = on_error (λ e. err e) i (connect server)
  try_servers connect i server (next ∷ more) =
      on_error (λ e. try_servers connect (suc i) next more) i (connect server)

  unfoldable pub connect_to_main_or_fallback :
      (String → Result String Conn) → String → List String → Result String (Conn × Bool)
  unfolding try_servers
  connect_to_main_or_fallback connect server fallback_servers =
      try_servers connect 0 server fallback_servers

-- The server's answer to `new_connection`: whether it accepts, and its text.
abbrev pub Reply : Type 0
Reply = Result String (Bool × String)

-- `json` encodes the request and decodes the tunnels of the reply.
pub record Json (Remote : Type 0) : Type 0 where
  pub encoded : Result String String
  pub decode : String → Result String (List Remote)

module _ {Remote : Type 0} (json : Json Remote) where
  abbrev pub accepted : Bool × String → Result String (List Remote)
  accepted (false, msg) = err msg
  accepted (true, bytes) = map_err (concat "can't decode reply payload: ") (json.decode bytes)

  -- A refusal because the client is connected already closes the connection; both refusals return
  -- the server's text.
  unfoldable pub send_connection_request : (String → Reply) → Result String (List Remote)
  send_connection_request send =
      and_then (map_err (concat "Could not encode connection request: ") json.encoded) λ req.
        and_then (map_err (concat "connection request verification failed: ") (send req)) accepted

-- Whether a refusal closes the connection at once.
unfoldable pub closes_connection : Bool × String → Bool
unfolding contains
closes_connection (reply_ok, msg) = not reply_ok && contains msg "client is already connected:"
