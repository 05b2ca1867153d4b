-- ===== src/ClientConfig.antt =====
-- client/config.go: what a client makes of its configuration before it starts. The packages net/url,
-- net/http and regexp are parameters; texts of errors are shortened, and the directory of scripts is only looked at for the log.
pub mod Usable
use Prim.Native.Char.{Char, code}
use Prim.Native.String.{◌++◌ as concat}
use rport.Prelude.{
  ℕ, ◌*◌, String, Bool, true, false, not, ◌&&◌, ◌||◌, Option, none, some, List, [], ◌∷◌, str_eq,
  ◌==◌, leb, ltb, if◌then◌else◌, is_empty,
}
use rport.Text.{trim_space, contains}
use rport.Result.{Result, ok, err, and_then, refuse_if, map_err, each}
use rport.Dict.{Dict, insert, has_key}
use rport.Remote.{Remote}
use rport.Commands.{Regexp, Order, allow_deny, deny_allow, other_order, RemoteCommands}
use rport.Users.Service.{replace_one}
use rport.Prelude.{ℤ, pos, negsuc}

pub record Url : Type 0 where
  pub scheme : String
  pub host : String
  pub rest : String

-- The packages: `http.CanonicalHeaderKey`, `url.Parse`, `URL.String`, `regexp.Compile`, and the parser of
-- tunnels.
pub record Packages : Type 0 where
  pub canonical : String → String
  pub parse : String → Result String Url
  pub url_string : Url → String
  pub compile : String → Result String Regexp
  pub decode_remote : String → Result String Remote

-- The configuration as it is read; durations are in nanoseconds.
pub record RawConfig : Type 0 where
  pub server : String
  pub fallback_servers : List String
  pub proxy : String
  pub headers_raw : List String
  pub hostname : String
  pub remotes : List String
  pub auth : String
  pub data_dir : String
  pub max_retry_interval : ℤ
  pub send_back_limit : ℤ
  pub allow : List String
  pub deny : List String
  pub order : String × String
  pub commands_enabled : Bool
  pub scripts_enabled : Bool

-- What `ParseAndValidate` makes of it.
pub record Config : Type 0 where
  pub headers : Dict String
  pub server : String
  pub fallback_servers : List String
  pub proxy_url : Option Url
  pub remotes : List Remote
  pub max_retry_interval : ℕ
  pub remote_commands : RemoteCommands
  pub send_back_limit : ℕ
  pub auth_user : String
  pub auth_pass : String

-- A text up to the first colon, of code 58, and the rest.
abbrev pub behind : Char → Option (String × String) → Option (String × String)
behind c none = none
behind c (some (front, back)) = some (String.◌∷◌ c front, back)

unfoldable pub cut_colon : String → Option (String × String)
cut_colon String.[] = none
cut_colon (String.◌∷◌ c s) =
    let rest = cut_colon s in if code c == 58 then some ("", s) else behind c rest

abbrev pub trimmed_value : String → Option (String × String) → Result String (String × String)
trimmed_value h none = err (concat "invalid header " h)
trimmed_value h (some (name, content)) = ok (name, trim_space content)

unfoldable pub parse_header : String → Result String (String × String)
unfolding cut_colon trim_space
parse_header h = trimmed_value h (cut_colon h)

abbrev pub pair_or_empty : Option (String × String) → String × String
pair_or_empty none = ("", "")
pair_or_empty (some pair) = pair

-- `chshare.ParseAuth`
unfoldable pub parse_auth : String → String × String
unfolding cut_colon
parse_auth auth = pair_or_empty (cut_colon auth)

-- The regular expression `:\d+$`.
abbrev pub is_digit : ℕ → Bool
is_digit c = leb 48 c && leb c 57

abbrev pub all_digits : String → Bool
all_digits String.[] = true
all_digits (String.◌∷◌ c s) = is_digit (code c) && all_digits s

abbrev pub is_port : String → Bool
is_port s = not (str_eq s "") && all_digits s

unfoldable pub ends_in_port : String → Bool
ends_in_port String.[] = false
ends_in_port (String.◌∷◌ c s) = (code c == 58 && is_port s) || ends_in_port s

abbrev pub default_port : String → String
default_port scheme = if str_eq scheme "https" || str_eq scheme "wss" then ":443" else ":80"

abbrev pub with_port : Url → Url
with_port u =
    if ends_in_port u.host then u else record u { host = concat u.host (default_port u.scheme) }

abbrev pub to_websocket : Url → Url
to_websocket u = record u { scheme = replace_one u.scheme "http" "ws" }

abbrev pub second : ℕ
second = 1000000000

abbrev pub parse_limit : ℤ → Result String ℕ
parse_limit (pos n) = ok n
parse_limit (negsuc n) = err "send back limit can not be negative"

abbrev pub order_of : String × String → Order
order_of (first, then_) =
    if str_eq first "allow" && str_eq then_ "deny"
    then allow_deny
    else if str_eq first "deny" && str_eq then_ "allow"
    then deny_allow
    else other_order

abbrev pub valid_order : Order → Result String Order
valid_order allow_deny = ok allow_deny
valid_order deny_allow = ok deny_allow
valid_order other_order = err "invalid order"

unfoldable pub parse_remote_scripts : Bool → RawConfig → Result String (Unit {0})
parse_remote_scripts skip_validation raw =
    if skip_validation
    then ok tt
    else refuse_if (raw.scripts_enabled && not raw.commands_enabled)
        "remote scripts execution requires remote commands to be enabled"

abbrev pub require_data_dir : String → Result String (Unit {0})
require_data_dir data_dir = refuse_if (str_eq data_dir "") "'data directory path' cannot be empty"

abbrev pub retry_interval : ℤ → ℕ
retry_interval (pos n) = if ltb n second then 300 * second else n
retry_interval (negsuc n) = 300 * second

module _ (p : Packages) where
  unfoldable pub parse_url : String → Result String String
  unfolding contains ends_in_port
  parse_url s =
      and_then (p.parse (if contains s "://" then s else concat "http://" s))
        λ u. ok (p.url_string (to_websocket (with_port u)))

  abbrev pub set_headers : List (String × String) → Dict String → Dict String
  set_headers [] headers = headers
  set_headers ((name, value) ∷ more) headers =
      set_headers more (insert (p.canonical name) value headers)

  abbrev pub set_unless : Bool → String → String → Dict String → Dict String
  set_unless present name value headers =
      if present then headers else insert (p.canonical name) value headers

  -- The name of the program stands in for a missing user agent.
  unfoldable pub parse_headers : String → List String → String → Result String (Dict String)
  unfolding parse_header
  parse_headers agent raw hostname = and_then (each parse_header raw) λ pairs.
      let headers = set_unless (str_eq hostname "") "Host" hostname (set_headers pairs []) in
      ok (set_unless (has_key (p.canonical "User-Agent") headers) "User-Agent" agent headers)

  abbrev pub parse_server_url : String → Result String String
  parse_server_url server =
      if str_eq server ""
      then err "server address is required"
      else map_err (concat "invalid server address: ") (parse_url server)

  abbrev pub parse_fallback_server : String → Result String String
  parse_fallback_server s = map_err (concat "invalid fallback server address: ") (parse_url s)

  abbrev pub parse_proxy_url : String → Result String (Option Url)
  parse_proxy_url proxy =
      if str_eq proxy ""
      then ok none
      else and_then (map_err (concat "invalid proxy URL: ") (p.parse proxy)) λ u. ok (some u)

  abbrev pub parse_remote : String → Result String Remote
  parse_remote s =
      map_err (λ e. concat "failed to decode remote " (concat s (concat ": " e)))
        (p.decode_remote s)

  abbrev pub compile_regexp : String → Result String Regexp
  compile_regexp s =
      map_err (λ e. concat "invalid regular expression " (concat s (concat ": " e))) (p.compile s)

  -- `parseRemoteCommands`: the limit, the two lists of expressions, and then the order.
  unfoldable pub parse_remote_commands : RawConfig → Result String (ℕ × RemoteCommands)
  parse_remote_commands raw = and_then (parse_limit raw.send_back_limit) λ limit.
      and_then (map_err (concat "allow regexp: ") (each compile_regexp raw.allow)) λ allow.
        and_then (map_err (concat "deny regexp: ") (each compile_regexp raw.deny)) λ deny.
          and_then (valid_order (order_of raw.order))
            λ order. ok (limit, record { allow_regexp = allow; deny_regexp = deny; order = order })

  unfoldable pub parse_and_validate : String → Bool → RawConfig → Result String Config
  unfolding parse_url parse_headers parse_remote_commands parse_auth parse_remote_scripts
  parse_and_validate agent skip_validation raw =
      and_then (parse_headers agent raw.headers_raw raw.hostname) λ headers.
        and_then (parse_server_url raw.server) λ server.
          and_then (each parse_fallback_server raw.fallback_servers) λ fallback_servers.
            and_then (parse_proxy_url raw.proxy) λ proxy_url.
              and_then (each parse_remote raw.remotes) λ remotes.
                and_then (require_data_dir raw.data_dir) λ u.
                  and_then (map_err (concat "remote commands: ") (parse_remote_commands raw))
                    λ commands. and_then (parse_remote_scripts skip_validation raw) λ v.
                      ok (record {
                        headers = headers;
                        server = server;
                        fallback_servers = fallback_servers;
                        proxy_url = proxy_url;
                        remotes = remotes;
                        max_retry_interval = retry_interval raw.max_retry_interval;
                        remote_commands = commands.1;
                        send_back_limit = commands.0;
                        auth_user = (parse_auth raw.auth).0;
                        auth_pass = (parse_auth raw.auth).1;
                      })
