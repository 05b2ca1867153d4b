-- ===== src/ClientConfig/Usable.antt =====
-- client/config.go: a configuration that passes `ParseAndValidate` is one that the client can work with.
use Prim.Native.String.{◌++◌ as concat}
use mathlib.Core.Path.{subst}
use text.Mathlib.TextLemmas.{nil-append, cons-append}
use rport.Prelude.{
  ℕ, String, Bool, true, false, not, ◌||◌, ◌∷◌, ◌≡◌, refl, arith, ap, sym, ◌∙◌, ◌⊎◌, inl, inr, All,
  Bool-cases, leb, str_eq, either, if◌then◌else◌,
}
use rport.Result.{
  Result, ok, err, and_then_ok, map_err, map_err_ok, each, each-All, value_or, is_ok,
}
use rport.Prelude.{ℤ, pos, negsuc}
use rport.Commands.{Order, allow_deny, deny_allow, other_order, RemoteCommands}
use rport.ClientConfig.{
  Url, Packages, RawConfig, Config, ends_in_port, default_port, with_port, to_websocket, second,
  parse_url, parse_headers, parse_server_url, parse_fallback_server, order_of, valid_order,
  parse_limit, parse_proxy_url, parse_remote, compile_regexp, require_data_dir,
  parse_remote_commands, parse_remote_scripts, retry_interval, parse_and_validate,
}

ends_in_port-concat :
    (host port : String) → ends_in_port port ≡ true → ends_in_port (concat host port) ≡ true
unfolding ends_in_port
ends_in_port-concat String.[] port ends = ap ends_in_port (nil-append port) ∙ ends
ends_in_port-concat (String.◌∷◌ c host) port ends =
    ap ends_in_port (cons-append c host port) ∙ ground (arith, ends_in_port-concat host port ends)

-- An address with a port.
abbrev pub IsAddress : Packages → String → Type 0
IsAddress p s = (u : Url) × (ends_in_port u.host ≡ true) × (s ≡ p.url_string u)

default_port-ends : (scheme : String) → ends_in_port (default_port scheme) ≡ true
unfolding ends_in_port
default_port-ends scheme =
    either (λ port. ends_in_port port ≡ true) (str_eq scheme "https" || str_eq scheme "wss") ":443"
      ":80" refl refl

with_port-ends : (u : Url) → ends_in_port (with_port u).host ≡ true
with_port-ends u = elim (Bool-cases (ends_in_port u.host)) [
  | inl has ↦ rw (has, has) refl
  | inr lacks ↦
      rw lacks (ends_in_port-concat u.host (default_port u.scheme) (default_port-ends u.scheme))
]

abbrev invalid_server : String → String
invalid_server = concat "invalid server address: "

module _ (p : Packages) where
  parse_url-IsAddress : (s t : String) → parse_url p s ≡ ok t → IsAddress p t
  unfolding parse_url
  parse_url-IsAddress s t parsed =
      let (u, known, made) = and_then_ok (p.parse _) _ t parsed in
      (to_websocket (with_port u), with_port-ends u, sym (ap (value_or "") made))

  server-IsAddress : (s t : String) → parse_server_url p s ≡ ok t → IsAddress p t
  server-IsAddress s t parsed = elim (Bool-cases (str_eq s "")) [
    | inl empty ↦ absurd (ground (arith, ap is_ok parsed))
    | inr named ↦ parse_url-IsAddress s t (
        map_err_ok invalid_server (parse_url p s) t (
          ap
            (λ b.
              if b
              then err "server address is required"
              else map_err invalid_server (parse_url p s))
            (sym named)
          ∙ parsed))
  ]

  fallback-IsAddress : (s t : String) → parse_fallback_server p s ≡ ok t → IsAddress p t
  fallback-IsAddress s t parsed =
      parse_url-IsAddress s t
        (map_err_ok (concat "invalid fallback server address: ") (parse_url p s) t parsed)

valid_order-decided : (o o' : Order) → valid_order o ≡ ok o' → (o' ≡ allow_deny) ⊎ (o' ≡ deny_allow)
valid_order-decided allow_deny o' done = inl (sym (ap (value_or allow_deny) done))
valid_order-decided deny_allow o' done = inr (sym (ap (value_or allow_deny) done))
valid_order-decided other_order o' done = absurd (ground (arith, ap is_ok done))

abbrev pub IsDecided : Order → Type 0
IsDecided o = (o ≡ allow_deny) ⊎ (o ≡ deny_allow)

commands-IsDecided :
    (p : Packages) (raw : RawConfig) (made : ℕ × RemoteCommands)
    → parse_remote_commands p raw ≡ ok made
    → IsDecided made.1.order
unfolding parse_remote_commands
commands-IsDecided p raw made done =
    let (limit, known_limit, after_limit) =
      and_then_ok (parse_limit raw.send_back_limit) _ made done in
    let (allow, known_allow, after_allow) =
      and_then_ok (map_err (concat "allow regexp: ") (each (compile_regexp p) raw.allow)) _ made
        after_limit in
    let (deny, known_deny, after_deny) =
      and_then_ok (map_err (concat "deny regexp: ") (each (compile_regexp p) raw.deny)) _ made
        after_allow in
    let (order, known_order, last) =
      and_then_ok (valid_order (order_of raw.order)) _ made after_deny in
    subst (λ (r : Result String (ℕ × RemoteCommands)). IsDecided (value_or made r).1.order) last
      (valid_order-decided (order_of raw.order) order known_order)

pub record IsUsable (p : Packages) (skip : Bool) (raw : RawConfig) (c : Config) : Type 0 where
  pub servers : All (IsAddress p) (c.server ∷ c.fallback_servers)
  pub pauses : leb second c.max_retry_interval ≡ true
  pub ordered : IsDecided c.remote_commands.order
  pub scripts : (skip || not raw.scripts_enabled || raw.commands_enabled) ≡ true
  pub kept : not (str_eq raw.data_dir "") ≡ true

pauses_enough : (n : ℤ) → leb second (retry_interval n) ≡ true
pauses_enough (pos n) = ground arith
pauses_enough (negsuc n) = refl

allowed_scripts :
    (skip : Bool) (raw : RawConfig) (u : Unit {0})
    → parse_remote_scripts skip raw ≡ ok u
    → (skip || not raw.scripts_enabled || raw.commands_enabled) ≡ true
unfolding parse_remote_scripts
allowed_scripts true raw u done = refl
allowed_scripts false raw u done = ground (arith, ap is_ok done)

kept_data :
    (raw : RawConfig) (u : Unit {0})
    → require_data_dir raw.data_dir ≡ ok u
    → not (str_eq raw.data_dir "") ≡ true
kept_data raw u done = ground (arith, ap is_ok done)

-- A configuration that the validation accepts has a server and fallback servers whose addresses name a
-- port, an upper limit of at least a second for the pauses between retries, one of the two orders of the rules for
-- commands, and a data directory; unless their validation is skipped, scripts are enabled only with
-- commands.
pub parse_and_validate-IsUsable :
    (p : Packages) (agent : String) (skip : Bool) (raw : RawConfig) (c : Config)
    → parse_and_validate p agent skip raw ≡ ok c
    → IsUsable p skip raw c
unfolding parse_and_validate
parse_and_validate-IsUsable p agent skip raw c done =
    let (headers, known_headers, after_headers) =
      and_then_ok (parse_headers p agent raw.headers_raw raw.hostname) _ c done in
    let (server, known_server, after_server) =
      and_then_ok (parse_server_url p raw.server) _ c after_headers in
    let (fallbacks, known_fallbacks, after_fallbacks) =
      and_then_ok (each (parse_fallback_server p) raw.fallback_servers) _ c after_server in
    let (proxy, known_proxy, after_proxy) =
      and_then_ok (parse_proxy_url p raw.proxy) _ c after_fallbacks in
    let (remotes, known_remotes, after_remotes) =
      and_then_ok (each (parse_remote p) raw.remotes) _ c after_proxy in
    let (kept, known_kept, after_kept) =
      and_then_ok (require_data_dir raw.data_dir) _ c after_remotes in
    let (commands, known_commands, after_commands) =
      and_then_ok (map_err (concat "remote commands: ") (parse_remote_commands p raw)) _ c
        after_kept in
    let (scripts, known_scripts, last) =
      and_then_ok (parse_remote_scripts skip raw) _ c after_commands in
    subst (λ (r : Result String Config). IsUsable p skip raw (value_or c r)) last
      (record {
        servers = (
          server-IsAddress p raw.server server known_server,
          each-All (IsAddress p) (parse_fallback_server p) (fallback-IsAddress p)
              raw.fallback_servers fallbacks known_fallbacks,
        );
        pauses = pauses_enough raw.max_retry_interval;
        ordered = commands-IsDecided p raw commands (
            map_err_ok (concat "remote commands: ") (parse_remote_commands p raw) commands
              known_commands);
        scripts = allowed_scripts skip raw scripts known_scripts;
        kept = kept_data raw kept known_kept;
      })
