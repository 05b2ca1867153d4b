-- ===== src/ServerConfig.antt =====
-- server/config.go: what the server makes of its configuration before it starts. The packages net/url,
-- regexp, crypto/tls, os/exec and golang-set, and the checks that ask a service over the network, are
-- parameters. Texts of errors are shortened.
pub mod Settings
pub mod Accepted
use rport.ServerConfig.Settings.{
  ApiConfig, DatabaseConfig, RawConfig, ServerConfig, World, is_kept_time, is_set,
  max_keep_lost_clients, min_keep_lost_clients, mysql_host, mysql_user, parse_and_validate_api_auth,
  parse_and_validate_client_auth, parse_and_validate_database, require_kept_time, require_pair,
}
use Prim.Native.String.{◌++◌ as concat, len, slice}
use rport.Prelude.{
  ℕ, ◌*◌, String, Bool, true, false, not, ◌&&◌, ◌||◌, Option, none, some, List, str_eq, ◌==◌, leb,
  if◌then◌else◌,
}
use rport.Text.{has_prefix}
use rport.Result.{Result, ok, err, and_then, refuse_if, map_err}
use rport.Commands.{Regexp}
use rport.Clients.Start.{Number}
use rport.Ports.{MapSet}
use rport.Ports.Ranges.{Building, try_parse_port_ranges}
use rport.Prelude.{ℤ, pos, negsuc}
use rport.ClientConfig.{parse_auth, second, require_data_dir}

module _ (w : World) where
  -- What `ParseAndValidate` sets.
  pub record Config : Type 0 where
    pub url : String
    pub allowed_ports : w.set.Set
    pub auth_id : String
    pub auth_password : String
    pub jwt_secret : String
    pub two_fa_regex : Option Regexp
    pub driver : String
    pub dsn : String

  abbrev pub available : w.set.Set → Result String w.set.Set
  available allowed =
      if w.cardinality allowed == 0
      then err "at least one port should be available for port assignment"
      else ok allowed

  unfoldable pub parse_and_validate_ports : ServerConfig → Result String w.set.Set
  parse_and_validate_ports c =
      and_then
        (map_err (λ e. "can't parse 'used_ports'")
          (try_parse_port_ranges w.atoi w.set w.building c.used_ports_raw))
        λ used.
          and_then
            (map_err (λ e. "can't parse 'excluded_ports'")
              (try_parse_port_ranges w.atoi w.set w.building c.excluded_ports_raw))
            λ excluded. available (w.set.difference used excluded)

  abbrev pub parse_and_validate_url : ServerConfig → Result String String
  parse_and_validate_url c =
      let url = if str_eq c.url "" then concat "http://" c.listen_address else c.url in
      and_then (map_err (concat "invalid connection url ") (w.url_host url)) λ host.
        if str_eq host "" then err "invalid connection url: must be absolute url" else ok url

  abbrev pub parse_and_validate_https : ApiConfig → Result String (Unit {0})
  parse_and_validate_https a =
      if str_eq a.cert_file "" && str_eq a.key_file ""
      then ok tt
      else if is_set a.cert_file && str_eq a.key_file ""
      then err "when 'cert_file' is set, 'key_file' must be set as well"
      else if str_eq a.cert_file "" && is_set a.key_file
      then err "when 'key_file' is set, 'cert_file' must be set as well"
      else map_err (concat "invalid 'cert_file', 'key_file': ")
          (w.load_key_pair a.cert_file a.key_file)

  abbrev pub compile_receiver : String → Result String Regexp
  compile_receiver regex = map_err (concat "invalid api.two_fa_send_to_regex: ") (w.compile regex)

  abbrev pub parse_and_validate_send_to_type : ApiConfig → Result String (Option Regexp)
  parse_and_validate_send_to_type a =
      if str_eq a.two_fa_send_to_type "regex"
      then and_then (compile_receiver a.two_fa_send_to_regex) (λ r. ok (some r))
      else if str_eq a.two_fa_send_to_type "none" || str_eq a.two_fa_send_to_type "email"
      then ok none
      else err "invalid api.two_fa_send_to_type"

  unfoldable pub parse_and_validate_2fa : ApiConfig → Result String (Option Regexp)
  parse_and_validate_2fa a =
      if str_eq a.two_fa_token_delivery ""
      then ok none
      else if is_set a.auth
      then err "2FA is not available if you use a single static user-password pair"
      else if str_eq a.two_fa_token_delivery "pushover"
      then and_then w.pushover_validate (λ u. ok none)
      else if str_eq a.two_fa_token_delivery "smtp"
      then and_then w.smtp_validate (λ u. ok none)
      else if w.is_executable a.two_fa_token_delivery
      then parse_and_validate_send_to_type a
      else err "unknown 2fa token delivery method"

  abbrev pub secret_of : ApiConfig → Result String String
  secret_of a = if str_eq a.jwt_secret "" then w.new_secret else ok a.jwt_secret

  abbrev pub parse_and_validate_enabled_api : RawConfig → Result String (String × Option Regexp)
  parse_and_validate_enabled_api c = and_then (parse_and_validate_api_auth c) λ u.
      and_then (parse_and_validate_https c.api) λ v.
        and_then (secret_of c.api)
          λ secret. and_then (parse_and_validate_2fa c.api) λ regex. ok (secret, regex)

  -- The secret of the tokens, and the expression for receivers of codes.
  unfoldable pub parse_and_validate_api : RawConfig → Result String (String × Option Regexp)
  unfolding parse_and_validate_api_auth parse_and_validate_2fa
  parse_and_validate_api c =
      if is_set c.api.address
      then parse_and_validate_enabled_api c
      else if is_set c.api.doc_root
      then err "to use document root you need to specify API address"
      else ok (c.api.jwt_secret, none)

  unfoldable pub parse_and_validate_config : RawConfig → Result String Config
  unfolding parse_and_validate_ports parse_and_validate_client_auth parse_and_validate_api
      parse_and_validate_database
  parse_and_validate_config c = and_then (parse_and_validate_url c.server) λ url.
      and_then (parse_and_validate_ports c.server) λ allowed_ports.
        and_then (require_data_dir c.server.data_dir) λ u.
          and_then (require_kept_time c.server.keep_lost_clients) λ v.
            and_then (parse_and_validate_client_auth c) λ pair.
              and_then (map_err (concat "API: ") (parse_and_validate_api c)) λ api.
                and_then (parse_and_validate_database c.database) λ source. ok (record {
                  url = url;
                  allowed_ports = allowed_ports;
                  auth_id = pair.0;
                  auth_password = pair.1;
                  jwt_secret = api.0;
                  two_fa_regex = api.1;
                  driver = source.0;
                  dsn = source.1;
                })
