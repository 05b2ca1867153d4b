-- ===== src/Tests/ClientConfigs.antt =====
-- Runs of the validation of a client's configuration.
use Prim.Native.String.{◌++◌ as concat}
use rport.Prelude.{true, false, none, [], ◌∷◌, ◌≡◌, refl}
use rport.Text.{trim_left, trim_right, trim_space, contains, has_prefix}
use rport.Result.{ok, err, is_ok}
use rport.Dict.{insert}
use rport.Commands.{allow_deny}
use rport.Prelude.{pos, negsuc}
use rport.ClientConfig.{
  Packages, RawConfig, Config, cut_colon, parse_header, parse_auth, ends_in_port, parse_url,
  parse_headers, parse_remote_commands, parse_remote_scripts, parse_and_validate,
}
use rport.ClientConfig.Usable.{IsUsable, parse_and_validate-IsUsable}

client_configs : Unit {0}
unfolding trim_left trim_right trim_space contains has_prefix insert cut_colon parse_header
    parse_auth ends_in_port parse_url parse_headers parse_remote_commands parse_remote_scripts
    parse_and_validate
client_configs = tt

-- Every address is of the scheme http, and every expression matches everything.
abbrev toy : Packages
toy = record {
  canonical = λ name. name;
  parse = λ s. ok (record { scheme = "http"; host = s; rest = "" });
  url_string = λ u. concat u.scheme (concat "|" u.host);
  compile = λ s. ok (λ text. true);
  decode_remote = λ s. err "no tunnel";
}

abbrev raw : RawConfig
raw = record {
  server = "http://a:8080";
  fallback_servers = "b" ∷ [];
  proxy = "";
  headers_raw = "X-A: 1 " ∷ [];
  hostname = "";
  remotes = [];
  auth = "ann:x:y";
  data_dir = "/var/lib/rport";
  max_retry_interval = negsuc 0;
  send_back_limit = pos 4096;
  allow = "^ls" ∷ [];
  deny = [];
  order = ("allow", "deny");
  commands_enabled = true;
  scripts_enabled = true;
}

abbrev parsed : Config
parsed = record {
  headers = ("X-A", "1") ∷ ("User-Agent", "rport 1") ∷ [];
  server = "ws|http://a:8080";
  fallback_servers = "ws|http://b:80" ∷ [];
  proxy_url = none;
  remotes = [];
  max_retry_interval = 300000000000;
  remote_commands = record {
    allow_regexp = (λ text. true) ∷ [];
    deny_regexp = [];
    order = allow_deny;
  };
  send_back_limit = 4096;
  auth_user = "ann";
  auth_pass = "x:y";
}

config_tests :
    (parse_and_validate toy "rport 1" false raw ≡ ok parsed)
    × (is_ok (parse_and_validate toy "rport 1" false (record raw { remotes = "x" ∷ [] })) ≡ false)
    × (is_ok (parse_and_validate toy "rport 1" false (record raw { commands_enabled = false }))
        ≡ false)
unfolding client_configs
config_tests = (refl, refl, refl)

parse_and_validate-IsUsable_example : IsUsable toy false raw parsed
unfolding client_configs
parse_and_validate-IsUsable_example =
    parse_and_validate-IsUsable toy "rport 1" false raw parsed refl
