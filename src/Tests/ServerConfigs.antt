-- ===== src/Tests/ServerConfigs.antt =====
-- Runs of the validation of the server's configuration.
use rport.Prelude.{Bool, true, false, not, none, [], ◌∷◌, ◌≡◌, refl, length, arith}
use rport.Text.{split, has_prefix}
use rport.Result.{ok, err, is_ok}
use rport.Ports.Ranges.{try_parse_port_number, add_from, try_parse_port_number_range, parse_from}
use rport.Prelude.{pos}
use rport.ClientConfig.{cut_colon, parse_auth}
use rport.ServerConfig.{
  Config, parse_and_validate_ports, parse_and_validate_2fa, parse_and_validate_api,
  parse_and_validate_config,
}
use rport.ServerConfig.Settings.{
  World, RawConfig, ServerConfig, ApiConfig, DatabaseConfig, parse_and_validate_client_auth,
  parse_and_validate_api_auth, parse_and_validate_database,
}
use rport.ServerConfig.Accepted.{CountsElements, IsAccepted, parse_and_validate_config-IsAccepted}
use rport.Tests.ListSets.{list_set, list_set-IsMapSet}
use rport.Tests.PortRanges.{atoi, list_building, list_building-IsBuilding}

server_configs : Unit {0}
unfolding split has_prefix try_parse_port_number add_from try_parse_port_number_range parse_from
    cut_colon parse_auth parse_and_validate_ports parse_and_validate_client_auth
    parse_and_validate_api_auth parse_and_validate_2fa parse_and_validate_api
    parse_and_validate_database parse_and_validate_config
server_configs = tt

abbrev toy : World
toy = record {
  set = list_set;
  building = list_building;
  cardinality = length;
  atoi = atoi;
  url_host = λ url. ok "host";
  compile = λ s. ok (λ text. true);
  load_key_pair = λ cert key. ok tt;
  new_secret = ok "secret";
  is_executable = λ path. false;
  pushover_validate = ok tt;
  smtp_validate = err "no server";
}

abbrev server : ServerConfig
server = record {
  listen_address = "0.0.0.0:8080";
  url = "";
  auth = "";
  auth_file = "";
  auth_table = "clients";
  used_ports_raw = "3-5" ∷ [];
  excluded_ports_raw = "5" ∷ [];
  data_dir = "/var/lib/rport";
  keep_lost_clients = pos 0;
}

abbrev api : ApiConfig
api = record {
  address = ":3000";
  auth = "";
  auth_file = "users.json";
  auth_user_table = "";
  auth_group_table = "";
  jwt_secret = "";
  doc_root = "";
  cert_file = "";
  key_file = "";
  two_fa_token_delivery = "pushover";
  two_fa_send_to_type = "none";
  two_fa_send_to_regex = "";
}

abbrev database : DatabaseConfig
database = record {
  db_type = "mysql";
  host = "socket:/run/db";
  user = "ann";
  password = "x";
  name = "rport";
}

abbrev raw : RawConfig
raw = record { server = server; api = api; database = database }

abbrev accepted : Config toy
accepted = record {
  url = "http://0.0.0.0:8080";
  allowed_ports = 4 ∷ 3 ∷ [];
  auth_id = "";
  auth_password = "";
  jwt_secret = "secret";
  two_fa_regex = none;
  driver = "mysql";
  dsn = "ann:x@unix(/run/db)/rport";
}

abbrev fails : RawConfig → Bool
fails c = not (is_ok (parse_and_validate_config toy c))

config_tests :
    (parse_and_validate_config toy raw ≡ ok accepted)
    × (fails (record raw { database = record database { db_type = "" } }) ≡ true)
    × (fails (record raw { server = record server { keep_lost_clients = pos 5 } }) ≡ true)
    × (fails (record raw { server = record server { used_ports_raw = "5" ∷ [] } }) ≡ true)
    × (fails (record raw { api = record api { two_fa_token_delivery = "smtp" } }) ≡ true)
unfolding server_configs
config_tests = (refl, refl, refl, refl, refl)

toy-CountsElements : CountsElements toy
toy-CountsElements [] some_one = absurd (ground (arith, some_one))
toy-CountsElements (n ∷ s) some_one = (n, ground arith)

parse_and_validate_config-IsAccepted_example : IsAccepted toy raw accepted
unfolding server_configs
parse_and_validate_config-IsAccepted_example =
    parse_and_validate_config-IsAccepted toy list_set-IsMapSet list_building-IsBuilding
      toy-CountsElements raw accepted refl
