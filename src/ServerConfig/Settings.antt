-- ===== src/ServerConfig/Settings.antt =====
-- server/config.go: the settings, and the checks of them that need nothing else.
use Prim.Native.String.{◌++◌ as concat, len, slice}
use rport.Prelude.{
  ℕ, ◌*◌, String, Bool, false, not, ◌&&◌, ◌||◌, Option, List, str_eq, ◌==◌, leb, if◌then◌else◌,
}
use rport.Text.{has_prefix}
use rport.Result.{Result, ok, err, refuse_if}
use rport.Commands.{Regexp}
use rport.Clients.Start.{Number}
use rport.Ports.{MapSet}
use rport.Ports.Ranges.{Building}
use rport.Prelude.{ℤ, pos, negsuc}
use rport.ClientConfig.{parse_auth, second}

pub record ServerConfig : Type 0 where
  pub listen_address : String
  pub url : String
  pub auth : String
  pub auth_file : String
  pub auth_table : String
  pub used_ports_raw : List String
  pub excluded_ports_raw : List String
  pub data_dir : String
  pub keep_lost_clients : ℤ

pub record ApiConfig : Type 0 where
  pub address : String
  pub auth : String
  pub auth_file : String
  pub auth_user_table : String
  pub auth_group_table : String
  pub jwt_secret : String
  pub doc_root : String
  pub cert_file : String
  pub key_file : String
  pub two_fa_token_delivery : String
  pub two_fa_send_to_type : String
  pub two_fa_send_to_regex : String

pub record DatabaseConfig : Type 0 where
  pub db_type : String
  pub host : String
  pub user : String
  pub password : String
  pub name : String

pub record RawConfig : Type 0 where
  pub server : ServerConfig
  pub api : ApiConfig
  pub database : DatabaseConfig

-- The packages, and what the world answers: the host of a URL, a pair of key files, the random
-- source, the path of an executable, and the checks of the settings of Pushover and of SMTP.
pub record World : Type 1 where
  pub set : MapSet
  pub building : Building set
  pub cardinality : set.Set → ℕ
  pub atoi : String → Option Number
  pub url_host : String → Result String String
  pub compile : String → Result String Regexp
  pub load_key_pair : String → String → Result String (Unit {0})
  pub new_secret : Result String String
  pub is_executable : String → Bool
  pub pushover_validate : Result String (Unit {0})
  pub smtp_validate : Result String (Unit {0})

abbrev pub is_set : String → Bool
is_set s = not (str_eq s "")

abbrev pub min_keep_lost_clients : ℕ
min_keep_lost_clients = second

abbrev pub max_keep_lost_clients : ℕ
max_keep_lost_clients = 7 * 86400 * second

abbrev pub is_kept_time : ℤ → Bool
is_kept_time (pos n) = n == 0 || (leb min_keep_lost_clients n && leb n max_keep_lost_clients)
is_kept_time (negsuc n) = false

abbrev pub require_kept_time : ℤ → Result String (Unit {0})
require_kept_time n = refuse_if (not (is_kept_time n)) "'Keep Lost Clients' out of range"

-- `parseAndValidateClientAuth`: the id and the password, if they are given here.
abbrev pub require_pair : String × String → Result String (String × String)
require_pair (id, password) =
    if str_eq id "" || str_eq password ""
    then err "invalid client auth credentials"
    else ok (id, password)

unfoldable pub parse_and_validate_client_auth : RawConfig → Result String (String × String)
unfolding parse_auth
parse_and_validate_client_auth c =
    let s = c.server in
    if str_eq s.auth "" && str_eq s.auth_file "" && str_eq s.auth_table ""
    then err "client authentication must be enabled"
    else if is_set s.auth_file && is_set s.auth
    then err "'auth_file' and 'auth' are both set"
    else if is_set s.auth_file && is_set s.auth_table
    then err "'auth_file' and 'auth_table' are both set"
    else if is_set s.auth && is_set s.auth_table
    then err "'auth' and 'auth_table' are both set"
    else if is_set s.auth_table && str_eq c.database.db_type ""
    then err "'db_type' must be set when 'auth_table' is set"
    else if is_set s.auth
    then require_pair (parse_auth s.auth)
    else ok ("", "")

unfoldable pub parse_and_validate_api_auth : RawConfig → Result String (Unit {0})
parse_and_validate_api_auth c =
    let a = c.api in
    if str_eq a.auth_file "" && str_eq a.auth "" && str_eq a.auth_user_table ""
    then err "authentication must be enabled"
    else if is_set a.auth_file && is_set a.auth
    then err "'auth_file' and 'auth' are both set"
    else if is_set a.auth_user_table && is_set a.auth
    then err "'auth_user_table' and 'auth' are both set"
    else if is_set a.auth_user_table && is_set a.auth_file
    then err "'auth_user_table' and 'auth_file' are both set"
    else if is_set a.auth_user_table && str_eq a.auth_group_table ""
    then err "'auth_group_table' must be set as well"
    else if is_set a.auth_user_table && str_eq c.database.db_type ""
    then err "'db_type' must be set when 'auth_user_table' is set"
    else ok tt

-- `DatabaseConfig.ParseAndValidate`: the driver and the data source. `socket:` has seven characters.
abbrev pub mysql_user : DatabaseConfig → String
mysql_user d =
    if str_eq d.user ""
    then ""
    else concat d.user (concat (if str_eq d.password "" then "" else concat ":" d.password) "@")

abbrev pub mysql_host : String → String
mysql_host host =
    if str_eq host ""
    then ""
    else if has_prefix host "socket:"
    then concat "unix(" (concat (slice host 7 (len host)) ")")
    else concat "tcp(" (concat host ")")

unfoldable pub parse_and_validate_database : DatabaseConfig → Result String (String × String)
unfolding has_prefix
parse_and_validate_database d =
    if str_eq d.db_type ""
    then ok ("", "")
    else if str_eq d.db_type "mysql"
    then ok ("mysql", concat (mysql_user d) (concat (mysql_host d.host) (concat "/" d.name)))
    else if str_eq d.db_type "sqlite"
    then ok ("sqlite3", d.name)
    else err "invalid 'db_type'"
