-- ===== src/Tests/ClientRuns.antt =====
-- Runs of the client service: a client connects, is lost, comes back, and is deleted.
use rport.Prelude.{
  ℕ, String, true, false, none, some, inl, inr, ap, arith, str_eq, [], ◌∷◌, ◌≡◌, refl, ◌==◌,
  if◌then◌else◌, ◌⊎◌, ◌↔◌, All,
}
use rport.Result.{ok, err, is_ok}
use rport.Dict.{lookup, insert, remove}
use rport.Users.Model.{User, entries, is_admin}
use rport.Remote.{Remote, remote_string, remote_address, equals}
use rport.Ports.{refresh, get_random_port}
use rport.Clients.Acl.{Net, parse_tunnel_acl}
use rport.Clients.Groups.{matches_lower, in_order}
use rport.Text.{split, contains_rune, has_suffix}
use rport.Clients.Model.{
  Client, Machine, obsolete, has_access, find_tunnel_by_remote, remove_tunnel_by_id,
}
use rport.Clients.Reestablish.{mark_first, mark_all, left_over, get_tunnels_to_reestablish}
use rport.Clients.Repository.{
  ClientProvider, Error, ClientRepository, save, delete, delete_obsolete, without_obsolete,
  obsolete_ones, get_by_id, get_active_by_id, get_all, assign, get_all_by_client_auth_id,
  client_id_in_use,
}
use rport.Clients.Service.{
  check_clients_access, terminate, set_acl, get_existing_by_id, is_client_auth_id_in_use,
}
use rport.Clients.Start.{
  Strconv, natural, Env, ConnectionRequest, ClientService, check_local_port, choose_port,
  start_tunnel, start_one, start_all, start_client_tunnels, start_client,
}
use rport.Clients.Access.{IsShared, check_clients_access_iff}
use rport.Clients.Obsolete.{answers-delete_obsolete}
use rport.Clients.Lifecycle.{start_client-found}
use rport.Clients.Refusal.{IsRival, start_client_refused}
use rport.Clients.Deletion.{terminate_deleted}
use rport.Clients.Tunnels.{active_connections, terminate_tunnel, start_client_tunnels_and_save}
use rport.Remote.Decode.{all_digits, decode_parts, decode_remote}
use rport.Tests.ListSets.{list_set, some_ports}

unfoldable pub clients : Unit {0}
unfolding remote_string remote_address equals refresh get_random_port parse_tunnel_acl obsolete
    has_access find_tunnel_by_remote mark_first mark_all left_over get_tunnels_to_reestablish save
    delete delete_obsolete without_obsolete obsolete_ones get_by_id get_active_by_id get_all assign
    get_all_by_client_auth_id check_clients_access terminate set_acl get_existing_by_id
    is_client_auth_id_in_use check_local_port choose_port start_tunnel start_one start_all
    start_client_tunnels start_client lookup insert remove is_admin matches_lower in_order split
    contains_rune has_suffix
clients = tt

unfoldable pub tunnel_runs : Unit {0}
unfolding clients all_digits decode_parts decode_remote remove_tunnel_by_id terminate_tunnel
    start_client_tunnels_and_save
tunnel_runs = tt

pattern_tests :
    (matches_lower "web*" "web01" ≡ true)
    × (matches_lower "w*b*1" "web01" ≡ true)
    × (matches_lower "ab*ba" "aba" ≡ false)
    × (matches_lower "web" "web1" ≡ false)
unfolding clients
pattern_tests = (refl, refl, refl, refl)

abbrev pub no_storage : ClientProvider
no_storage = record {
  Store = Unit {0};
  save = λ c st. (true, st);
  delete = λ id st. (true, st);
  delete_obsolete = λ now st. (true, st);
}

abbrev pub no_net : Net
no_net = record {
  Ip = Unit {0};
  IpNet = Unit {0};
  parse_cidr = λ s. none;
  parse_ip = λ s. none;
  has_to4 = λ ip. true;
  single = λ ip. ip;
  contains = λ n ip. true;
}

abbrev digit : ℕ → String
digit n = if n == 3 then "3" else "1"

abbrev pub digits : Strconv
digits = record { atoi = λ s. some (natural 3); itoa = digit }

abbrev machine : Machine
machine = record {
  name = "m";
  os = "";
  os_arch = "";
  os_family = "";
  os_kernel = "";
  os_full_name = "";
  os_version = "";
  os_virtualization_system = "";
  os_virtualization_role = "";
  cpu_family = "";
  cpu_model = "";
  cpu_model_name = "";
  cpu_vendor = "";
  num_cpus = 2;
  memory_total = 8;
  timezone = "";
  hostname = "h";
  ipv4 = [];
  ipv6 = [];
  tags = [];
  version = "0.5";
}

abbrev ssh_remote : Remote
ssh_remote = record {
  local_host = "";
  local_port = "";
  remote_host = "0.0.0.0";
  remote_port = "22";
  local_port_random = false;
  scheme = none;
  acl = none;
  idle_timeout_minutes = 0;
}

abbrev old_remote : Remote
old_remote = record ssh_remote {
  local_host = "0.0.0.0";
  local_port = "3";
  local_port_random = true;
}

abbrev pub lost : Client
lost = record {
  object = 1;
  id = "c1";
  machine = machine;
  address = "10.0.0.1";
  tunnels = record { remote = old_remote; id = "1" } ∷ [];
  disconnected_at = some 5;
  client_auth_id = "a1";
  allowed_user_groups = "ops" ∷ [];
  updates_status = none;
  tunnel_id_auto_increment = 1;
}

abbrev repo : ClientRepository no_storage
repo = record { clients = ("c1", lost) ∷ []; keep_lost_clients = some 10; store = tt }

abbrev pub service : ClientService no_storage list_set no_net digits
service = record { repo = repo; port_distributor = some_ports }

abbrev pub at_seven : Env list_set
at_seven = record {
  now = 7;
  busy = some [];
  listens = λ r. true;
  client_host = some "10.0.0.2";
  new_object = 2;
}

abbrev req : ConnectionRequest
req = record { machine = machine; remotes = ssh_remote ∷ [] }

abbrev back : ClientService no_storage list_set no_net digits
back = (start_client no_storage list_set no_net digits at_seven "a1" "c1" false req service).1

abbrev back_client : Client
back_client = record lost {
  object = 2;
  address = "10.0.0.2";
  tunnels = record { remote = old_remote; id = "1" } ∷ [];
  disconnected_at = none;
  allowed_user_groups = [];
}

start_client-found_example :
    (lookup "c1" back.repo.clients ≡ some back_client)
    × (back_client.disconnected_at ≡ none)
    × (back_client.client_auth_id ≡ "a1")
    × (back_client.allowed_user_groups ≡ [])
unfolding clients
start_client-found_example =
    start_client-found no_storage list_set no_net digits at_seven "a1" "c1" req false service back
      back_client refl

refused_tests :
    ((start_client no_storage list_set no_net digits at_seven "a1" "c1" false req back).0
      ≡ err (client_id_in_use "c1"))
    × (is_ok (start_client no_storage list_set no_net digits at_seven "a1" "c2" false req back).0
        ≡ false)
unfolding clients
refused_tests = (refl, refl)

back_client-IsRival : IsRival no_storage list_set no_net digits 7 "a1" "c2" back.repo back_client
unfolding clients
back_client-IsRival = record {
  kept = inl refl;
  current = refl;
  same_auth_id = refl;
  another = λ same. absurd (ground (arith, ap (λ t. str_eq t "c2") same));
}

start_client_refused_example :
    (why : Error) × (start_client no_storage list_set no_net digits at_seven "a1" "c2" false req
        back
      ≡ (err why, back))
unfolding clients
start_client_refused_example =
    start_client_refused no_storage list_set no_net digits at_seven "a1" "c2" false req back
      back_client (inr (refl, back_client-IsRival))

abbrev ops : User
ops = record {
  username = "ann";
  password = "";
  groups = some ("ops" ∷ []);
  two_fa_send_to = "";
  token = none;
}

check_clients_access_iff_example :
    (check_clients_access (lost ∷ []) ops ≡ ok tt)
    ↔ ((is_admin ops ≡ true) ⊎ All (IsShared (entries ops.groups)) (lost ∷ []))
check_clients_access_iff_example = check_clients_access_iff (lost ∷ []) ops

abbrev swept : ClientRepository no_storage
swept = (delete_obsolete no_storage 20 repo).1

answers-delete_obsolete_example :
    ((id : String) → get_by_id no_storage 20 id swept ≡ get_by_id no_storage 20 id repo)
    × ((id : String) → get_active_by_id no_storage id swept ≡ get_active_by_id no_storage id repo)
    × (get_all no_storage 20 swept ≡ get_all no_storage 20 repo)
    × All (λ c. obsolete (some 10) 20 c ≡ true) (lost ∷ [])
unfolding clients
answers-delete_obsolete_example =
    answers-delete_obsolete no_storage 20 repo swept (lost ∷ []) refl refl

terminate_deleted_example :
    lookup "c1" (terminate no_storage 8 9 lost (record repo { clients = [] })).1.clients ≡ none
unfolding clients
terminate_deleted_example =
    terminate_deleted no_storage lost 8 9 (record repo { clients = [] }) refl

abbrev opened_up : ClientRepository no_storage
opened_up = (set_acl no_storage 7 "c1" ("dev" ∷ []) repo).1

abbrev own_port : Remote
own_port = record ssh_remote { local_host = "127.0.0.1"; local_port = "3" }

tunnel_tests :
    (decode_remote (λ s. true) "3000:example.com:22"
      ≡ ok (record ssh_remote {
        local_host = "0.0.0.0";
        local_port = "3000";
        remote_host = "example.com";
      }))
    × (is_ok (decode_remote (λ s. true) "example.com") ≡ false)
    × (is_ok (decode_remote (λ s. true) "1:2:3:4:5") ≡ false)
    × ((terminate_tunnel (record { remote = old_remote; id = "1" }) false 2 lost).0
        ≡ err (active_connections 2))
    × ((terminate_tunnel (record { remote = old_remote; id = "1" }) true 2 lost).1.tunnels ≡ [])
    × (is_ok
          (start_client_tunnels_and_save no_storage list_set no_net digits at_seven lost
            (own_port ∷ [])
            service).0
        ≡ true)
unfolding tunnel_runs
tunnel_tests = (refl, refl, refl, refl, refl, refl)
