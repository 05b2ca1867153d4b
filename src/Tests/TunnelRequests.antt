-- ===== src/Tests/TunnelRequests.antt =====
-- Runs of the requests that start and end a tunnel.
use rport.Prelude.{true, false, none, some, [], ◌∷◌, ◌≡◌, refl, str_eq, if◌then◌else◌}
use rport.Result.{ok, err}
use rport.Remote.{Remote}
use rport.Validation.{resolve_idle_tunnel_timeout_value}
use rport.Clients.Model.{Client, Tunnel, find_tunnel}
use rport.Clients.Repository.{get_active_by_id}
use rport.Clients.Start.{ClientService}
use rport.Clients.Requests.{
  not_found, conflict, tunnel_exist, Query, Packages, is_open, requested_remote, refuse_existing,
  start_tunnels, handle_put_client_tunnel, handle_delete_client_tunnel,
}
use rport.Clients.Asked.{IsAskedFor, IsFresh, handle_put_client_tunnel_safe}
use rport.Tests.ListSets.{list_set}
use rport.Tests.ClientRuns.{
  clients, tunnel_runs, no_storage, no_net, digits, lost, service, at_seven,
}

tunnel_requests : Unit {0}
unfolding clients tunnel_runs resolve_idle_tunnel_timeout_value requested_remote refuse_existing
    find_tunnel handle_put_client_tunnel handle_delete_client_tunnel
tunnel_requests = tt

abbrev lib : Packages
lib = record {
  is_host = λ s. true;
  parse_bool = λ s. if str_eq s "" then none else some (str_eq s "true");
  int_bits = λ s. none;
}

abbrev query : Query
query = record {
  local = "0.0.0.0:3";
  remote = "example.com:22";
  idle_timeout_minutes = "";
  skip_idle_timeout = "";
  acl = "";
  scheme = "ssh";
  check_port = "0";
}

abbrev connected : Client
connected = record lost { disconnected_at = none; tunnels = [] }

abbrev online : ClientService no_storage list_set no_net digits
online = record service {
  repo = record { clients = ("c1", connected) ∷ []; keep_lost_clients = none; store = tt };
}

abbrev with_tunnel : ClientService no_storage list_set no_net digits
with_tunnel =
    (handle_put_client_tunnel no_storage list_set no_net digits lib at_seven (is_open true) "c1"
      query online).1

abbrev tunnel : Tunnel
tunnel = record {
  remote = record {
    local_host = "0.0.0.0";
    local_port = "3";
    remote_host = "example.com";
    remote_port = "22";
    local_port_random = false;
    scheme = some "ssh";
    acl = none;
    idle_timeout_minutes = 5;
  };
  id = "1";
}

request_tests :
    ((handle_put_client_tunnel no_storage list_set no_net digits lib at_seven
        (is_open true)
        "c1"
        query
        online).0
      ≡ ok (tunnel ∷ []))
    × ((handle_put_client_tunnel no_storage list_set no_net digits lib at_seven
          (is_open true)
          "c1"
          query
          with_tunnel).0
        ≡ err tunnel_exist)
    × ((handle_delete_client_tunnel no_storage list_set no_net digits lib 1 "c1" "1" ""
          with_tunnel).0
        ≡ err conflict)
    × ((handle_delete_client_tunnel no_storage list_set no_net digits lib 1 "c1" "1" "true"
          with_tunnel).0
        ≡ ok tt)
    × ((handle_delete_client_tunnel no_storage list_set no_net digits lib 1 "c1" "9" "true"
          with_tunnel).0
        ≡ err not_found)
unfolding tunnel_requests
request_tests = (refl, refl, refl, refl, refl)

handle_put_client_tunnel_safe_example :
    (client : Client) × (r : Remote) × (get_active_by_id no_storage "c1" online.repo ≡ some client)
    × IsAskedFor lib no_net query r
    × IsFresh r client
    × (start_tunnels no_storage list_set no_net digits lib at_seven client r online
        ≡ (ok (tunnel ∷ []), with_tunnel))
unfolding tunnel_requests
handle_put_client_tunnel_safe_example =
    handle_put_client_tunnel_safe no_storage list_set no_net digits lib at_seven (is_open true) "c1"
      query (tunnel ∷ []) online with_tunnel refl
