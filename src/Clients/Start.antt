-- ===== src/Clients/Start.antt =====
-- server/client_service.go and clients/client.go: a client connects and its tunnels are started. Go's
-- packages `strconv` and `net` and the sets of ports are parameters; the clock does not advance within a
-- call.
use rport.Prelude.{
  ℕ, suc, String, Bool, true, false, not, ◌&&◌, Option, none, some, List, [], ◌∷◌, ◌++◌,
  if◌then◌else◌, map,
}
use rport.Result.{Result, ok, err, and_then, refuse_if}
use rport.Exec.{Exec, pure, lift, reads, ◌>>=◌, ◌>>◌}
use rport.Remote.{Remote, zero_host, is_local_specified}
use rport.Ports.{MapSet, PortDistributor, refresh, get_random_port, is_port_allowed, is_port_busy}
use rport.Clients.Acl.{Net, parse_tunnel_acl}
use rport.Clients.Model.{
  Client, Machine, Tunnel, UpdatesStatus, is_connected, find_tunnel_by_remote,
}
use rport.Clients.Reestablish.{get_tunnels_to_reestablish}
use rport.Clients.Repository.{
  ClientProvider, Error, client_id_in_use, client_auth_id_in_use, bad_address, busy_ports_unknown,
  no_ports_available, invalid_local_port, port_not_allowed, port_in_use, invalid_acl, tunnel_failed,
  ClientRepository, save, get_by_id,
}
use rport.Clients.Service.{is_client_auth_id_in_use}

pub data Number : Type 0 where
  natural : ℕ → Number
  negative : Number

-- `strconv.Atoi` and `strconv.Itoa`
pub record Strconv : Type 0 where
  pub atoi : String → Option Number
  pub itoa : ℕ → String

pub record ConnectionRequest : Type 0 where
  pub machine : Machine
  pub remotes : List Remote

-- The answers that one call gets: the busy ports, `net.Listen` for a tunnel, the host that
-- `net.SplitHostPort` finds in the peer's address, and the address of the new struct.
pub record Env (s : MapSet) : Type 0 where
  pub now : ℕ
  pub busy : Option s.Set
  pub listens : Remote → Bool
  pub client_host : Option String
  pub new_object : ℕ

module _ (p : ClientProvider) (s : MapSet) (net : Net) (conv : Strconv) where
  pub record ClientService : Type 0 where
    pub repo : ClientRepository p
    pub port_distributor : PortDistributor s

  -- A client whose tunnels are being started, and the ports.
  pub record Starting : Type 0 where
    pub client : Client
    pub ports : PortDistributor s

  abbrev pub Step : Type 0 → Type 0
  Step = Exec Error Starting

  abbrev pub check_number : String → Option Number → PortDistributor s → Result Error (Unit {0})
  check_number port none d = err (invalid_local_port port)
  check_number port (some negative) d = err (port_not_allowed port)
  check_number port (some (natural n)) d =
      and_then (refuse_if (not (is_port_allowed s n d)) (port_not_allowed port))
        λ _. refuse_if (is_port_busy s n d) (port_in_use port)

  unfoldable pub check_local_port : String → PortDistributor s → Result Error (Unit {0})
  check_local_port port d = check_number port (conv.atoi port) d

  abbrev pub with_port : Remote → ℕ → Remote
  with_port remote port = record remote {
    local_port = conv.itoa port;
    local_host = zero_host;
    local_port_random = true;
  }

  abbrev pub use_port : Remote → Option (ℕ × PortDistributor s) → Step Remote
  use_port remote none st = (err no_ports_available, st)
  use_port remote (some (port, d)) st = (ok (with_port remote port), record st { ports = d })

  abbrev pub random_port : Env s → Remote → Step Remote
  random_port env remote st = use_port remote (get_random_port s env.busy st.ports) st

  abbrev pub given_port : Remote → Step Remote
  given_port remote = do reads (λ st. check_local_port remote.local_port st.ports); pure remote

  unfoldable pub choose_port : Env s → Remote → Step Remote
  unfolding get_random_port check_local_port
  choose_port env remote =
      if is_local_specified remote then given_port remote else random_port env remote

  abbrev pub acl_result : Option (Option (List net.IpNet)) → Result Error (Unit {0})
  acl_result none = err invalid_acl
  acl_result (some acl) = ok tt

  abbrev pub check_acl : Option String → Result Error (Unit {0})
  check_acl none = ok tt
  check_acl (some acl) = acl_result (parse_tunnel_acl net acl)

  abbrev pub count_tunnel : Client → Client
  count_tunnel c = record c { tunnel_id_auto_increment = suc c.tunnel_id_auto_increment }

  abbrev pub new_tunnel : Remote → Client → Tunnel
  new_tunnel r c = record { remote = r; id = conv.itoa (suc c.tunnel_id_auto_increment) }

  abbrev pub start_new : Env s → Remote → Client → Result Error Tunnel × Client
  start_new env r c =
      if env.listens r
      then (
        ok (new_tunnel r c),
        record c {
          tunnel_id_auto_increment = suc c.tunnel_id_auto_increment;
          tunnels = c.tunnels ++ new_tunnel r c ∷ [];
        },
      )
      else (err tunnel_failed, count_tunnel c)

  abbrev pub start_unless : Env s → Remote → Option Tunnel → Client → Result Error Tunnel × Client
  start_unless env r none c = start_new env r c
  start_unless env r (some t) c = (ok t, c)

  -- `Client.StartTunnel`
  unfoldable pub start_tunnel : Env s → Remote → Client → Result Error Tunnel × Client
  unfolding find_tunnel_by_remote
  start_tunnel env r c = start_unless env r (find_tunnel_by_remote r c.tunnels) c

  abbrev pub on_client : (Client → Result Error Tunnel × Client) → Step Tunnel
  on_client f st = ((f st.client).0, record st { client = (f st.client).1 })

  -- One turn of the loop of `startClientTunnels`.
  unfoldable pub start_one : Env s → Remote → Step Tunnel
  unfolding choose_port start_tunnel
  start_one env remote = do
    chosen ← choose_port env remote
    lift (check_acl chosen.acl)
    on_client (start_tunnel env chosen)

  unfoldable pub start_all : Env s → List Remote → Step (List Tunnel)
  unfolding start_one
  start_all env [] = pure []
  start_all env (r ∷ rs) = do t ← start_one env r; ts ← start_all env rs; pure (t ∷ ts)

  abbrev pub put_ports : Option (PortDistributor s) → Step (Unit {0})
  put_ports none st = (err busy_ports_unknown, st)
  put_ports (some d) st = (ok tt, record st { ports = d })

  abbrev pub refresh_ports : Env s → Step (Unit {0})
  refresh_ports env st = put_ports (refresh s env.busy st.ports) st

  -- `startClientTunnels`
  unfoldable pub start_client_tunnels : Env s → List Remote → Step (List Tunnel)
  unfolding start_all
  start_client_tunnels env remotes = refresh_ports env >> start_all env remotes

  abbrev pub old_in_use : Option Client → Bool
  old_in_use none = false
  old_in_use (some c) = is_connected c

  abbrev pub old_remotes : Option Client → List Remote → List Remote
  old_remotes none remotes = []
  old_remotes (some c) remotes = get_tunnels_to_reestablish (map (λ t. t.remote) c.tunnels) remotes

  abbrev pub old_updates : Option Client → Option UpdatesStatus
  old_updates none = none
  old_updates (some c) = c.updates_status

  -- The struct that `StartClient` builds.
  abbrev pub new_client :
      Env s → String → String → ConnectionRequest → Option Client → String → Client
  new_client env client_auth_id client_id req old host = record {
    object = env.new_object;
    id = client_id;
    machine = req.machine;
    address = host;
    tunnels = [];
    disconnected_at = none;
    client_auth_id = client_auth_id;
    allowed_user_groups = [];
    updates_status = old_updates old;
    tunnel_id_auto_increment = 0;
  }

  abbrev pub host_of : Option String → Result Error String
  host_of none = err bad_address
  host_of (some host) = ok host

  abbrev pub Call : Type 0 → Type 0
  Call = Exec Error ClientService

  abbrev pub with_tunnels : Result Error (List Tunnel) × Starting → Call Client
  with_tunnels (ok ts, st) sv = (ok st.client, record sv { port_distributor = st.ports })
  with_tunnels (err e, st) sv = (err e, record sv { port_distributor = st.ports })

  abbrev pub on_repo :
      (ClientRepository p → Result Error (Unit {0}) × ClientRepository p) → Call (Unit {0})
  on_repo f sv = ((f sv.repo).0, record sv { repo = (f sv.repo).1 })

  abbrev pub look : Env s → String → Call (Option Client)
  look env client_id sv = (ok (get_by_id p env.now client_id sv.repo), sv)

  abbrev pub refuse_in_use : String → Bool → Bool → Call (Unit {0})
  refuse_in_use client_auth_id auth_multiuse_creds in_use =
      lift (refuse_if (not auth_multiuse_creds && in_use) (client_auth_id_in_use client_auth_id))

  -- The tests before anything is built; the peer's host is their result.
  abbrev pub admit : Env s → String → String → Bool → Option Client → Call String
  admit env client_auth_id client_id auth_multiuse_creds old = do
    lift (refuse_if (old_in_use old) (client_id_in_use client_id))
    in_use ← reads (λ sv. ok (is_client_auth_id_in_use p env.now client_auth_id client_id sv.repo))
    refuse_in_use client_auth_id auth_multiuse_creds in_use
    lift (host_of env.client_host)

  abbrev pub begin :
      Env s → String → String → ConnectionRequest → Option Client → String → Call Client
  begin env client_auth_id client_id req old host sv =
      with_tunnels
        (start_client_tunnels env (req.remotes ++ old_remotes old req.remotes) (record {
          client = new_client env client_auth_id client_id req old host;
          ports = sv.port_distributor;
        }))
        sv

  abbrev pub keep_started : Client → Call Client
  keep_started client = on_repo (save p client) >> pure client

  abbrev pub connect :
      Env s → String → String → ConnectionRequest → Option Client → String → Call Client
  connect env client_auth_id client_id req old host =
      begin env client_auth_id client_id req old host >>= keep_started

  unfoldable pub start_client : Env s → String → String → Bool → ConnectionRequest → Call Client
  start_client env client_auth_id client_id auth_multiuse_creds req = do
    old ← look env client_id
    host ← admit env client_auth_id client_id auth_multiuse_creds old
    connect env client_auth_id client_id req old host
