-- ===== src/Clients/Tunnels.antt =====
-- server/client_service.go, `StartClientTunnels` and `PopulateGroupsWithUserClients`, and the end of a
-- tunnel of server/clients/client.go and tunnel.go. What `sort.Strings` does is a parameter.
use rport.Prelude.{ℕ, String, Bool, not, ◌&&◌, List, [], ◌∷◌, ◌++◌, ltb, if◌then◌else◌, map}
use rport.Result.{Result, ok, err, refuse_if}
use rport.Exec.{Exec, pure, lift, ◌>>◌}
use rport.Ports.{MapSet}
use rport.Remote.{Remote}
use rport.Clients.Acl.{Net}
use rport.Clients.Groups.{ClientGroup}
use rport.Clients.Model.{Client, Tunnel, belongs_to, remove_tunnel_by_id}
use rport.Clients.Repository.{
  ClientProvider, Error, ClientRepository, save, assign, get_user_clients,
}
use rport.Clients.Start.{Strconv, Env, ClientService, Starting, start_client_tunnels, on_repo}

pub data TerminateError : Type 0 where
  active_connections : ℕ → TerminateError

-- `Tunnel.Terminate`, with the number of its connections; stopping a tunnel ends its goroutines.
abbrev pub terminate_tunnel_with : Bool → ℕ → Result TerminateError (Unit {0})
terminate_tunnel_with force conn_count =
    refuse_if (not force && ltb 0 conn_count) (active_connections conn_count)

-- `Client.TerminateTunnel`
unfoldable pub terminate_tunnel : Tunnel → Bool → ℕ → Exec TerminateError Client (Unit {0})
unfolding remove_tunnel_by_id
terminate_tunnel t force conn_count = lift (terminate_tunnel_with force conn_count) >> λ c.
    (ok tt, record c { tunnels = remove_tunnel_by_id t.id c.tunnels })

module _ (to_lower : String → String) (sort_strings : List String → List String) where
  abbrev pub add_client : Client → ClientGroup → ClientGroup
  add_client c g =
      if belongs_to to_lower g c then record g { client_ids = g.client_ids ++ c.id ∷ [] } else g

  unfoldable pub add_clients : List Client → List ClientGroup → List ClientGroup
  add_clients [] groups = groups
  add_clients (c ∷ cs) groups = add_clients cs (map (add_client c) groups)

  abbrev pub sorted : ClientGroup → ClientGroup
  sorted g = record g { client_ids = sort_strings g.client_ids }

  -- `PopulateGroupsWithUserClients`
  unfoldable pub populate_groups_with_user_clients :
      (p : ClientProvider)
      → ℕ
      → Bool
      → List String
      → ClientRepository p
      → List ClientGroup
      → List ClientGroup
  unfolding add_clients get_user_clients
  populate_groups_with_user_clients p now is_admin user_groups r groups =
      map sorted (add_clients (get_user_clients p now is_admin user_groups r) groups)

module _ (p : ClientProvider) (s : MapSet) (net : Net) (conv : Strconv) where
  -- The client is shared with the repository, also what was started before an error; ports that were
  -- drawn stay drawn.
  abbrev pub share_client :
      Starting p s net conv → ClientService p s net conv → ClientService p s net conv
  share_client st sv = record sv {
    port_distributor = st.ports;
    repo = record sv.repo { clients = assign st.client.object (λ c. st.client) sv.repo.clients };
  }

  abbrev pub keep_tunnels :
      Starting p s net conv
      → Result Error (List Tunnel)
      → Exec Error (ClientService p s net conv) (List Tunnel)
  keep_tunnels st (err e) sv = (err e, share_client st sv)
  keep_tunnels st (ok ts) sv =
      (on_repo p s net conv (save p st.client) >> pure ts) (share_client st sv)

  -- `StartClientTunnels`
  unfoldable pub start_client_tunnels_and_save :
      Env s → Client → List Remote → Exec Error (ClientService p s net conv) (List Tunnel)
  unfolding start_client_tunnels save assign
  start_client_tunnels_and_save env client remotes sv =
      let done =
        start_client_tunnels p s net conv env remotes
          (record { client = client; ports = sv.port_distributor }) in
      keep_tunnels done.1 done.0 sv
