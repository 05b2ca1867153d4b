-- ===== src/Clients/Requests.antt =====
-- server/api.go, `handlePutClientTunnel` and `handleDeleteClientTunnel`: a tunnel that is asked for and
-- one that is ended. The parameters of the query are fields of a record; texts of errors are left out.
use Prim.Native.String.{◌++◌ as concat, len}
use Prim.Native.Nat.{◌/◌}
use rport.Prelude.{
  ℕ, String, Bool, false, not, ◌&&◌, ◌||◌, Option, none, some, List, [], ◌∷◌, str_eq, ltb,
  if◌then◌else◌, is_none,
}
use rport.Result.{Result, ok, err, and_then, refuse_if, map_err}
use rport.Exec.{Exec, lift, reads, ◌>>=◌, ◌>>◌}
use rport.Remote.{Remote, remote_address, equal_acl, is_local_specified}
use rport.Remote.Decode.{decode_remote}
use rport.Validation.{minute, resolve_idle_tunnel_timeout_value}
use rport.Ports.{MapSet}
use rport.Clients.Acl.{Net, parse_tunnel_acl}
use rport.Clients.Model.{Client, Tunnel, find_tunnel_by_remote, find_tunnel}
use rport.Clients.Repository.{ClientProvider, Error, get_active_by_id, assign}
use rport.Clients.Start.{Strconv, Number, natural, negative, Env, ClientService}
use rport.Clients.Tunnels.{terminate_tunnel, start_client_tunnels_and_save}

pub data ApiError : Type 0 where
  bad_request not_found conflict internal_server_error : ApiError
  tunnel_exist tunnel_to_port_exist local_port_in_use remote_port_not_open : ApiError
  start_failed : Error → ApiError

-- The parameters of the query; one that is missing is the empty text.
pub record Query : Type 0 where
  pub local : String
  pub remote : String
  pub idle_timeout_minutes : String
  pub skip_idle_timeout : String
  pub acl : String
  pub scheme : String
  pub check_port : String

-- The packages url and strconv; `int_bits` is an int64 by its bits.
pub record Packages : Type 0 where
  pub is_host : String → Bool
  pub parse_bool : String → Option Bool
  pub int_bits : String → Option ℕ

-- What the client answers about the remote port: it refuses, there is no answer, or whether it is open.
pub data PortCheck : Type 0 where
  client_error no_answer : PortCheck
  is_open : Bool → PortCheck

-- `len` counts the bytes of a text, as Go's does.
abbrev pub uri_scheme_max_length : ℕ
uri_scheme_max_length = 15

abbrev pub or_false : Option Bool → Bool
or_false none = false
or_false (some b) = b

abbrev pub unless_empty : String → Option String
unless_empty s = if str_eq s "" then none else some s

abbrev pub remote_str : Query → String
remote_str q = if str_eq q.local "" then q.remote else concat q.local (concat ":" q.remote)

abbrev pub bad_on_error {ℓ} : {E : Type 0} {A : Type ℓ} → Result E A → Result ApiError A
bad_on_error r = map_err (λ e. bad_request) r

module _ (lib : Packages) (net : Net) where
  abbrev pub valid_acl : Option (Option (List net.IpNet)) → Result ApiError (Unit {0})
  valid_acl none = err bad_request
  valid_acl (some acl) = ok tt

  abbrev pub with_query : Query → Remote → ℕ → Remote
  with_query q r idle_timeout = record r {
    idle_timeout_minutes = idle_timeout / minute;
    acl = unless_empty q.acl;
    scheme = unless_empty q.scheme;
  }

  -- The remote that a request asks for.
  unfoldable pub requested_remote : Query → Result ApiError Remote
  unfolding decode_remote resolve_idle_tunnel_timeout_value parse_tunnel_acl
  requested_remote q = and_then (bad_on_error (decode_remote lib.is_host (remote_str q))) λ r.
      and_then
        (bad_on_error (
          resolve_idle_tunnel_timeout_value lib.int_bits q.idle_timeout_minutes
            (or_false (lib.parse_bool q.skip_idle_timeout))))
        λ idle_timeout. and_then (valid_acl (parse_tunnel_acl net q.acl)) λ _.
          and_then (refuse_if (ltb uri_scheme_max_length (len q.scheme)) bad_request)
            λ _. ok (with_query q r idle_timeout)

abbrev pub same_port : Remote → List Tunnel → Bool
same_port r [] = false
same_port r (t ∷ ts) =
    (str_eq (remote_address t.remote) (remote_address r) && equal_acl t.remote r.acl)
    || same_port r ts

-- The tests of the client's tunnels.
unfoldable pub refuse_existing : Remote → Client → Result ApiError (Unit {0})
unfolding find_tunnel_by_remote remote_address
refuse_existing r client =
    and_then (refuse_if (not (is_none (find_tunnel_by_remote r client.tunnels))) tunnel_exist)
      λ _. refuse_if (same_port r client.tunnels) tunnel_to_port_exist

abbrev pub check_remote_port : PortCheck → Result ApiError (Unit {0})
check_remote_port client_error = err conflict
check_remote_port no_answer = err internal_server_error
check_remote_port (is_open b) = refuse_if (not b) remote_port_not_open

abbrev pub if_checked : String → PortCheck → Result ApiError (Unit {0})
if_checked check_port answer = if str_eq check_port "0" then ok tt else check_remote_port answer

abbrev pub active : Option Client → Result ApiError Client
active none = err not_found
active (some c) = ok c

module _ (p : ClientProvider) (s : MapSet) (net : Net) (conv : Strconv) (lib : Packages) where
  abbrev pub Call : Type 0 → Type 0
  Call = Exec ApiError (ClientService p s net conv)

  abbrev pub contains_port : Option s.Set → Option Number → Result ApiError (Unit {0})
  contains_port busy none = err bad_request
  contains_port none (some n) = err internal_server_error
  contains_port (some busy) (some negative) = ok tt
  contains_port (some busy) (some (natural n)) = refuse_if (s.contains busy n) local_port_in_use

  -- `checkLocalPort`
  abbrev pub check_local_port : Env s → Remote → Result ApiError (Unit {0})
  check_local_port env r =
      if is_local_specified r then contains_port env.busy (conv.atoi r.local_port) else ok tt

  abbrev pub start_tunnels : Env s → Client → Remote → Call (List Tunnel)
  start_tunnels env client r sv =
      let done = start_client_tunnels_and_save p s net conv env client (r ∷ []) sv in
      (map_err start_failed done.0, done.1)

  unfoldable pub handle_put_client_tunnel : Env s → PortCheck → String → Query → Call (List Tunnel)
  unfolding get_active_by_id requested_remote refuse_existing start_client_tunnels_and_save
  handle_put_client_tunnel env answer client_id q = do
    lift (refuse_if (str_eq client_id "") bad_request)
    client ← reads (λ sv. active (get_active_by_id p client_id sv.repo))
    r ← lift (requested_remote lib net q)
    lift (refuse_existing r client)
    lift (if_checked q.check_port answer)
    lift (check_local_port env r)
    start_tunnels env client r

  abbrev pub force_of : String → Result ApiError Bool
  force_of force_str =
      if str_eq force_str ""
      then ok false
      else elim (lib.parse_bool force_str) [ none ↦ err bad_request | some force ↦ ok force ]

  abbrev pub existing_tunnel : Option Tunnel → Result ApiError Tunnel
  existing_tunnel none = err not_found
  existing_tunnel (some t) = ok t

  -- The client is shared with the repository, and is not saved.
  abbrev pub end_tunnel : Client → Tunnel → Bool → ℕ → Call (Unit {0})
  end_tunnel client t force conn_count sv =
      let done = terminate_tunnel t force conn_count client in
      (
        map_err (λ e. conflict) done.0,
        record sv {
          repo = record sv.repo { clients = assign client.object (λ c. done.1) sv.repo.clients };
        },
      )

  unfoldable pub handle_delete_client_tunnel : ℕ → String → String → String → Call (Unit {0})
  unfolding get_active_by_id find_tunnel terminate_tunnel assign
  handle_delete_client_tunnel conn_count client_id tunnel_id force_str = do
    lift (refuse_if (str_eq client_id "") bad_request)
    force ← lift (force_of force_str)
    client ← reads (λ sv. active (get_active_by_id p client_id sv.repo))
    lift (refuse_if (str_eq tunnel_id "") bad_request)
    t ← lift (existing_tunnel (find_tunnel tunnel_id client.tunnels))
    end_tunnel client t force conn_count
