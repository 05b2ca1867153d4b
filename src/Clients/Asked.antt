-- ===== src/Clients/Asked.antt =====
-- server/api.go, `handlePutClientTunnel`: what every tunnel that is started was checked for.
use Prim.Native.Nat.{◌/◌}
use Prim.Native.String.{len}
use rport.Prelude.{
  ℕ, ◌≤◌, String, Bool, true, false, not, Option, none, some, List, ◌≡◌, refl, arith, str_eq, ltb,
  ap, sym, is_none,
}
use rport.Result.{ok, and_then_ok, map_err_ok, refuse_if, value_or}
use rport.Exec.{bind_ok, lift, reads}
use rport.Remote.{Remote}
use rport.Remote.Decode.{decode_remote}
use rport.Remote.WellFormed.{is_well_formed, decode_remote_lem}
use rport.Validation.{minute, idle_timeout_max, resolve_idle_tunnel_timeout_value, in_minutes}
use rport.Clients.Acl.{Net, parse_tunnel_acl}
use rport.Ports.{MapSet}
use rport.Clients.Model.{Client, Tunnel, find_tunnel_by_remote}
use rport.Clients.Repository.{ClientProvider, get_active_by_id}
use rport.Clients.Start.{Strconv, Env, ClientService}
use rport.Clients.Requests.{
  ApiError, bad_request, Query, Packages, PortCheck, or_false, remote_str, bad_on_error, valid_acl,
  with_query, requested_remote, refuse_existing, same_port, active, if_checked, check_local_port,
  start_tunnels, handle_put_client_tunnel, uri_scheme_max_length, tunnel_exist,
  tunnel_to_port_exist, unless_empty,
}

in_minutes_max : (o : Option ℕ) (t : ℕ) → in_minutes o ≡ ok t → t ≤ idle_timeout_max
in_minutes_max none t accepted = absurd (ground arith)
in_minutes_max (some m) t accepted = ground arith

timeout_max :
    (int_bits : String → Option ℕ) (s : String) (skip : Bool) (t : ℕ)
    → resolve_idle_tunnel_timeout_value int_bits s skip ≡ ok t
    → t ≤ idle_timeout_max
unfolding resolve_idle_tunnel_timeout_value
timeout_max int_bits s skip t accepted = ground (arith, in_minutes_max (int_bits s) t)

week_of_minutes : (t : ℕ) → t ≤ idle_timeout_max → t / minute ≤ 10080
week_of_minutes t bounded = omega arith

module _ (lib : Packages) (net : Net) (q : Query) where
  pub record IsAskedFor (r : Remote) : Type 0 where
    pub well_formed : is_well_formed r ≡ true
    pub week : r.idle_timeout_minutes ≤ 10080
    pub is_acl : r.acl ≡ unless_empty q.acl
    pub acl_parses : is_none (parse_tunnel_acl net q.acl) ≡ false

  acl_lem :
      (o : Option (Option (List net.IpNet))) (u : Unit {0})
      → valid_acl lib net o ≡ ok u
      → is_none o ≡ false
  acl_lem none u valid = absurd (ground arith)
  acl_lem (some acl) u valid = refl

  requested_lem : (r : Remote) → requested_remote lib net q ≡ ok r → IsAskedFor r
  unfolding requested_remote
  requested_lem r asked =
      let (d, decoded, d1) =
        and_then_ok (bad_on_error (decode_remote lib.is_host (remote_str q))) _ r asked in
      let (t, timeout, d2) =
        and_then_ok
          (bad_on_error (
            resolve_idle_tunnel_timeout_value lib.int_bits q.idle_timeout_minutes
              (or_false (lib.parse_bool q.skip_idle_timeout))))
          _ r d1 in
      let (u, valid, d3) = and_then_ok (valid_acl lib net (parse_tunnel_acl net q.acl)) _ r d2 in
      let (v, short, d4) =
        and_then_ok (refuse_if (ltb uri_scheme_max_length (len q.scheme)) bad_request)
          (λ _. ok (with_query lib net q d t)) r d3 in
      let same : with_query lib net q d t ≡ r = ap (value_or r) d4 in
      rw (sym same) (record {
        well_formed =
            decode_remote_lem lib.is_host (remote_str q) d
              (map_err_ok (λ e. bad_request) (decode_remote lib.is_host (remote_str q)) d decoded);
        week = week_of_minutes t (
            timeout_max lib.int_bits q.idle_timeout_minutes
              (or_false (lib.parse_bool q.skip_idle_timeout)) t
              (map_err_ok (λ e. bad_request) _ t timeout));
        is_acl = refl;
        acl_parses = acl_lem (parse_tunnel_acl net q.acl) u valid;
      })

active_lem : (o : Option Client) (c : Client) → active o ≡ ok c → o ≡ some c
active_lem none c found = absurd (ground arith)
active_lem (some d) c found = ap (λ x. some (value_or d x)) found

-- No tunnel of the client has the remote's description, or its address with its access list.
pub record IsFresh (r : Remote) (client : Client) : Type 0 where
  pub no_tunnel : is_none (find_tunnel_by_remote r client.tunnels) ≡ true
  pub no_port : same_port r client.tunnels ≡ false

refuse_lem : (b : Bool) (e : ApiError) (u : Unit {0}) → refuse_if b e ≡ ok u → b ≡ false
refuse_lem false e u passed = refl
refuse_lem true e u passed = absurd (ground arith)

fresh_lem :
    (r : Remote) (client : Client) (u : Unit {0})
    → refuse_existing r client ≡ ok u
    → IsFresh r client
unfolding refuse_existing
fresh_lem r client u passed =
    let (v, unknown, step) =
      and_then_ok (refuse_if (not (is_none (find_tunnel_by_remote r client.tunnels))) tunnel_exist)
        (λ _. refuse_if (same_port r client.tunnels) tunnel_to_port_exist) u passed in
    record {
      no_tunnel = ground (
        arith,
        refuse_lem (not (is_none (find_tunnel_by_remote r client.tunnels))) tunnel_exist v unknown,
      );
      no_port = refuse_lem (same_port r client.tunnels) tunnel_to_port_exist u step;
    }

-- A request for a tunnel that succeeds started it on a client that was connected, by a remote that has
-- a numeric port and a host, an access list that parses and an idle timeout of at most a week, and that
-- no tunnel of the client had.
pub handle_put_client_tunnel_safe :
    (p : ClientProvider) (s : MapSet) (net : Net) (conv : Strconv) (lib : Packages) (env : Env s)
    (answer : PortCheck) (client_id : String) (q : Query) (ts : List Tunnel)
    (sv sv' : ClientService p s net conv)
    → handle_put_client_tunnel p s net conv lib env answer client_id q sv ≡ (ok ts, sv')
    → (client : Client) × (r : Remote) × (get_active_by_id p client_id sv.repo ≡ some client)
      × IsAskedFor lib net q r
      × IsFresh r client
      × (start_tunnels p s net conv lib env client r sv ≡ (ok ts, sv'))
unfolding handle_put_client_tunnel
handle_put_client_tunnel_safe p s net conv lib env answer client_id q ts sv sv' done =
    let (u1, named, d1) =
      bind_ok (lift (refuse_if (str_eq client_id "") bad_request)) _ sv sv' ts done in
    let (client, found, d2) =
      bind_ok (reads (λ sv. active (get_active_by_id p client_id sv.repo))) _ sv sv' ts d1 in
    let (r, asked, d3) = bind_ok (lift (requested_remote lib net q)) _ sv sv' ts d2 in
    let (u4, fresh, d4) = bind_ok (lift (refuse_existing r client)) _ sv sv' ts d3 in
    let (u5, open_port, d5) = bind_ok (lift (if_checked q.check_port answer)) _ sv sv' ts d4 in
    let (u6, free_port, d6) =
      bind_ok (lift (check_local_port p s net conv lib env r))
        (λ _. start_tunnels p s net conv lib env client r) sv sv' ts d5 in
    (
      client,
      r,
      active_lem (get_active_by_id p client_id sv.repo) client found,
      requested_lem lib net q r asked,
      fresh_lem r client u4 fresh,
      d6,
    )
