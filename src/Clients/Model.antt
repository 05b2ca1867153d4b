-- ===== src/Clients/Model.antt =====
-- server/clients/client.go and tunnel.go: the data of a client. The connection, the context, the
-- logger and the mutex are left out, and `object` is the address of the struct.
use rport.Prelude.{
  ℕ, ◌+◌, ltb, String, Bool, false, not, ◌&&◌, ◌||◌, Option, none, some, List, [], ◌∷◌, str_eq,
  if◌then◌else◌, is_none,
}
use rport.Remote.{Remote, equals}
use rport.Users.Model.{has, administrators}
use rport.Clients.Groups.{ClientGroup, ClientParams, matches_one_of, all_nil}

pub record Tunnel : Type 0 where
  pub remote : Remote
  pub id : String

pub record UpdateSummary : Type 0 where
  pub title : String
  pub description : String
  pub reboot_required : Bool
  pub is_security_update : Bool

pub record UpdatesStatus : Type 0 where
  pub refreshed : ℕ
  pub updates_available : ℕ
  pub security_updates_available : ℕ
  pub update_summaries : List UpdateSummary
  pub reboot_pending : Bool
  pub error : String
  pub hint : String

-- What a client says about itself when it connects.
pub record Machine : Type 0 where
  pub name : String
  pub os : String
  pub os_arch : String
  pub os_family : String
  pub os_kernel : String
  pub os_full_name : String
  pub os_version : String
  pub os_virtualization_system : String
  pub os_virtualization_role : String
  pub cpu_family : String
  pub cpu_model : String
  pub cpu_model_name : String
  pub cpu_vendor : String
  pub num_cpus : ℕ
  pub memory_total : ℕ
  pub timezone : String
  pub hostname : String
  pub ipv4 : List String
  pub ipv6 : List String
  pub tags : List String
  pub version : String

pub record Client : Type 0 where
  pub object : ℕ
  pub id : String
  pub machine : Machine
  pub address : String
  pub tunnels : List Tunnel
  pub disconnected_at : Option ℕ
  pub client_auth_id : String
  pub allowed_user_groups : List String
  pub updates_status : Option UpdatesStatus
  pub tunnel_id_auto_increment : ℕ

abbrev pub is_connected : Client → Bool
is_connected c = is_none c.disconnected_at

abbrev pub lost_for : Option ℕ → Option ℕ → ℕ → Bool
lost_for none d now = false
lost_for (some keep) none now = false
lost_for (some keep) (some at) now = ltb (at + keep) now

unfoldable pub obsolete : Option ℕ → ℕ → Client → Bool
obsolete duration now c = lost_for duration c.disconnected_at now

unfoldable pub find_tunnel_by_remote : Remote → List Tunnel → Option Tunnel
unfolding equals
find_tunnel_by_remote r [] = none
find_tunnel_by_remote r (t ∷ ts) = if equals t.remote r then some t else find_tunnel_by_remote r ts

unfoldable pub find_tunnel : String → List Tunnel → Option Tunnel
find_tunnel id [] = none
find_tunnel id (t ∷ ts) = if str_eq t.id id then some t else find_tunnel id ts

unfoldable pub remove_tunnel_by_id : String → List Tunnel → List Tunnel
remove_tunnel_by_id id [] = []
remove_tunnel_by_id id (t ∷ ts) =
    let kept = remove_tunnel_by_id id ts in if str_eq t.id id then kept else t ∷ kept

-- `HasAccess`
unfoldable pub has_access : Client → List String → Bool
has_access c [] = false
has_access c (g ∷ gs) = (str_eq g administrators || has g c.allowed_user_groups) || has_access c gs

module _ (to_lower : String → String) where
  unfoldable pub fits : ClientParams → Client → Bool
  unfolding all_nil
  fits p c =
      not (all_nil p)
      && matches_one_of to_lower p.client_id (c.id ∷ [])
      && matches_one_of to_lower p.name (c.machine.name ∷ [])
      && matches_one_of to_lower p.os (c.machine.os ∷ [])
      && matches_one_of to_lower p.os_arch (c.machine.os_arch ∷ [])
      && matches_one_of to_lower p.os_family (c.machine.os_family ∷ [])
      && matches_one_of to_lower p.os_kernel (c.machine.os_kernel ∷ [])
      && matches_one_of to_lower p.hostname (c.machine.hostname ∷ [])
      && matches_one_of to_lower p.ipv4 c.machine.ipv4
      && matches_one_of to_lower p.ipv6 c.machine.ipv6
      && matches_one_of to_lower p.tag c.machine.tags
      && matches_one_of to_lower p.version (c.machine.version ∷ [])
      && matches_one_of to_lower p.address (c.address ∷ [])
      && matches_one_of to_lower p.client_auth_id (c.client_auth_id ∷ [])

  abbrev pub fits_if_any : Option ClientParams → Client → Bool
  fits_if_any none c = false
  fits_if_any (some p) c = fits p c

  abbrev pub belongs_to : ClientGroup → Client → Bool
  belongs_to group c = fits_if_any group.params c

  abbrev pub belongs_to_one_of : List ClientGroup → Client → Bool
  belongs_to_one_of [] c = false
  belongs_to_one_of (g ∷ gs) c = belongs_to g c || belongs_to_one_of gs c
