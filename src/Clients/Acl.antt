-- ===== src/Clients/Acl.antt =====
-- server/clients/tunnel_acl.go. Go's package `net` is a parameter: an address that it parses, whether
-- it has a form of four bytes, and a network with its members.
use rport.Prelude.{
  String, Bool, true, false, ◌||◌, Option, none, some, List, [], ◌∷◌, str_eq, if◌then◌else◌,
}
use rport.Text.{split, contains_rune}

pub record Net : Type 1 where
  pub Ip : Type 0
  pub IpNet : Type 0
  pub parse_cidr : String → Option (Ip × IpNet)
  pub parse_ip : String → Option Ip
  pub has_to4 : Ip → Bool
  -- the address with the mask 255.255.255.255
  pub single : Ip → IpNet
  pub contains : IpNet → Ip → Bool

module _ (net : Net) where
  abbrev pub TunnelAcl : Type 0
  TunnelAcl = List net.IpNet

  abbrev pub in_some : net.Ip → List net.IpNet → Bool
  in_some ip [] = false
  in_some ip (allowed ∷ more) = net.contains allowed ip || in_some ip more

  abbrev pub none_or_some : net.Ip → List net.IpNet → Bool
  none_or_some ip [] = true
  none_or_some ip (allowed ∷ more) = in_some ip (allowed ∷ more)

  -- `CheckAccess`
  unfoldable pub check_access : TunnelAcl → net.Ip → Bool
  check_access acl ip = none_or_some ip acl

  abbrev pub with_mask : Option net.Ip → Option (net.Ip × net.IpNet)
  with_mask none = none
  with_mask (some ip) = some (ip, net.single ip)

  abbrev pub only_v4 : Option (net.Ip × net.IpNet) → Option net.IpNet
  only_v4 none = none
  only_v4 (some (ip, ip_net)) = if net.has_to4 ip then some ip_net else none

  abbrev pub parse_value : String → Option net.IpNet
  parse_value value =
      only_v4
        (if contains_rune 47 value then net.parse_cidr value else with_mask (net.parse_ip value))

  abbrev pub prepend : Option net.IpNet → Option TunnelAcl → Option TunnelAcl
  prepend none rest = none
  prepend (some n) none = none
  prepend (some n) (some ns) = some (n ∷ ns)

  abbrev pub parse_values : List String → Option TunnelAcl
  parse_values [] = some []
  parse_values (v ∷ vs) = prepend (parse_value v) (parse_values vs)

  -- `ParseTunnelACL`: `none` is an error, and `some none` the nil that an empty text gives.
  unfoldable pub parse_tunnel_acl : String → Option (Option TunnelAcl)
  unfolding split
  parse_tunnel_acl str =
      if str_eq str ""
      then some none
      else elim (parse_values (split 44 str)) [ none ↦ none | some acl ↦ some (some acl) ]
