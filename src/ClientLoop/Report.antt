-- ===== src/ClientLoop/Report.antt =====
-- client/client.go: the request that a client introduces itself with, made of its configuration and of
-- what its system tells. A call that fails leaves its fields as they are.
use Prim.Native.String.{◌++◌ as concat}
use rport.Prelude.{
  ℕ, String, Bool, true, false, not, Option, none, some, List, [], ◌∷◌, str_eq, if◌then◌else◌,
}
use rport.Result.{Result, ok, err, and_then, value_or}
use rport.Remote.{Remote}
use rport.ClientLoop.Machine.{unknown_value, InfoStat, CpuStat, CpuInfo, Ip}

-- The configuration that goes into a request, and the machine. An error of `HostInfo` may come with
-- information all the same.
pub record Identity : Type 0 where
  pub id : String
  pub name : String
  pub tags : List String
  pub remotes : List Remote
  pub version : String

pub record SystemInfo : Type 0 where
  pub hostname : Result String String
  pub host_info : Result (Option InfoStat) InfoStat
  pub cpu_info : CpuInfo
  pub memory_stats : Result String (Option ℕ)
  pub uname : Result String String
  pub interface_addrs : Result String (List Ip)
  pub go_arch : String
  pub timezone : String
  pub virtualization_info : Option InfoStat → Result String (String × String)

pub record ConnectionRequest : Type 0 where
  pub id : String
  pub name : String
  pub os : String
  pub os_full_name : String
  pub os_version : String
  pub os_virtualization_system : String
  pub os_virtualization_role : String
  pub os_arch : String
  pub os_family : String
  pub os_kernel : String
  pub version : String
  pub hostname : String
  pub cpu_family : String
  pub cpu_model : String
  pub cpu_model_name : String
  pub cpu_vendor : String
  pub num_cpus : ℕ
  pub memory_total : ℕ
  pub timezone : String
  pub ipv4 : List String
  pub ipv6 : List String
  pub tags : List String
  pub remotes : List Remote

-- The addresses of `localIPAddresses`: IPv4 and IPv6, without the loopback ones.
abbrev pub add_address : Ip → List String × List String → List String × List String
add_address ip (v4, v6) =
    if ip.is_loopback
    then (v4, v6)
    else if ip.is_ipv4
    then (ip.text ∷ v4, v6)
    else if ip.is_ipv6
    then (v4, ip.text ∷ v6)
    else (v4, v6)

unfoldable pub split_addresses : List Ip → List String × List String
split_addresses [] = ([], [])
split_addresses (ip ∷ ips) = add_address ip (split_addresses ips)

unfoldable pub local_ip_addresses :
    Result String (List Ip) → Result String (List String × List String)
unfolding split_addresses
local_ip_addresses addrs = and_then addrs (λ ips. ok (split_addresses ips))

unfoldable pub get_os : Result String String → Option InfoStat → Result String String
get_os uname none = ok unknown_value
get_os uname (some info) =
    if str_eq info.os "windows"
    then ok (
        concat info.platform
          (concat " " (concat info.platform_version (concat " " info.platform_family))))
    else uname

-- `title` is `strings.Title` of `strings.ToLower`.
unfoldable pub get_os_full_name : (String → String) → Option InfoStat → String
get_os_full_name title none = unknown_value
get_os_full_name title (some info) = concat (title info.platform) (concat " " info.platform_version)

abbrev pub info_of : Result (Option InfoStat) InfoStat → Option InfoStat
info_of (ok info) = some info
info_of (err info) = info

abbrev pub version_of : Option InfoStat → String
version_of none = unknown_value
version_of (some info) =
    if not (str_eq info.platform_version "") then info.platform_version else unknown_value

abbrev pub from_host : (InfoStat → String) → Result (Option InfoStat) InfoStat → String
from_host field (ok info) = field info
from_host field (err info) = unknown_value

abbrev pub from_cpu : (CpuStat → String) → List CpuStat → String
from_cpu field [] = unknown_value
from_cpu field (cpu ∷ more) = field cpu

abbrev pub total_of : Result String (Option ℕ) → ℕ
total_of (ok (some total)) = total
total_of (ok none) = 0
total_of (err e) = 0

unfoldable pub connection_request : (String → String) → Identity → SystemInfo → ConnectionRequest
unfolding get_os get_os_full_name local_ip_addresses
connection_request title client system =
    let info = info_of system.host_info in
    let virtualization =
      value_or {A = String × String} (unknown_value, unknown_value)
        (system.virtualization_info info) in
    let addresses =
      value_or {A = List String × List String} ([], [])
        (local_ip_addresses system.interface_addrs) in
    record {
      id = client.id;
      name = client.name;
      os = value_or unknown_value (get_os system.uname info);
      os_full_name = get_os_full_name title info;
      os_version = version_of info;
      os_virtualization_system = virtualization.0;
      os_virtualization_role = virtualization.1;
      os_arch = system.go_arch;
      os_family = from_host (λ i. i.platform_family) system.host_info;
      os_kernel = from_host (λ i. i.os) system.host_info;
      version = client.version;
      hostname = value_or unknown_value system.hostname;
      cpu_family = from_cpu (λ c. c.family) system.cpu_info.cpus;
      cpu_model = from_cpu (λ c. c.model) system.cpu_info.cpus;
      cpu_model_name = from_cpu (λ c. c.model_name) system.cpu_info.cpus;
      cpu_vendor = from_cpu (λ c. c.vendor_id) system.cpu_info.cpus;
      num_cpus = system.cpu_info.num_cores;
      memory_total = total_of system.memory_stats;
      timezone = system.timezone;
      ipv4 = addresses.0;
      ipv6 = addresses.1;
      tags = client.tags;
      remotes = client.remotes;
    }

-- `handleSSHRequests`: the server's requests, and what the client answers each with. `json` is what a
-- handler returns, or its error.
pub data SshRequest : Type 0 where
  check_port run_cmd : String → SshRequest
  refresh_updates_status : SshRequest
  other_request : String → SshRequest

pub data SshReply (A : Type 0) : Type 0 where
  reply_error : String → SshReply A
  reply_success_json : Option A → SshReply A

module _ {A : Type 0} where
  abbrev pub replied : Result String A → SshReply A
  replied (ok a) = reply_success_json (some a)
  replied (err e) = reply_error e

  unfoldable pub handle_ssh_request :
      (String → Result String A) → (String → Result String A) → SshRequest → SshReply A
  handle_ssh_request check run (SshRequest.check_port payload) = replied (check payload)
  handle_ssh_request check run (SshRequest.run_cmd payload) = replied (run payload)
  handle_ssh_request check run refresh_updates_status = reply_success_json none
  handle_ssh_request check run (other_request name) = reply_error "unknown request"

-- `checkPort`: a port that cannot be reached is an answer and no error.
pub record CheckPortResponse : Type 0 where
  pub is_open : Bool
  pub err_msg : String

abbrev pub port_response : Bool × Option String → CheckPortResponse
port_response (is_open, none) = record { is_open = is_open; err_msg = "" }
port_response (is_open, some e) = record { is_open = is_open; err_msg = e }

-- `IsPortOpen`, given how the dialing ends.
abbrev pub is_port_open : Option String → Bool × Option String
is_port_open none = (true, none)
is_port_open (some e) = (false, some e)

unfoldable pub check_port_request :
    {Request : Type 0}
    → (String → Result String Request)
    → (Request → Option String)
    → String
    → Result String CheckPortResponse
check_port_request decode dial payload =
    and_then (decode payload) (λ req. ok (port_response (is_port_open (dial req))))
