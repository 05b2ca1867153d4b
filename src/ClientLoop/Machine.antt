-- ===== src/ClientLoop/Machine.antt =====
-- client/client.go, client/system_info.go and client/virt_info_provider.go: what a client finds out
-- about its machine, and the connection request that it makes of it.
use Prim.Native.String.{len}
use rport.Prelude.{
  ℕ, zero, suc, ◌-◌, ◌||◌, String, Bool, not, ◌&&◌, Option, none, some, List, [], ◌∷◌, ◌++◌, str_eq,
  ◌==◌, ltb, if◌then◌else◌,
}
use rport.Commands.{join}
use rport.Text.{has_prefix, contains}
use rport.Result.{Result, ok, err, and_then, value_or}

abbrev pub unknown_value : String
unknown_value = "unknown"

-- `host.InfoStat`, `cpu.InfoStat` and the addresses of the interfaces, as far as the client reads them.
pub record InfoStat : Type 0 where
  pub os : String
  pub platform : String
  pub platform_family : String
  pub platform_version : String
  pub virtualization_system : String
  pub virtualization_role : String

pub record CpuStat : Type 0 where
  pub family : String
  pub model : String
  pub model_name : String
  pub vendor_id : String

pub record CpuInfo : Type 0 where
  pub cpus : List CpuStat
  pub num_cores : ℕ

pub record Ip : Type 0 where
  pub text : String
  pub is_loopback : Bool
  pub is_ipv4 : Bool
  pub is_ipv6 : Bool

abbrev pub error_of : {A : Type 0} → Result String A → List String
error_of (ok a) = []
error_of (err e) = e ∷ []

-- `realSystemInfo.CPUInfo`: its second result is the text of the error. The error is made even when
-- both calls succeed, so it is never nil.
unfoldable pub cpu_info : Result String (List CpuStat) → Result String ℕ → CpuInfo × String
cpu_info infos count = (
  record { cpus = value_or {A = List CpuStat} [] infos; num_cores = value_or {A = ℕ} 0 count },
  join ", " (error_of infos ++ error_of count),
)

-- `strings.Count` of a part that is not empty: an occurrence is counted once its characters are passed.
unfoldable pub count_from : ℕ → String → String → ℕ
count_from skip String.[] part = 0
count_from (suc skip) (String.◌∷◌ c s) part = count_from skip s part
count_from zero (String.◌∷◌ c s) part =
    let found = suc (count_from (len part - 1) s part) in
    let missed = count_from 0 s part in if has_prefix (String.◌∷◌ c s) part then found else missed

unfoldable pub count : String → String → ℕ
unfolding count_from has_prefix
count s part = count_from 0 s part

-- What a text in the list of devices says; a count of 0 stands for any positive one.
pub record DevicesExpectation : Type 0 where
  pub expected_substr : String
  pub expected_count : ℕ
  pub virt_system : String
  pub virt_role : String

abbrev guest : String → ℕ → String → DevicesExpectation
guest part n system = record {
  expected_substr = part;
  expected_count = n;
  virt_system = system;
  virt_role = "guest";
}

abbrev pub devices_info_expectations : List DevicesExpectation
devices_info_expectations =
    guest "hyperv_fb" 1 "HyperV"
    ∷ guest "vmwgfx" 1 "VMware"
    ∷ guest "virtio-pci" 0 "KVM"
    ∷ guest "xen-platform-pci" 0 "Xen"
    ∷ []

abbrev pub is_expected : ℕ → ℕ → Bool
is_expected expected found = (ltb 0 expected && found == expected) || (expected == 0 && ltb 0 found)

abbrev pub first_expected : String → List DevicesExpectation → String × String
first_expected raw [] = (unknown_value, unknown_value)
first_expected raw (e ∷ es) =
    let rest = first_expected raw es in
    if is_expected e.expected_count (count raw e.expected_substr)
    then (e.virt_system, e.virt_role)
    else rest

unfoldable pub get_virt_info_from_nix_devices_list : String → String × String
unfolding count
get_virt_info_from_nix_devices_list raw = first_expected raw devices_info_expectations

-- The services of Windows. `matches` is the regular expressions', and `ranged` is the order in which
-- Go ranges over the map of the patterns.
pub record ServicePattern : Type 0 where
  pub regex : String
  pub system : String

abbrev pub regex_to_virt_info_mapping : List ServicePattern
regex_to_virt_info_mapping =
    record { regex = "Running.*vmicheartbeat"; system = "HyperV" }
    ∷ record { regex = "Running.*VMTools"; system = "VMware" }
    ∷ record { regex = "Running.*QEMU-GA"; system = "KVM" }
    ∷ []

module _ (matches : String → String → Bool)
    (ranged : List ServicePattern → List ServicePattern) where
  abbrev pub first_service : String → List ServicePattern → String × String
  first_service raw [] = (unknown_value, unknown_value)
  first_service raw (p ∷ ps) =
      let rest = first_service raw ps in if matches p.regex raw then (p.system, "guest") else rest

  unfoldable pub get_virt_info_from_powershell_services_list : String → String × String
  unfolding contains
  get_virt_info_from_powershell_services_list raw =
      if contains raw "vmcompute"
      then ("HyperV", "host")
      else first_service raw (ranged regex_to_virt_info_mapping)

-- `/proc/bus/pci/devices`
pub data DevicesFile : Type 0 where
  missing : DevicesFile
  unreadable content : String → DevicesFile

unfoldable pub virtualization_info_nix : DevicesFile → Result String (String × String)
unfolding get_virt_info_from_nix_devices_list
virtualization_info_nix missing = ok ("", "")
virtualization_info_nix (unreadable e) = err e
virtualization_info_nix (content raw) = ok (get_virt_info_from_nix_devices_list raw)

-- `realSystemInfo.VirtualizationInfo`: what the host information says goes first.
module _ (to_upper to_lower : String → String) (detected : Result String (String × String)) where
  abbrev pub detect : Result String (String × String)
  detect = and_then detected (λ (system, role). ok (to_upper system, to_lower role))

  unfoldable pub virtualization_info : Option InfoStat → Result String (String × String)
  virtualization_info none = detect
  virtualization_info (some info) =
      if not (str_eq info.virtualization_system "")
      then ok (to_upper info.virtualization_system, to_lower info.virtualization_role)
      else detect
