-- ===== src/Remote.antt =====
-- share/remote.go: the description of a tunnel.
pub mod Decode
pub mod WellFormed
use Prim.Native.String.{◌++◌ as concat}
use rport.Prelude.{String, Bool, true, false, not, ◌&&◌, Option, none, some, ℕ, str_eq}

pub record Remote : Type 0 where
  pub local_host : String
  pub local_port : String
  pub remote_host : String
  pub remote_port : String
  pub local_port_random : Bool
  pub scheme : Option String
  pub acl : Option String
  pub idle_timeout_minutes : ℕ

abbrev pub zero_host : String
zero_host = "0.0.0.0"

-- `Remote.Remote`
unfoldable pub remote_address : Remote → String
remote_address r = concat r.remote_host (concat ":" r.remote_port)

abbrev pub add_acl : String → Option String → String
add_acl s none = s
add_acl s (some acl) = concat s (concat "(acl:" (concat acl ")"))

-- `Remote.String`
unfoldable pub remote_string : Remote → String
unfolding remote_address
remote_string r =
    add_acl (concat r.local_host (concat ":" (concat r.local_port (concat ":" (remote_address r)))))
      r.acl

-- `Remote.Equals`
unfoldable pub equals : Remote → Remote → Bool
equals r other = str_eq (remote_string r) (remote_string other)

abbrev pub acls_match : Option String → Option String → Bool
acls_match none none = true
acls_match none (some b) = false
acls_match (some a) none = false
acls_match (some a) (some b) = str_eq a b

-- `Remote.EqualACL`
abbrev pub equal_acl : Remote → Option String → Bool
equal_acl r acl = acls_match r.acl acl

abbrev pub is_local_specified : Remote → Bool
is_local_specified r = not (str_eq r.local_host "") && not (str_eq r.local_port "")
