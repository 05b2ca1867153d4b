-- ===== src/Remote/Decode.antt =====
-- share/remote.go, `DecodeRemote`. `is_host` is what Go's `url.Parse` accepts.
use Prim.Native.Char.{code}
use rport.Prelude.{
  ℕ, String, Bool, true, false, not, ◌&&◌, ◌||◌, none, List, [], ◌∷◌, ◌++◌, str_eq, leb, length,
  if◌then◌else◌,
}
use rport.Result.{Result, ok, and_then, refuse_if}
use rport.Text.{split}
use rport.Remote.{Remote, zero_host}

pub data Error : Type 0 where
  invalid_remote missing_ports invalid_host : Error

abbrev pub is_digit : ℕ → Bool
is_digit c = leb 48 c && leb c 57

unfoldable pub all_digits : String → Bool
all_digits String.[] = true
all_digits (String.◌∷◌ c s) = is_digit (code c) && all_digits s

-- The pattern `^\d+$`
abbrev pub is_port : String → Bool
is_port s = not (str_eq s "") && all_digits s

abbrev pub empty_remote : Remote
empty_remote = record {
  local_host = "";
  local_port = "";
  remote_host = "";
  remote_port = "";
  local_port_random = false;
  scheme = none;
  acl = none;
  idle_timeout_minutes = 0;
}

abbrev pub colon : ℕ
colon = 58

abbrev pub put_port : String → Remote → Remote
put_port p r =
    if str_eq r.remote_port "" then record r { remote_port = p } else record r { local_port = p }

abbrev pub put_host : String → Remote → Remote
put_host p r =
    if str_eq r.remote_host "" then record r { remote_host = p } else record r { local_host = p }

abbrev pub reversed : List String → List String
reversed [] = []
reversed (s ∷ ss) = reversed ss ++ s ∷ []

module _ (is_host : String → Bool) where
  abbrev pub decode_part : String → Remote → Result Error Remote
  decode_part p r =
      if is_port p
      then ok (put_port p r)
      else and_then (refuse_if (str_eq r.remote_port "" && str_eq r.local_port "") missing_ports)
          λ _. and_then (refuse_if (not (is_host p)) invalid_host) λ _. ok (put_host p r)

  -- The loop over the parts, from the last to the first.
  unfoldable pub decode_parts : List String → Remote → Result Error Remote
  unfolding all_digits
  decode_parts [] r = ok r
  decode_parts (p ∷ ps) r = and_then (decode_part p r) λ more. decode_parts ps more

  abbrev pub with_default_hosts : Remote → Remote
  with_default_hosts r = record r {
    local_host =
        if str_eq r.local_host "" && not (str_eq r.local_port "") then zero_host else r.local_host;
    remote_host = if str_eq r.remote_host "" then zero_host else r.remote_host;
  }

  unfoldable pub decode_remote : String → Result Error Remote
  unfolding decode_parts split
  decode_remote s =
      let parts = split colon s in
      and_then (refuse_if (leb (length parts) 0 || leb 5 (length parts)) invalid_remote)
        λ _. and_then (decode_parts (reversed parts) empty_remote) λ r. ok (with_default_hosts r)
