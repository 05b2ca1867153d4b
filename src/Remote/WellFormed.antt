-- ===== src/Remote/WellFormed.antt =====
-- share/remote.go: what a text that `DecodeRemote` accepts is read as.
use rport.Prelude.{
  String, Bool, true, false, not, ◌&&◌, ◌||◌, List, [], ◌∷◌, ◌++◌, ◌≡◌, refl, arith, str_eq, leb,
  length, if◌then◌else◌, ap, sym, ◌∙◌, Bool-cases, inl, inr,
}
use rport.Result.{ok, and_then_ok, refuse_if, value_or}
use rport.Text.{split}
use rport.Remote.{Remote, zero_host}
use rport.Remote.Decode.{
  invalid_remote, is_port, empty_remote, colon, reversed, put_port, decode_part, decode_parts,
  with_default_hosts, decode_remote,
}

-- The ports that were read are numbers.
abbrev has_ports : Remote → Bool
has_ports r = is_port r.remote_port && (str_eq r.local_port "" || is_port r.local_port)

-- There is a remote port, a number, and a remote host; a local port is a number and has a host.
abbrev pub is_well_formed : Remote → Bool
is_well_formed r =
    is_port r.remote_port
    && not (str_eq r.remote_host "")
    && (str_eq r.local_port "" || (is_port r.local_port && not (str_eq r.local_host "")))

some_appended :
    (ss : List String) (p : String) → (q : String) × (qs : List String) × (ss ++ p ∷ [] ≡ q ∷ qs)
some_appended [] p = (p, [], refl)
some_appended (s ∷ ss) p = (s, ss ++ p ∷ [], refl)

reversed_some :
    (p : String) (ps : List String)
    → (q : String) × (qs : List String) × (reversed (p ∷ ps) ≡ q ∷ qs)
reversed_some p ps = some_appended (reversed ps) p

remote_host_lem : (h : String) → str_eq (if str_eq h "" then zero_host else h) "" ≡ false
remote_host_lem h = elim (Bool-cases (str_eq h "")) [
  | inl none_given ↦ rw none_given refl
  | inr given ↦ ap (λ b. str_eq (if b then zero_host else h) "") given ∙ given
]

local_host_lem :
    (port host : String)
    → str_eq port "" ≡ false
    → str_eq (if str_eq host "" && not (str_eq port "") then zero_host else host) "" ≡ false
local_host_lem port host given = elim (Bool-cases (str_eq host "")) [
  | inl no_host ↦ rw no_host (rw given refl)
  | inr named ↦
      ap (λ b. str_eq (if b && not (str_eq port "") then zero_host else host) "") named ∙ named
]

module _ (is_host : String → Bool) where
  first_part :
      (p : String) (r : Remote) → decode_part is_host p empty_remote ≡ ok r → has_ports r ≡ true
  first_part p r decoded = elim (Bool-cases (is_port p)) [
    | inr other ↦ absurd (ground arith)
    | inl port ↦
        let same : put_port p empty_remote ≡ r = ground arith in rw (sym same) (ground arith)
  ]

  next_part :
      (p : String) (r r' : Remote)
      → has_ports r ≡ true
      → decode_part is_host p r ≡ ok r'
      → has_ports r' ≡ true
  next_part p r r' ports decoded = ground arith

  parts_lem :
      (ps : List String) (r r' : Remote)
      → has_ports r ≡ true
      → decode_parts is_host ps r ≡ ok r'
      → has_ports r' ≡ true
  unfolding decode_parts
  parts_lem [] r r' ports decoded = ap (λ x. has_ports (value_or r x)) (sym decoded) ∙ ports
  parts_lem (p ∷ ps) r r' ports decoded =
      let (more, part, rest) =
        and_then_ok (decode_part is_host p r) (decode_parts is_host ps) r' decoded in
      parts_lem ps more r' (next_part p r more ports part) rest

  all_parts :
      (parts : List String) (r : Remote)
      → leb (length parts) 0 ≡ false
      → decode_parts is_host (reversed parts) empty_remote ≡ ok r
      → has_ports r ≡ true
  unfolding decode_parts
  all_parts [] r some_part decoded = absurd (ground arith)
  all_parts (p ∷ ps) r some_part decoded =
      let (q, qs, same) = reversed_some p ps in
      let (more, part, rest) =
        and_then_ok (decode_part is_host q empty_remote) (decode_parts is_host qs) r
          (ap (λ x. decode_parts is_host x empty_remote) (sym same) ∙ decoded) in
      parts_lem qs more r (first_part q more part) rest

  with_default_hosts_lem :
      (d : Remote) → has_ports d ≡ true → is_well_formed (with_default_hosts is_host d) ≡ true
  with_default_hosts_lem d ports = elim (Bool-cases (str_eq d.local_port "")) [
    | inl no_port ↦ ground (arith, remote_host_lem d.remote_host, no_port, ports)
    | inr port ↦ ground (
      arith,
      remote_host_lem d.remote_host,
      local_host_lem d.local_port d.local_host port,
      port,
      ports,
    )
  ]

-- A text that is decoded gives a remote with a port that is a number and a host, and with a host for
-- the local port, also a number, where there is one.
pub decode_remote_lem :
    (is_host : String → Bool) (s : String) (r : Remote)
    → decode_remote is_host s ≡ ok r
    → is_well_formed r ≡ true
unfolding decode_remote
decode_remote_lem is_host s r decoded =
    let parts = split colon s in
    let (u, few, step) =
      and_then_ok (refuse_if (leb (length parts) 0 || leb 5 (length parts)) invalid_remote) _ r
        decoded in
    let (d, are, last) =
      and_then_ok (decode_parts is_host (reversed parts) empty_remote)
        (λ r. ok (with_default_hosts is_host r)) r step in
    let ports = all_parts is_host parts d (ground arith) are in
    ap (λ x. is_well_formed (value_or r x)) (sym last) ∙ with_default_hosts_lem is_host d ports
