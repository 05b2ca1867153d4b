-- ===== src/Validation.antt =====
-- server/validation: what requests may ask for. The messages of errors are left out.
use Prim.Native.Nat.{◌%◌}
use rport.Prelude.{
  ℕ, ◌*◌, ◌≤◌, ◌<◌, String, Bool, false, not, ◌&&◌, ◌||◌, Option, none, some, List, [], ◌∷◌, ◌≡◌,
  arith, str_eq, ltb, leb, if◌then◌else◌, ◌↔◌,
}
use rport.Result.{Result, ok, err}
use rport.Commands.{tacoscript, cmd_shell, power_shell}

pub data Error : Type 0 where
  no_command_interpreter unknown_interpreter conflicting_params invalid_timeout
        timeout_out_of_range :
      Error

abbrev pub valid_input_interpreter : List String
valid_input_interpreter = cmd_shell ∷ power_shell ∷ tacoscript ∷ []

abbrev pub is_one_of : String → List String → Bool
is_one_of s [] = false
is_one_of s (v ∷ vs) = str_eq s v || is_one_of s vs

unfoldable pub validate_interpreter : String → Bool → Result Error (Unit {0})
validate_interpreter interpreter is_script =
    if str_eq interpreter ""
    then ok tt
    else if not is_script && str_eq interpreter tacoscript
    then err no_command_interpreter
    else if is_one_of interpreter valid_input_interpreter
    then ok tt
    else err unknown_interpreter

abbrev pub minute : ℕ
minute = 60000000000

abbrev pub idle_timeout_default : ℕ
idle_timeout_default = 300000000000

abbrev pub idle_timeout_max : ℕ
idle_timeout_max = 604800000000000

-- Go's integers of 64 bits, by their bits: the product wraps.
abbrev pub word : ℕ
word = 18446744073709551616

abbrev pub is_negative : ℕ → Bool
is_negative bits = leb 9223372036854775808 bits

abbrev pub in_minutes : Option ℕ → Result Error ℕ
in_minutes none = err invalid_timeout
in_minutes (some minutes) =
    let timeout = (minutes * minute) % word in
    if is_negative timeout || ltb idle_timeout_max timeout
    then err timeout_out_of_range
    else ok timeout

-- `atoi` returns the bits of an int64.
unfoldable pub resolve_idle_tunnel_timeout_value :
    (String → Option ℕ) → String → Bool → Result Error ℕ
resolve_idle_tunnel_timeout_value atoi idle_timeout_minutes_str skip_idle_timeout =
    if not (str_eq idle_timeout_minutes_str "") && skip_idle_timeout
    then err conflicting_params
    else if skip_idle_timeout
    then ok 0
    else if str_eq idle_timeout_minutes_str ""
    then ok idle_timeout_default
    else in_minutes (atoi idle_timeout_minutes_str)

in_minutes_lem :
    (minutes timeout : ℕ)
    → minutes < 153722867
    → (in_minutes (some minutes) ≡ ok timeout) ↔ ((minutes ≤ 10080) × (timeout ≡ minutes * minute))
in_minutes_lem minutes timeout small = (λ accepted. ground arith, λ (week, same). ground arith)

-- A number of minutes whose product fits into 64 bits is accepted exactly up to the minutes of a week,
-- and the timeout is that many minutes.
resolve_idle_tunnel_timeout_value_iff :
    (atoi : String → Option ℕ) (s : String) (minutes timeout : ℕ)
    → str_eq s "" ≡ false
    → atoi s ≡ some minutes
    → minutes < 153722867
    → (resolve_idle_tunnel_timeout_value atoi s false ≡ ok timeout)
      ↔ ((minutes ≤ 10080) × (timeout ≡ minutes * minute))
unfolding resolve_idle_tunnel_timeout_value
resolve_idle_tunnel_timeout_value_iff atoi s minutes timeout given read small =
    rw given (rw read (in_minutes_lem minutes timeout small))
