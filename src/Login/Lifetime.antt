-- ===== src/Login/Lifetime.antt =====
-- server/api.go, `parseTokenLifetime`, on the bits of Go's 64 bit integers, where the product wraps.
use rport.Prelude.{
  ℕ, ◌*◌, ◌≤◌, ◌<◌, String, Bool, not, ◌&&◌, ◌||◌, ◌≡◌, arith, Option, none, some, str_eq, ltb, leb,
  ◌==◌, if◌then◌else◌,
}
use Prim.Native.Nat.{◌%◌}
use rport.Result.{Result, ok, err}

abbrev pub second : ℕ
second = 1000000000

-- 90 days and 10 minutes, in nanoseconds
abbrev pub max_token_lifetime : ℕ
max_token_lifetime = 7776000000000000

abbrev pub default_token_lifetime : ℕ
default_token_lifetime = 600000000000

abbrev pub word : ℕ
word = 18446744073709551616

-- The sign of an int64 by its bits.
abbrev pub is_negative : ℕ → Bool
is_negative bits = leb 9223372036854775808 bits

abbrev pub bad_request : ℕ
bad_request = 400

unfoldable pub lifetime_of : ℕ → Result ℕ ℕ
lifetime_of lifetime =
    let result = (lifetime * second) % word in
    if not (is_negative result) && ltb max_token_lifetime result
    then err bad_request
    else if is_negative result || result == 0
    then ok default_token_lifetime
    else ok result

abbrev pub lifetime_or_error : Option ℕ → Result ℕ ℕ
lifetime_or_error none = err bad_request
lifetime_or_error (some lifetime) = lifetime_of lifetime

unfoldable pub parse_token_lifetime : (String → Option ℕ) → String → Result ℕ ℕ
unfolding lifetime_of
parse_token_lifetime parse_int lifetime_str =
    lifetime_or_error (parse_int (if str_eq lifetime_str "" then "0" else lifetime_str))

lifetime_lem :
    (o : Option ℕ) (lifetime : ℕ)
    → lifetime_or_error o ≡ ok lifetime
    → (0 < lifetime) × (lifetime ≤ max_token_lifetime)
unfolding lifetime_of
lifetime_lem none lifetime parsed = absurd (ground arith)
lifetime_lem (some n) lifetime parsed = ground arith

-- Whatever number a login asks for, also one whose product with a second overflows, the lifetime
-- that is granted is positive and no longer than the maximum of 90 days.
pub parse_token_lifetime_bounds :
    (parse_int : String → Option ℕ) (lifetime_str : String) (lifetime : ℕ)
    → parse_token_lifetime parse_int lifetime_str ≡ ok lifetime
    → (0 < lifetime) × (lifetime ≤ max_token_lifetime)
unfolding parse_token_lifetime
parse_token_lifetime_bounds parse_int lifetime_str lifetime parsed =
    lifetime_lem (parse_int (if str_eq lifetime_str "" then "0" else lifetime_str)) lifetime parsed
