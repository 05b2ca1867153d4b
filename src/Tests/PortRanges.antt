-- ===== src/Tests/PortRanges.antt =====
-- Runs of the parser of port ranges, and of the checks of requests.
use rport.Prelude.{
  ℕ, String, true, false, ◌&&◌, ◌||◌, Option, none, some, List, [], ◌∷◌, ◌++◌, ◌≡◌, refl, arith,
  str_eq, leb, if◌then◌else◌,
}
use rport.Result.{ok, err, is_ok}
use rport.Text.{split}
use rport.Clients.Start.{Number, natural}
use rport.Ports.Ranges.{
  Building, IsBuilding, max_uint16, try_parse_port_number, add_from, try_parse_port_number_range,
  parse_from, try_parse_port_ranges,
}
use rport.Ports.Allowed.{some_names, contains-try_parse_port_ranges}
use rport.Validation.{
  validate_interpreter, resolve_idle_tunnel_timeout_value, no_command_interpreter,
}
use rport.Tests.ListSets.{list_set, contains}

abbrev pub list_building : Building list_set
list_building = record { new_set = []; add = λ a k. k ∷ a; union = ◌++◌ }

contains-append : (a b : List ℕ) (n : ℕ) → contains (a ++ b) n ≡ (contains a n || contains b n)
contains-append [] b n = refl
contains-append (k ∷ ks) b n = ground (arith, contains-append ks b n)

pub list_building-IsBuilding : IsBuilding list_set list_building
list_building-IsBuilding = record {
  contains_new = λ n. refl;
  contains_add = λ a k n. refl;
  contains_union = contains-append;
}

abbrev pub atoi : String → Option Number
atoi s =
    if str_eq s "3"
    then some (natural 3)
    else if str_eq s "5"
    then some (natural 5)
    else if str_eq s "70000"
    then some (natural 70000)
    else none

ranges : Unit {0}
unfolding try_parse_port_number add_from try_parse_port_number_range parse_from split
ranges = tt

range_tests :
    (try_parse_port_ranges atoi list_set list_building ("3-5" ∷ []) ≡ ok (5 ∷ 4 ∷ 3 ∷ []))
    × (is_ok (try_parse_port_ranges atoi list_set list_building ("5-3" ∷ [])) ≡ false)
    × (is_ok (try_parse_port_ranges atoi list_set list_building ("70000" ∷ [])) ≡ false)
    × (is_ok (try_parse_port_ranges atoi list_set list_building ("3-5-5" ∷ [])) ≡ false)
unfolding ranges
range_tests = (refl, refl, refl, refl)

contains-try_parse_port_ranges_example :
    contains (5 ∷ 4 ∷ 3 ∷ []) 4 ≡ (leb 4 max_uint16 && some_names atoi 4 ("3-5" ∷ []))
unfolding ranges
contains-try_parse_port_ranges_example =
    contains-try_parse_port_ranges atoi list_set list_building list_building-IsBuilding ("3-5" ∷ [])
      (5 ∷ 4 ∷ 3 ∷ []) 4 refl

abbrev minutes_of : String → Option ℕ
minutes_of s =
    if str_eq s "30" then some 30 else if str_eq s "307445735" then some 307445735 else none

-- A number of minutes whose product wraps is accepted with another timeout.
validation_tests :
    (validate_interpreter "tacoscript" false ≡ err no_command_interpreter)
    × (validate_interpreter "cmd" false ≡ ok tt)
    × (is_ok (validate_interpreter "bash" true) ≡ false)
    × (resolve_idle_tunnel_timeout_value minutes_of "30" false ≡ ok 1800000000000)
    × (resolve_idle_tunnel_timeout_value minutes_of "307445735" false ≡ ok 26290448384)
unfolding validate_interpreter resolve_idle_tunnel_timeout_value
validation_tests = (refl, refl, refl, refl, refl)
