-- ===== src/Ports/Ranges.antt =====
-- server/ports/port_range.go. How golang-set builds a set, and `strconv.Atoi`, are parameters.
use rport.Prelude.{
  ℕ, zero, suc, ◌+◌, ◌-◌, String, false, ◌||◌, Option, none, some, List, [], ◌∷◌, ◌≡◌, ltb, ◌==◌,
  if◌then◌else◌,
}
use rport.Result.{Result, ok, err, and_then, refuse_if}
use rport.Text.{split}
use rport.Clients.Start.{Number, natural, negative}
use rport.Ports.{MapSet}

pub record Building (s : MapSet) : Type 0 where
  pub new_set : s.Set
  pub add : s.Set → ℕ → s.Set
  pub union : s.Set → s.Set → s.Set

pub record IsBuilding (s : MapSet) (b : Building s) : Type 0 where
  pub contains_new : (n : ℕ) → s.contains b.new_set n ≡ false
  pub contains_add : (a : s.Set) (k n : ℕ) → s.contains (b.add a k) n ≡ (k == n || s.contains a n)
  pub contains_union :
      (a c : s.Set) (n : ℕ) → s.contains (b.union a c) n ≡ (s.contains a n || s.contains c n)

pub data Error : Type 0 where
  not_a_number invalid_port_number incorrect_range : String → Error
  invalid_port_range : String → String → Error

abbrev pub max_uint16 : ℕ
max_uint16 = 65535

abbrev pub dash : ℕ
dash = 45

module _ (atoi : String → Option Number) where
  abbrev pub number_of : String → Option Number → Result Error ℕ
  number_of str none = err (not_a_number str)
  number_of str (some negative) = err (invalid_port_number str)
  number_of str (some (natural n)) =
      if ltb max_uint16 n then err (invalid_port_number str) else ok n

  unfoldable pub try_parse_port_number : String → Result Error ℕ
  try_parse_port_number str = number_of str (atoi str)

  module _ (s : MapSet) (b : Building s) where
    -- The loop of `setFromRange`, which has so many turns left.
    unfoldable pub add_from : s.Set → ℕ → ℕ → s.Set
    add_from set start zero = set
    add_from set start (suc turns) = add_from (b.add set start) (1 + start) turns

    abbrev pub set_from_range : ℕ → ℕ → s.Set
    set_from_range start end = add_from b.new_set start (1 + (end - start))

    unfoldable pub try_parse_port_number_range : String → String → Result Error s.Set
    unfolding try_parse_port_number add_from
    try_parse_port_number_range range_start range_end =
        and_then (try_parse_port_number range_start) λ start.
          and_then (try_parse_port_number range_end) λ end.
            and_then (refuse_if (ltb end start) (invalid_port_range range_start range_end))
              λ _. ok (set_from_range start end)

    -- One turn of the loop: the range's parts between dashes.
    abbrev pub add_range : String → List String → s.Set → Result Error s.Set
    add_range range_str [] result = err (incorrect_range range_str)
    add_range range_str (p ∷ []) result =
        and_then (try_parse_port_number p) λ n. ok (b.add result n)
    add_range range_str (p ∷ q ∷ []) result =
        and_then (try_parse_port_number_range p q) λ range. ok (b.union result range)
    add_range range_str (p ∷ q ∷ r ∷ rest) result = err (incorrect_range range_str)

    unfoldable pub parse_from : s.Set → List String → Result Error s.Set
    unfolding try_parse_port_number_range split
    parse_from result [] = ok result
    parse_from result (range_str ∷ rest) =
        and_then (add_range range_str (split dash range_str) result) λ more. parse_from more rest

    abbrev pub try_parse_port_ranges : List String → Result Error s.Set
    try_parse_port_ranges = parse_from b.new_set
