-- ===== src/Ports/Allowed.antt =====
-- server/ports/port_range.go: which ports the ranges of the configuration allow.
use rport.Prelude.{
  ℕ, zero, suc, ◌+◌, ◌-◌, ◌≤◌, String, Bool, false, ◌&&◌, ◌||◌, Option, none, some, List, [], ◌∷◌,
  ◌≡◌, arith, leb, ltb, ◌==◌, ap, sym, ◌∙◌, inl, inr, Bool-cases,
}
use rport.Result.{ok, value_or, Result-cases}
use rport.Text.{split}
use rport.Clients.Start.{Number, natural, negative}
use rport.Ports.{MapSet}
use rport.Ports.Ranges.{
  Building, IsBuilding, max_uint16, dash, number_of, try_parse_port_number, add_from,
  set_from_range, try_parse_port_number_range, add_range, parse_from, try_parse_port_ranges,
}

-- The number that a text is read as.
abbrev pub value_of : Option Number → Option ℕ
value_of none = none
value_of (some negative) = none
value_of (some (natural n)) = some n

abbrev pub is_value : ℕ → Option ℕ → Bool
is_value n none = false
is_value n (some k) = n == k

abbrev pub is_between : ℕ → Option ℕ → Option ℕ → Bool
is_between n (some start) (some end) = leb start n && leb n end
is_between n none o = false
is_between n (some start) none = false

module _ (atoi : String → Option Number) where
  abbrev pub is_named : ℕ → List String → Bool
  is_named n [] = false
  is_named n (p ∷ []) = is_value n (value_of (atoi p))
  is_named n (p ∷ q ∷ []) = is_between n (value_of (atoi p)) (value_of (atoi q))
  is_named n (p ∷ q ∷ r ∷ rest) = false

  abbrev pub some_names : ℕ → List String → Bool
  some_names n [] = false
  some_names n (range_str ∷ rest) = is_named n (split dash range_str) || some_names n rest

  number_lem :
      (str : String) (o : Option Number) (n : ℕ)
      → number_of atoi str o ≡ ok n
      → (value_of o ≡ some n) × (n ≤ max_uint16)
  number_lem str none n parsed = absurd (ground arith)
  number_lem str (some negative) n parsed = absurd (ground arith)
  number_lem str (some (natural k)) n parsed = ground arith

  module _ (s : MapSet) (b : Building s) (laws : IsBuilding s b) where
    contains-add_from :
        (set : s.Set) (start turns n : ℕ)
        → s.contains (add_from atoi s b set start turns) n
          ≡ (s.contains set n || (leb start n && ltb n (start + turns)))
    unfolding add_from
    contains-add_from set start zero n = ground arith
    contains-add_from set start (suc turns) n =
        contains-add_from (b.add set start) (1 + start) turns n
        ∙ ground (arith, laws.contains_add set start n)

    contains-set_from_range :
        (start end n : ℕ)
        → start ≤ end
        → s.contains (set_from_range atoi s b start end) n ≡ (leb start n && leb n end)
    contains-set_from_range start end n ordered =
        contains-add_from b.new_set start (1 + (end - start)) n
        ∙ ground (arith, laws.contains_new n)

    between_lem :
        (p q : String) (range : s.Set) (n : ℕ)
        → try_parse_port_number_range atoi s b p q ≡ ok range
        → s.contains range n
          ≡ (leb n max_uint16 && is_between n (value_of (atoi p)) (value_of (atoi q)))
    unfolding try_parse_port_number_range try_parse_port_number
    between_lem p q range n parsed = elim (Result-cases (number_of atoi p (atoi p))) [
      | inr (e, failed) ↦ absurd (ground arith)
      | inl (start, first) ↦ elim (Result-cases (number_of atoi q (atoi q))) [
        | inr (e, failed) ↦ absurd (ground arith)
        | inl (end, second) ↦ elim (Bool-cases (ltb end start)) [
          | inl wrong ↦ absurd (ground arith)
          | inr ordered ↦
              let (is_start, small) = number_lem p (atoi p) start first in
              let (is_end, bounded) = number_lem q (atoi q) end second in
              let set : set_from_range atoi s b start end ≡ range = ground arith in
              ap (λ x. s.contains x n) (sym set)
              ∙ contains-set_from_range start end n (ground arith)
              ∙ ground (arith, is_start, is_end)
        ]
      ]
    ]

    range_lem :
        (range_str : String) (parts : List String) (set set' : s.Set) (n : ℕ)
        → add_range atoi s b range_str parts set ≡ ok set'
        → s.contains set' n ≡ (s.contains set n || (leb n max_uint16 && is_named n parts))
    unfolding try_parse_port_number
    range_lem range_str [] set set' n added = absurd (ground arith)
    range_lem range_str (p ∷ q ∷ r ∷ rest) set set' n added = absurd (ground arith)
    range_lem range_str (p ∷ []) set set' n added =
        elim (Result-cases (number_of atoi p (atoi p))) [
          | inr (e, failed) ↦ absurd (ground arith)
          | inl (k, parsed) ↦
              let (is_k, small) = number_lem p (atoi p) k parsed in
              let same : b.add set k ≡ set' = ground arith in
              ap (λ x. s.contains x n) (sym same) ∙ laws.contains_add set k n ∙ ground (arith, is_k)
        ]
    range_lem range_str (p ∷ q ∷ []) set set' n added =
        elim (Result-cases (try_parse_port_number_range atoi s b p q)) [
          | inr (e, failed) ↦ absurd (ground arith)
          | inl (range, parsed) ↦
              let same : b.union set range ≡ set' = ground arith in
              ap (λ x. s.contains x n) (sym same)
              ∙ laws.contains_union set range n
              ∙ ap (λ x. s.contains set n || x) (between_lem p q range n parsed)
        ]

    ranges_lem :
        (ranges : List String) (set set' : s.Set) (n : ℕ)
        → parse_from atoi s b set ranges ≡ ok set'
        → s.contains set' n ≡ (s.contains set n || (leb n max_uint16 && some_names n ranges))
    unfolding parse_from
    ranges_lem [] set set' n parsed =
        ap (λ x. s.contains (value_or set x) n) (sym parsed) ∙ ground arith
    ranges_lem (range_str ∷ rest) set set' n parsed =
        elim (Result-cases (add_range atoi s b range_str (split dash range_str) set)) [
          | inr (e, failed) ↦ absurd (ground arith)
          | inl (more, added) ↦
              ranges_lem rest more set' n (ground arith)
              ∙ ap (λ x. x || (leb n max_uint16 && some_names n rest))
                  (range_lem range_str (split dash range_str) set more n added)
              ∙ ground arith
        ]

-- The set that is parsed from a list of ranges holds exactly the numbers up to 65535 that one of them
-- names: a single number names itself, and two numbers with a dash name what lies between them.
pub contains-try_parse_port_ranges :
    (atoi : String → Option Number) (s : MapSet) (b : Building s)
    → IsBuilding s b
    → (ranges : List String) (set : s.Set) (n : ℕ) → try_parse_port_ranges atoi s b ranges ≡ ok set
    → s.contains set n ≡ (leb n max_uint16 && some_names atoi n ranges)
contains-try_parse_port_ranges atoi s b laws ranges set n parsed =
    ranges_lem atoi s b laws ranges b.new_set set n parsed ∙ ground (arith, laws.contains_new n)
