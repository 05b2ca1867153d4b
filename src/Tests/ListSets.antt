-- ===== src/Tests/ListSets.antt =====
-- Sets of numbers as lists, which behave as the ports ask of a set, and ports drawn from one.
use rport.Prelude.{
  ℕ, Bool, true, false, not, ◌&&◌, ◌||◌, Option, none, some, List, [], ◌∷◌, ◌≡◌, ◌==◌, refl, arith,
  All, if◌then◌else◌,
}
use rport.Ports.{MapSet, IsMapSet, PortDistributor, refresh, get_random_port}
use rport.Ports.Draws.{Draws, none_yet, one_more, distinct, is_free, Draws-distinct}

abbrev pub contains : List ℕ → ℕ → Bool
contains [] n = false
contains (k ∷ ks) n = k == n || contains ks n

abbrev pub without : List ℕ → ℕ → List ℕ
without [] n = []
without (k ∷ ks) n = let rest = without ks n in if k == n then rest else k ∷ rest

abbrev pub difference : List ℕ → List ℕ → List ℕ
difference [] b = []
difference (k ∷ ks) b = let rest = difference ks b in if contains b k then rest else k ∷ rest

abbrev pub pop : List ℕ → Option (ℕ × List ℕ)
pop [] = none
pop (k ∷ ks) = some (k, without ks k)

abbrev pub list_set : MapSet
list_set = record { Set = List ℕ; contains = contains; difference = difference; pop = pop }

contains_difference :
    (a b : List ℕ) (n : ℕ) → contains (difference a b) n ≡ (contains a n && not (contains b n))
contains_difference [] b n = refl
contains_difference (k ∷ ks) b n = ground (arith, contains_difference ks b n)

contains_without :
    (a : List ℕ) (n k : ℕ) → contains (without a n) k ≡ (contains a k && not (n == k))
contains_without [] n k = refl
contains_without (j ∷ js) n k = ground (arith, contains_without js n k)

pop_member : (a b : List ℕ) (n : ℕ) → pop a ≡ some (n, b) → contains a n ≡ true
pop_member [] b n popped = absurd (ground arith)
pop_member (k ∷ ks) b n popped = ground arith

pop_rest :
    (a b : List ℕ) (n k : ℕ) → pop a ≡ some (n, b) → contains b k ≡ (contains a k && not (n == k))
pop_rest [] b n k popped = absurd (ground arith)
pop_rest (j ∷ js) b n k popped = ground (arith, contains_without js j k)

pub list_set-IsMapSet : IsMapSet list_set
list_set-IsMapSet = record {
  contains_difference = contains_difference;
  pop_member = pop_member;
  pop_rest = pop_rest;
}

abbrev pub some_ports : PortDistributor list_set
some_ports = record { allowed_ports = 3 ∷ 4 ∷ 5 ∷ []; ports_pool = none }

abbrev with_pool : List ℕ → PortDistributor list_set
with_pool pool = record some_ports { ports_pool = some pool }

example-Draws : Draws list_set none (with_pool (3 ∷ 5 ∷ [])) (5 ∷ 3 ∷ []) (with_pool [])
unfolding get_random_port
example-Draws = one_more (one_more none_yet refl) refl

Draws-distinct_example :
    (distinct (5 ∷ 3 ∷ []) ≡ true)
    × All (λ n. is_free list_set list_set-IsMapSet (4 ∷ []) (3 ∷ 4 ∷ 5 ∷ []) n ≡ true) (5 ∷ 3 ∷ [])
unfolding refresh
Draws-distinct_example =
    Draws-distinct list_set list_set-IsMapSet (4 ∷ []) (3 ∷ 4 ∷ 5 ∷ []) none some_ports
      (with_pool (3 ∷ 5 ∷ [])) (with_pool []) (5 ∷ 3 ∷ []) refl refl example-Draws
