-- ===== src/Ports/Draws.antt =====
-- server/ports/port_distributor.go: which ports a sequence of calls of `GetRandomPort` hands out.
use rport.Prelude.{
  ℕ, Bool, true, false, not, ◌&&◌, ◌||◌, Option, some, List, [], ◌∷◌, ◌≡◌, ◌==◌, refl, arith, All,
  Option-cases, inl, inr,
}
use rport.Ports.{MapSet, IsMapSet, PortDistributor, refresh, get_random_port}

-- `ds` are the ports that calls in a row hand out, the last call last, and `d'` is what they leave.
pub data Draws (s : MapSet) (busy : Option s.Set) (d : PortDistributor s)
    : List ℕ → PortDistributor s → Type 0 where
  none_yet : Draws s busy d [] d
  one_more :
      {ports : List ℕ} {d' d'' : PortDistributor s} {port : ℕ}
      → Draws s busy d ports d'
      → get_random_port s busy d' ≡ some (port, d'')
      → Draws s busy d (port ∷ ports) d''

abbrev member : ℕ → List ℕ → Bool
member n [] = false
member n (k ∷ ks) = n == k || member n ks

abbrev pub distinct : List ℕ → Bool
distinct [] = true
distinct (n ∷ ns) = not (member n ns) && distinct ns

module _ (s : MapSet) (laws : IsMapSet s) (busy : s.Set) (allowed : s.Set) where
  abbrev pub is_free : ℕ → Bool
  is_free n = s.contains allowed n && not (s.contains busy n)

  -- The pool holds the free ports that were not handed out.
  record HoldsRest (ports : List ℕ) (d : PortDistributor s) : Type 0 where
    pool : s.Set
    is_pool : d.ports_pool ≡ some pool
    rest : (n : ℕ) → s.contains pool n ≡ (is_free n && not (member n ports))

  popped_port :
      (d d' : PortDistributor s) (port : ℕ) (b : Option s.Set) (pool : s.Set)
      → d.ports_pool ≡ some pool
      → get_random_port s b d ≡ some (port, d')
      → (pool' : s.Set) × (s.pop pool ≡ some (port, pool')) × (d'.ports_pool ≡ some pool')
  unfolding get_random_port
  popped_port d d' port b pool is_pool drawn = elim (Option-cases (s.pop pool)) [
    | inl empty ↦ absurd (ground (arith, is_pool))
    | inr ((n, pool'), popped) ↦ (pool', ground (arith, is_pool), ground (arith, is_pool))
  ]

  draw_one :
      (ports : List ℕ) (d d' : PortDistributor s) (port : ℕ) (b : Option s.Set)
      → HoldsRest ports d
      → get_random_port s b d ≡ some (port, d')
      → HoldsRest (port ∷ ports) d' × (is_free port ≡ true) × (member port ports ≡ false)
  draw_one ports d d' port b holds drawn =
      let (pool', popped, is_pool') = popped_port d d' port b holds.pool holds.is_pool drawn in
      (
        record {
          pool = pool';
          is_pool = is_pool';
          rest = λ n. ground (arith, laws.pop_rest holds.pool pool' port n popped, holds.rest n);
        },
        ground (arith, laws.pop_member holds.pool pool' port popped, holds.rest port),
        ground (arith, laws.pop_member holds.pool pool' port popped, holds.rest port),
      )

  draws_lem :
      (b : Option s.Set) (d0 d' : PortDistributor s) (ports : List ℕ)
      → HoldsRest [] d0
      → Draws s b d0 ports d'
      → HoldsRest ports d' × (distinct ports ≡ true) × All (λ n. is_free n ≡ true) ports
  draws_lem b d0 d' [] start none_yet = (start, refl, tt)
  draws_lem b d0 d'' (port ∷ ports) start (one_more {d' = d'} draws drawn) =
      let (holds, distinct_so_far, free_so_far) = draws_lem b d0 d' ports start draws in
      let (holds', free, new) = draw_one ports d' d'' port b holds drawn in
      (holds', ground arith, (free, free_so_far))

  -- Where the sets behave as their package documents: after a refresh, the ports that calls of
  -- `GetRandomPort` hand out in a row are allowed, were not busy at the refresh, and differ from
  -- each other.
  pub Draws-distinct :
      (b : Option s.Set) (d d0 d' : PortDistributor s) (ports : List ℕ)
      → d.allowed_ports ≡ allowed
      → refresh s (some busy) d ≡ some d0
      → Draws s b d0 ports d'
      → (distinct ports ≡ true) × All (λ n. is_free n ≡ true) ports
  unfolding refresh
  Draws-distinct b d d0 d' ports all_allowed refreshed draws =
      let start : HoldsRest [] d0 = record {
        pool = s.difference allowed busy;
        is_pool = ground arith;
        rest = λ n. ground (arith, laws.contains_difference allowed busy n);
      } in
      let (holds, differ, free) = draws_lem b d0 d' ports start draws in (differ, free)
