-- ===== src/Ports.antt =====
-- server/ports/port_distributor.go. The sets of the package golang-set are a parameter.
pub mod Draws
pub mod Ranges
pub mod Allowed
use rport.Prelude.{
  ℕ, Bool, true, false, not, ◌&&◌, Option, none, some, ◌≡◌, ◌==◌, is_none, refl, arith,
  if◌then◌else◌,
}
use rport.Result.{Result, ok, err}

pub record MapSet : Type 1 where
  pub Set : Type 0
  pub contains : Set → ℕ → Bool
  pub difference : Set → Set → Set
  pub pop : Set → Option (ℕ × Set)

-- What the package documents: `Difference` holds what the second set lacks, and `Pop` removes an
-- element and returns it.
pub record IsMapSet (s : MapSet) : Type 0 where
  pub contains_difference :
      (a b : s.Set) (n : ℕ)
      → s.contains (s.difference a b) n ≡ (s.contains a n && not (s.contains b n))
  pub pop_member : (a b : s.Set) (n : ℕ) → s.pop a ≡ some (n, b) → s.contains a n ≡ true
  pub pop_rest :
      (a b : s.Set) (n k : ℕ)
      → s.pop a ≡ some (n, b)
      → s.contains b k ≡ (s.contains a k && not (n == k))

module _ (s : MapSet) where
  pub record PortDistributor : Type 0 where
    pub allowed_ports : s.Set
    pub ports_pool : Option s.Set

  -- `Refresh`, given what `ListBusyPorts` returned.
  unfoldable pub refresh : Option s.Set → PortDistributor → Option PortDistributor
  refresh none d = none
  refresh (some busy) d = some (record d { ports_pool = some (s.difference d.allowed_ports busy) })

  abbrev pub taken : PortDistributor → Option (ℕ × s.Set) → Option (ℕ × PortDistributor)
  taken d none = none
  taken d (some (n, rest)) = some (n, record d { ports_pool = some rest })

  abbrev pub pop_from : PortDistributor → Option s.Set → Option (ℕ × PortDistributor)
  pop_from d none = none
  pop_from d (some pool) = taken d (s.pop pool)

  abbrev pub filled : Option s.Set → PortDistributor → Option PortDistributor
  filled busy d = if is_none d.ports_pool then refresh busy d else some d

  abbrev pub pop_pool : Option PortDistributor → Option (ℕ × PortDistributor)
  pop_pool none = none
  pop_pool (some d) = pop_from d d.ports_pool

  -- `GetRandomPort`; `none` is an error, where the ports in use are unknown or no port is left.
  unfoldable pub get_random_port : Option s.Set → PortDistributor → Option (ℕ × PortDistributor)
  unfolding refresh
  get_random_port busy d = pop_pool (filled busy d)

  abbrev pub is_port_allowed : ℕ → PortDistributor → Bool
  is_port_allowed port d = s.contains d.allowed_ports port

  abbrev pub lacks : Option s.Set → ℕ → Bool
  lacks none port = true
  lacks (some pool) port = not (s.contains pool port)

  -- `IsPortBusy`; it is asked only after `Refresh`, when the pool is not nil.
  abbrev pub is_port_busy : ℕ → PortDistributor → Bool
  is_port_busy port d = lacks d.ports_pool port
