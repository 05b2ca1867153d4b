-- ===== src/Dict.antt =====
-- Go's `map[string]V` as an association list with at most one entry for a key.
-- `m[k]` is `lookup`, `m[k] = v` is `insert`, `delete(m, k)` is `remove`.
use rport.Prelude.{
  String, Bool, true, false, not, ◌&&◌, ◌||◌, ◌≡◌, refl, List, [], ◌∷◌, Option, none, some, arith,
  str_eq, eq_iff, if◌then◌else◌,
}

abbrev pub Dict {ℓ} : Type ℓ → Type ℓ
Dict V = List (String × V)

module _ {ℓ} {V : Type ℓ} where
  unfoldable pub remove : String → Dict V → Dict V
  remove key [] = []
  remove key (e ∷ rest) = let kept = remove key rest in if str_eq e.0 key then kept else e ∷ kept

  unfoldable pub insert : String → V → Dict V → Dict V
  insert key value [] = (key, value) ∷ []
  insert key value (e ∷ rest) =
      if str_eq e.0 key then (key, value) ∷ rest else e ∷ insert key value rest

  unfoldable pub lookup : String → Dict V → Option V
  lookup key [] = none
  lookup key (e ∷ rest) = if str_eq e.0 key then some e.1 else lookup key rest

  pub lookup-remove :
      (key other : String) (d : Dict V)
      → lookup other (remove key d) ≡ (if str_eq key other then none else lookup other d)
  unfolding remove lookup
  lookup-remove key other [] = ground arith
  lookup-remove key other (e ∷ rest) =
      ground
        (arith, lookup-remove key other rest, eq_iff e.0 key, eq_iff e.0 other, eq_iff key other)

  pub lookup-insert :
      (key other : String) (value : V) (d : Dict V)
      → lookup other (insert key value d)
        ≡ (if str_eq key other then some value else lookup other d)
  unfolding lookup insert
  lookup-insert key other value [] = refl
  lookup-insert key other value (e ∷ rest) = ground (
    arith,
    lookup-insert key other value rest,
    eq_iff e.0 key,
    eq_iff e.0 other,
    eq_iff key other,
  )

  abbrev pub has_key : String → Dict V → Bool
  has_key key [] = false
  has_key key (e ∷ es) = str_eq e.0 key || has_key key es

  -- A map has one entry for a key.
  abbrev pub has_distinct_keys : Dict V → Bool
  has_distinct_keys [] = true
  has_distinct_keys (e ∷ es) = not (has_key e.0 es) && has_distinct_keys es

  pub lookup_missing : (key : String) (d : Dict V) → has_key key d ≡ false → lookup key d ≡ none
  unfolding lookup
  lookup_missing key [] missing = refl
  lookup_missing key (e ∷ es) missing = ground (arith, lookup_missing key es)

pub ruleset dict_laws = (lookup-insert, lookup-remove)
