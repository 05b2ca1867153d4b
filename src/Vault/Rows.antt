-- ===== src/Vault/Rows.antt =====
-- server/vault/sqlite.go: what the statements find after the statements that write.
use rport.Prelude.{
  ℕ, ◌<◌, Bool, true, false, none, some, List, [], ◌∷◌, ◌++◌, ◌≡◌, refl, arith, All, ◌==◌,
  Bool-cases, inl, inr,
}
use rport.Vault.Model.{StoredValue}
use rport.Vault.Sqlite.{has_id, first, without_id, update_id}

pub first-append :
    (test : StoredValue → Bool) (xs : List StoredValue) (y : StoredValue)
    → first test xs ≡ none
    → test y ≡ true
    → first test (xs ++ y ∷ []) ≡ some y
unfolding first
first-append test [] y h t = ground arith
first-append test (x ∷ xs) y h t = ground (arith, first-append test xs y)

pub first_holds :
    (test : StoredValue → Bool) (xs : List StoredValue) (v : StoredValue)
    → first test xs ≡ some v
    → test v ≡ true
unfolding first
first_holds test [] v h = cc
first_holds test (x ∷ xs) v h = ground (arith, first_holds test xs v)

abbrev pub AreBelow : ℕ → List StoredValue → Type 0
AreBelow n = All (λ v. v.id < n)

pub first_above : (n : ℕ) (xs : List StoredValue) → AreBelow n xs → first (has_id n) xs ≡ none
unfolding first
first_above n [] h = refl
first_above n (x ∷ xs) h = ground (arith, first_above n xs)

module _ (id : ℕ) (f : StoredValue → StoredValue)
    (same_id : (v : StoredValue) → (f v).id ≡ v.id) where
  pub first-update :
      (xs : List StoredValue) (v : StoredValue)
      → first (has_id id) xs ≡ some v
      → first (has_id id) (update_id id f xs) ≡ some (f v)
  unfolding first update_id
  first-update [] v h = cc
  first-update (x ∷ xs) v h = elim (Bool-cases (has_id id x)) [
    | inl same ↦ rw same (ground (arith, same_id x))
    | inr other ↦ rw (other, other) (first-update xs v (rw other at h))
  ]

  pub update-AreBelow :
      (n : ℕ) (xs : List StoredValue) → AreBelow n xs → AreBelow n (update_id id f xs)
  unfolding update_id
  update-AreBelow n [] h = tt
  update-AreBelow n (x ∷ xs) h = (ground (arith, h.0, same_id x), update-AreBelow n xs h.1)

pub without-AreBelow :
    (id n : ℕ) (xs : List StoredValue) → AreBelow n xs → AreBelow n (without_id id xs)
unfolding without_id
without-AreBelow id n [] h = tt
without-AreBelow id n (x ∷ xs) h = elim (Bool-cases (has_id id x)) [
  | inl same ↦ rw same (without-AreBelow id n xs h.1)
  | inr other ↦ rw other (h.0, without-AreBelow id n xs h.1)
]

pub first-without : (id : ℕ) (xs : List StoredValue) → first (has_id id) (without_id id xs) ≡ none
unfolding first without_id
first-without id [] = refl
first-without id (x ∷ xs) = ground (arith, first-without id xs)

pub first-without_ne :
    (id j : ℕ) (xs : List StoredValue)
    → (id == j) ≡ false
    → first (has_id j) (without_id id xs) ≡ first (has_id j) xs
unfolding first without_id
first-without_ne id j [] h = refl
first-without_ne id j (x ∷ xs) h = ground (arith, first-without_ne id j xs)
