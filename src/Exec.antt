-- ===== src/Exec.antt =====
-- Methods that change an object and may fail. What a method wrote before it failed stays written,
-- so the new state comes back beside the error too.
use rport.Prelude.{◌≡◌, refl, ap, arith, Bool, true, false, if◌then◌else◌}
use rport.Result.{Result, ok, err, is_ok}

abbrev pub Exec : Type 0 → Type 0 → Type 0 → Type 0
Exec E S A = S → Result E A × S

module _ {E S A : Type 0} where
  abbrev pub pure : A → Exec E S A
  pure a s = (ok a, s)

  abbrev pub lift : Result E A → Exec E S A
  lift r s = (r, s)

  abbrev pub reads : (S → Result E A) → Exec E S A
  reads f s = (f s, s)

module _ {E S A B : Type 0} where
  abbrev pub continue : Result E A → (A → Exec E S B) → Exec E S B
  continue (ok a) f s = f a s
  continue (err e) f s = (err e, s)

  infixl 5 ◌>>=◌ ◌>>◌
  abbrev pub ◌>>=◌ : Exec E S A → (A → Exec E S B) → Exec E S B
  ◌>>=◌ m f s = continue (m s).0 f (m s).1

  abbrev pub ◌>>◌ : Exec E S A → Exec E S B → Exec E S B
  m >> k = m >>= λ _. k

-- A chain that succeeds: its first method succeeded, and the rest did from there.
module _ {E S A B : Type 0} where
  continue_ok :
      (r : Result E A) (f : A → Exec E S B) (s s' : S) (b : B)
      → continue r f s ≡ (ok b, s')
      → (a : A) × (r ≡ ok a) × (f a s ≡ (ok b, s'))
  continue_ok (ok a) f s s' b done = (a, refl, done)
  continue_ok (err e) f s s' b done = absurd (ground (arith, ap (λ x. is_ok x.0) done))

  pub bind_ok :
      (m : Exec E S A) (f : A → Exec E S B) (s s' : S) (b : B)
      → (m >>= f) s ≡ (ok b, s')
      → (a : A) × ((m s).0 ≡ ok a) × (f a (m s).1 ≡ (ok b, s'))
  bind_ok m f s s' b done = continue_ok (m s).0 f (m s).1 s' b done

-- A property of the state that a method keeps, however the method ends.
module _ {E S : Type 0} (P : S → Type 0) where
  abbrev pub Preserves : {A : Type 0} → Exec E S A → Type 0
  Preserves m = (s : S) → P s → P (m s).1

  continue-Preserves :
      {A B : Type 0} (r : Result E A) (f : A → Exec E S B) (s : S)
      → ((a : A) → Preserves (f a))
      → P s
      → P (continue r f s).1
  continue-Preserves (ok a) f s rest holds = rest a s holds
  continue-Preserves (err e) f s rest holds = holds

  pub bind-Preserves :
      {A B : Type 0} (m : Exec E S A) (f : A → Exec E S B)
      → Preserves m
      → ((a : A) → Preserves (f a))
      → Preserves (m >>= f)
  bind-Preserves m f first rest s holds = continue-Preserves (m s).0 f (m s).1 rest (first s holds)

  -- What only reads the state keeps everything.
  pub reads-Preserves : {A : Type 0} (f : S → Result E A) → Preserves (reads f)
  reads-Preserves f s holds = holds

  pub lift-Preserves : {A : Type 0} (r : Result E A) → Preserves (lift r)
  lift-Preserves r s holds = holds

  pub if-Preserves :
      {A : Type 0} (b : Bool) (m k : Exec E S A)
      → Preserves m
      → Preserves k
      → Preserves (if b then m else k)
  if-Preserves true m k keeps keeps' = keeps
  if-Preserves false m k keeps keeps' = keeps'

  pub then-Preserves :
      {A : Type 0} (b : Bool) (m k : Exec E S A)
      → b ≡ true
      → Preserves m
      → Preserves (if b then m else k)
  then-Preserves true m k taken keeps = keeps
  then-Preserves false m k taken keeps = absurd (ground arith)
