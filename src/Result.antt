-- ===== src/Result.antt =====
-- Go's `(value, error)` results.
use mathlib.Core.Path.{subst}
use rport.Prelude.{◌≡◌, refl, ap, arith, ◌⊎◌, inl, inr, Bool, true, false, List, [], ◌∷◌, All}

pub data Result {ℓ κ} (E : Type ℓ) (A : Type κ) : Type (ℓ ⊔ κ) where
  ok : A → Result E A
  err : E → Result E A

abbrev pub is_ok {ℓ κ} : {E : Type ℓ} {A : Type κ} → Result E A → Bool
is_ok (ok a) = true
is_ok (err e) = false

-- `if err != nil { return err }`
abbrev pub and_then {ℓ κ μ} :
    {E : Type ℓ} {A : Type κ} {B : Type μ} → Result E A → (A → Result E B) → Result E B
and_then (ok a) f = f a
and_then (err e) f = err e

-- `if bad { return e }`
abbrev pub refuse_if {ℓ} : {E : Type ℓ} → Bool → E → Result E (Unit {0})
refuse_if true e = err e
refuse_if false e = ok tt

-- The same error under another wrapping.
abbrev pub map_err {ℓ κ μ} :
    {E : Type ℓ} {F : Type κ} {A : Type μ} → (E → F) → Result E A → Result F A
map_err f (ok a) = ok a
map_err f (err e) = err (f e)

pub Result-cases {ℓ κ} :
    {E : Type ℓ} {A : Type κ} (r : Result E A) → ((a : A) × (r ≡ ok a)) ⊎ ((e : E) × (r ≡ err e))
Result-cases (ok a) = inl (a, refl)
Result-cases (err e) = inr (e, refl)

abbrev pub value_or {ℓ κ} : {E : Type ℓ} {A : Type κ} → A → Result E A → A
value_or a (ok b) = b
value_or a (err e) = a

err-ok {ℓ κ} : {E : Type ℓ} {A : Type κ} (e : E) (a : A) → ¬ (err e ≡ ok a)
err-ok e a same = ground (arith, ap is_ok same)

pub and_then_ok {ℓ κ μ} :
    {E : Type ℓ} {A : Type κ} {B : Type μ} (r : Result E A) (f : A → Result E B) (b : B)
    → and_then r f ≡ ok b
    → (a : A) × (r ≡ ok a) × (f a ≡ ok b)
and_then_ok (ok a) f b done = (a, refl, done)
and_then_ok (err e) f b done = absurd (err-ok e b done)

pub map_err_ok {ℓ κ μ} :
    {E : Type ℓ} {F : Type κ} {A : Type μ} (f : E → F) (r : Result E A) (a : A)
    → map_err f r ≡ ok a
    → r ≡ ok a
map_err_ok f (ok b) a done = ap (λ x. ok (value_or b x)) done
map_err_ok f (err e) a done = absurd (err-ok (f e) a done)

-- A loop that stops at the first entry that fails.
abbrev pub each {ℓ κ μ} :
    {E : Type ℓ} {A : Type κ} {B : Type μ} → (A → Result E B) → List A → Result E (List B)
each f [] = ok []
each f (x ∷ xs) = and_then (f x) λ y. and_then (each f xs) λ ys. ok (y ∷ ys)

-- What holds of every result holds of all the results.
pub each-All {ℓ κ} :
    {E : Type ℓ} {A B : Type 0} (P : B → Type κ) (f : A → Result E B)
    → ((x : A) (y : B) → f x ≡ ok y → P y)
    → (xs : List A) (ys : List B) → each f xs ≡ ok ys
    → All P ys
each-All P f good [] ys done = subst (λ r. All P (value_or [] r)) done tt
each-All P f good (x ∷ xs) ys done =
    let (y, parsed, more) = and_then_ok (f x) _ ys done in
    let (zs, rest, last) = and_then_ok (each f xs) _ ys more in
    subst (λ r. All P (value_or [] r)) last (good x y parsed, each-All P f good xs zs rest)
