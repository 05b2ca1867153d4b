-- ===== src/Commands/Output.antt =====
-- client/exec.go, `CapacityBuffer`: what is kept of an output.
use rport.Prelude.{
  ℕ, zero, suc, ◌-◌, true, false, List, [], ◌∷◌, ◌++◌, ◌≡◌, refl, arith, length, length-append,
  take, ltb, sym, ap, ◌∙◌, if◌then◌else◌,
}
use rport.Commands.{CapacityBuffer, write}

length-take :
    (n : ℕ) (xs : List ℕ) → length (take n xs) ≡ (if ltb n (length xs) then n else length xs)
length-take zero [] = refl
length-take zero (x ∷ xs) = ground arith
length-take (suc n) [] = ground arith
length-take (suc n) (x ∷ xs) = ground (arith, length-take n xs)

take_nil : (n : ℕ) → take {A = ℕ} n [] ≡ []
take_nil zero = refl
take_nil (suc n) = refl

take_all : (n : ℕ) (xs : List ℕ) → ltb n (length xs) ≡ false → take n xs ≡ xs
take_all zero [] fits = refl
take_all zero (x ∷ xs) fits = absurd (ground arith)
take_all (suc n) [] fits = refl
take_all (suc n) (x ∷ xs) fits = ground (arith, take_all n xs)

take-append :
    (n : ℕ) (xs ys : List ℕ) → take n xs ++ take (n - length (take n xs)) ys ≡ take n (xs ++ ys)
take-append zero [] ys = ground arith
take-append zero (x ∷ xs) ys = ground arith
take-append (suc n) [] ys = ground arith
take-append (suc n) (x ∷ xs) ys = ground (arith, take-append n xs ys)

unfoldable pub write_all : List (List ℕ) → CapacityBuffer → CapacityBuffer
write_all [] b = b
write_all (p ∷ ps) b = write_all ps (write p b).1

abbrev pub all_bytes : List (List ℕ) → List ℕ
all_bytes [] = []
all_bytes (p ∷ ps) = p ++ all_bytes ps

-- The buffer has what fits of everything written, and knows whether there was more.
record Holds (b : CapacityBuffer) (all : List ℕ) : Type 0 where
  data_ : b.data_ ≡ take b.capacity all
  overflow : b.has_overflow ≡ ltb b.capacity (length all)

written :
    (p : List ℕ) (b : CapacityBuffer)
    → ((write p b).1.data_ ≡ b.data_ ++ take (b.capacity - length b.data_) p)
      × ((write p b).1.capacity ≡ b.capacity)
      × ((write p b).1.has_overflow
          ≡ (if ltb (b.capacity - length b.data_) (length p) then true else b.has_overflow))
unfolding write
written p b = (ground (arith, take_all (b.capacity - length b.data_) p), ground arith, ground arith)

write-Holds :
    (p : List ℕ) (b : CapacityBuffer) (all : List ℕ) → Holds b all → Holds (write p b).1 (all ++ p)
write-Holds p b all holds =
    let (data_, capacity, overflow) = written p b in
    record {
      data_ =
          data_
          ∙ ap (λ d. d ++ take (b.capacity - length d) p) holds.data_
          ∙ take-append b.capacity all p
          ∙ ap (λ n. take n (all ++ p)) (sym capacity);
      overflow = ground (
        arith,
        data_,
        capacity,
        overflow,
        holds.data_,
        holds.overflow,
        length-take b.capacity all,
        length-append all p,
      );
    }

append_assoc : (xs ys zs : List ℕ) → (xs ++ ys) ++ zs ≡ xs ++ (ys ++ zs)
append_assoc [] ys zs = refl
append_assoc (x ∷ xs) ys zs = ground (arith, append_assoc xs ys zs)

append_nil : (xs : List ℕ) → xs ++ [] ≡ xs
append_nil [] = refl
append_nil (x ∷ xs) = ground (arith, append_nil xs)

write_all-Holds :
    (ps : List (List ℕ)) (b : CapacityBuffer) (all : List ℕ)
    → Holds b all
    → Holds (write_all ps b) (all ++ all_bytes ps) × ((write_all ps b).capacity ≡ b.capacity)
unfolding write_all
write_all-Holds [] b all holds = (rw (append_nil all) holds, refl)
write_all-Holds (p ∷ ps) b all holds =
    let after = (write p b).1 in
    let (held, capacity) = write_all-Holds ps after (all ++ p) (write-Holds p b all holds) in
    (rw⁻¹ (append_assoc all p (all_bytes ps)) held, capacity ∙ (written p b).1)

abbrev pub new_buffer : ℕ → CapacityBuffer
new_buffer capacity = record { data_ = []; capacity = capacity; has_overflow = false }

-- However the output comes in, an empty buffer ends with the first bytes of it that its capacity
-- allows, and tells of an overflow exactly if there were more.
pub write_all_lem :
    (ps : List (List ℕ)) (capacity : ℕ)
    → ((write_all ps (new_buffer capacity)).data_ ≡ take capacity (all_bytes ps))
      × ((write_all ps (new_buffer capacity)).has_overflow ≡ ltb capacity (length (all_bytes ps)))
write_all_lem ps capacity =
    let (holds, same) =
      write_all-Holds ps (new_buffer capacity) []
        (record { data_ = ground (arith, take_nil capacity); overflow = ground arith }) in
    (
      holds.data_ ∙ ap (λ n. take n (all_bytes ps)) same,
      holds.overflow ∙ ap (λ n. ltb n (length (all_bytes ps))) same,
    )
