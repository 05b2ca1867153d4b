-- ===== src/Text/Trim.antt =====
-- `strings.TrimSpace`: trimming twice is trimming once.
use Prim.Native.Char.{Char, code}
use rport.Prelude.{String, false, ◌≡◌, refl, Bool-cases, inl, inr, ap, ◌∙◌}
use rport.Text.{is_space, trim_left, trim_right, trim_space, prepend_unless_end}

trim_right_prepend :
    (c : Char) (r : String)
    → trim_right r ≡ r
    → trim_right (prepend_unless_end c r) ≡ prepend_unless_end c r
unfolding trim_right
trim_right_prepend c String.[] h = elim (Bool-cases (is_space (code c))) [
  | inl space ↦ rw space refl
  | inr other ↦ rw (other, other) refl
]
trim_right_prepend c (String.◌∷◌ d r) h = ap (prepend_unless_end c) h

trim_right_idem : (s : String) → trim_right (trim_right s) ≡ trim_right s
unfolding trim_right
trim_right_idem String.[] = refl
trim_right_idem (String.◌∷◌ c s) = trim_right_prepend c (trim_right s) (trim_right_idem s)

-- A text that begins with no space.
abbrev BeginsWell : String → Type 0
BeginsWell String.[] = Unit
BeginsWell (String.◌∷◌ c s) = is_space (code c) ≡ false

trim_left-BeginsWell : (s : String) → BeginsWell (trim_left s)
unfolding trim_left
trim_left-BeginsWell String.[] = tt
trim_left-BeginsWell (String.◌∷◌ c s) = elim (Bool-cases (is_space (code c))) [
  | inl space ↦ rw space (trim_left-BeginsWell s)
  | inr other ↦ rw other other
]

prepend-BeginsWell :
    (c : Char) (r : String) → is_space (code c) ≡ false → BeginsWell (prepend_unless_end c r)
prepend-BeginsWell c String.[] h = rw h h
prepend-BeginsWell c (String.◌∷◌ d r) h = h

trim_right-BeginsWell : (s : String) → BeginsWell s → BeginsWell (trim_right s)
unfolding trim_right
trim_right-BeginsWell String.[] h = tt
trim_right-BeginsWell (String.◌∷◌ c s) h = prepend-BeginsWell c (trim_right s) h

trim_left_of_BeginsWell : (s : String) → BeginsWell s → trim_left s ≡ s
unfolding trim_left
trim_left_of_BeginsWell String.[] h = refl
trim_left_of_BeginsWell (String.◌∷◌ c s) h = rw h

pub trim_space_idem : (s : String) → trim_space (trim_space s) ≡ trim_space s
unfolding trim_space
trim_space_idem s =
    ap trim_right (
      trim_left_of_BeginsWell (trim_right (trim_left s))
        (trim_right-BeginsWell (trim_left s) (trim_left-BeginsWell s)))
    ∙ trim_right_idem (trim_left s)
