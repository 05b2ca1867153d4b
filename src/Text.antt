-- ===== src/Text.antt =====
-- What the program uses of Go's package `strings`.
pub mod Trim
use Prim.Native.String.{len, slice}
use Prim.Native.Char.{Char, code}
use rport.Prelude.{
  ℕ, ◌-◌, String, List, [], ◌∷◌, str_eq, Bool, true, false, ◌&&◌, ◌||◌, ◌==◌, leb, if◌then◌else◌,
}

-- The code points that `unicode.IsSpace` accepts.
abbrev pub is_space : ℕ → Bool
is_space c =
    (leb 9 c && leb c 13)
    || c == 32
    || c == 133
    || c == 160
    || c == 5760
    || (leb 8192 c && leb c 8202)
    || c == 8232
    || c == 8233
    || c == 8239
    || c == 8287
    || c == 12288

unfoldable pub trim_left : String → String
trim_left String.[] = String.[]
trim_left (String.◌∷◌ c s) =
    let rest = trim_left s in if is_space (code c) then rest else String.◌∷◌ c s

abbrev pub prepend_unless_end : Char → String → String
prepend_unless_end c String.[] = if is_space (code c) then String.[] else String.◌∷◌ c String.[]
prepend_unless_end c (String.◌∷◌ d s) = String.◌∷◌ c (String.◌∷◌ d s)

unfoldable pub trim_right : String → String
trim_right String.[] = String.[]
trim_right (String.◌∷◌ c s) = prepend_unless_end c (trim_right s)

-- `strings.TrimSpace`
unfoldable pub trim_space : String → String
unfolding trim_left trim_right
trim_space s = trim_right (trim_left s)

abbrev pub on_first_part : (String → String) → List String → List String
on_first_part f [] = []
on_first_part f (p ∷ ps) = f p ∷ ps

-- `strings.Split` at a separator of one ASCII character, given by its code.
unfoldable pub split : ℕ → String → List String
split sep String.[] = "" ∷ []
split sep (String.◌∷◌ c s) =
    let parts = split sep s in
    if code c == sep then "" ∷ parts else on_first_part (String.◌∷◌ c) parts

-- `strings.ContainsRune`
unfoldable pub contains_rune : ℕ → String → Bool
contains_rune r String.[] = false
contains_rune r (String.◌∷◌ c s) = code c == r || contains_rune r s

-- `strings.HasSuffix`
unfoldable pub has_suffix : String → String → Bool
has_suffix s suffix =
    leb (len suffix) (len s) && str_eq (slice s (len s - len suffix) (len s)) suffix

-- `strings.HasPrefix`
unfoldable pub has_prefix : String → String → Bool
has_prefix s String.[] = true
has_prefix String.[] (String.◌∷◌ d p) = false
has_prefix (String.◌∷◌ c s) (String.◌∷◌ d p) = code c == code d && has_prefix s p

-- `strings.Contains`
unfoldable pub contains : String → String → Bool
unfolding has_prefix
contains String.[] part = has_prefix String.[] part
contains (String.◌∷◌ c s) part = has_prefix (String.◌∷◌ c s) part || contains s part
