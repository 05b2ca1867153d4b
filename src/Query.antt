-- ===== src/Query.antt =====
-- share/query: the sorting, filters and fields that a request asks for, their validation, and the SQL
-- text that they become. `Query` parses a request, `Query/Sql` makes the text.
pub mod Checks
pub mod Sql
pub mod Placeholders
pub mod Supported
use Prim.Native.Char.{Char, code}
use Prim.Native.String.{◌++◌ as concat}
use rport.Prelude.{
  ℕ, String, Bool, true, false, not, ◌&&◌, ◌||◌, Option, none, some, List, [], ◌∷◌, ◌++◌, str_eq,
  ◌==◌, leb, if◌then◌else◌, is_empty,
}
use rport.Text.{trim_space, split, has_prefix}

pub record SortOption : Type 0 where
  pub column : String
  pub is_asc : Bool

pub record FilterOption : Type 0 where
  pub column : String
  pub values : List String

pub record FieldsOption : Type 0 where
  pub resource : String
  pub fields : List String

pub record ListOptions : Type 0 where
  pub sorts : List SortOption
  pub filters : List FilterOption
  pub fields : List FieldsOption

-- `req.URL.Query()`, in the order in which Go ranges over it.
abbrev pub UrlQuery : Type 0
UrlQuery = List (String × List String)

abbrev pub values_at : String → UrlQuery → List String
values_at key [] = []
values_at key ((k, vs) ∷ more) = if str_eq k key then vs else values_at key more

-- A comma is code 44.
unfoldable pub get_or_values : List String → List String
unfolding trim_space split
get_or_values [] = []
get_or_values (v ∷ vs) =
    let rest = get_or_values vs in
    let or_value = trim_space v in if str_eq or_value "" then rest else split 44 or_value ++ rest

-- `\w`
abbrev pub is_word : ℕ → Bool
is_word c = (leb 48 c && leb c 57) || (leb 65 c && leb c 90) || c == 95 || (leb 97 c && leb c 122)

-- The word characters up to a closing bracket, of code 93.
abbrev pub prepend_char : Char → Option String → Option String
prepend_char c none = none
prepend_char c (some s) = some (String.◌∷◌ c s)

unfoldable pub word_in_bracket : String → Option String
word_in_bracket String.[] = none
word_in_bracket (String.◌∷◌ c s) =
    let rest = word_in_bracket s in
    if code c == 93 then some "" else if is_word (code c) then prepend_char c rest else none

-- The submatch of `^filter\[(\w+)]`, from the text after `filter[`.
abbrev pub unless_empty : Option String → Option String
unless_empty none = none
unless_empty (some name) = if str_eq name "" then none else some name

abbrev pub drop_prefix : String → String → Option String
drop_prefix s String.[] = some s
drop_prefix String.[] (String.◌∷◌ d p) = none
drop_prefix (String.◌∷◌ c s) (String.◌∷◌ d p) =
    let rest = drop_prefix s p in if code c == code d then rest else none

abbrev pub word_of : Option String → Option String
word_of none = none
word_of (some rest) = unless_empty (word_in_bracket rest)

unfoldable pub find_submatch : String → String → Option String
unfolding word_in_bracket
find_submatch key prefix = word_of (drop_prefix key prefix)

-- The options of one key: the two extractions differ in the prefix and in what they make of it.
module _ {A : Type 0} (make : String → List String → A) (prefix : String) where
  abbrev pub named_option : Option String → List String → List A
  named_option none or_values = []
  named_option (some name) or_values =
      if str_eq (trim_space name) "" then [] else make (trim_space name) or_values ∷ []

  abbrev pub key_options : String → List String → List A
  key_options key vs =
      let or_values = get_or_values vs in
      if not (has_prefix key prefix) || is_empty vs
      then []
      else if is_empty or_values
      then []
      else named_option (find_submatch key (concat prefix "[")) or_values

  unfoldable pub extract_options : UrlQuery → List A
  unfolding get_or_values has_prefix find_submatch trim_space
  extract_options [] = []
  extract_options ((key, vs) ∷ more) = key_options key vs ++ extract_options more

unfoldable pub extract_filter_options : UrlQuery → List FilterOption
unfolding extract_options
extract_filter_options =
    extract_options (λ column values. record { column = column; values = values }) "filter"

unfoldable pub extract_fields_options : UrlQuery → List FieldsOption
unfolding extract_options
extract_fields_options =
    extract_options (λ resource fields. record { resource = resource; fields = fields }) "fields"

-- `strings.TrimLeft(sort, "-")`; a minus is code 45.
unfoldable pub trim_minus : String → String
trim_minus String.[] = String.[]
trim_minus (String.◌∷◌ c s) =
    let rest = trim_minus s in if code c == 45 then rest else String.◌∷◌ c s

abbrev pub sort_option : String → SortOption
sort_option sort =
    if has_prefix sort "-"
    then record { column = trim_minus sort; is_asc = false }
    else record { column = sort; is_asc = true }

unfoldable pub sort_options : List String → List SortOption
unfolding trim_space has_prefix trim_minus
sort_options [] = []
sort_options (s ∷ ss) =
    let rest = sort_options ss in
    let sort = trim_space s in if str_eq sort "" then rest else sort_option sort ∷ rest

unfoldable pub extract_sort_options : UrlQuery → List SortOption
unfolding sort_options
extract_sort_options query = sort_options (values_at "sort" query)

unfoldable pub get_list_options : UrlQuery → ListOptions
unfolding extract_sort_options extract_filter_options extract_fields_options
get_list_options query = record {
  sorts = extract_sort_options query;
  filters = extract_filter_options query;
  fields = extract_fields_options query;
}
