-- ===== src/Tests/Queries.antt =====
-- Runs of the queries of the API, on the library of scripts.
use rport.Prelude.{
  is_none, ap, ◌∙◌, Bool-cases, inl, inr, String, Bool, true, false, ◌||◌, none, some, [], ◌∷◌, ◌≡◌,
  refl, arith, str_eq, if◌then◌else◌,
}
use text.Mathlib.TextEquality.{eq_iff}
use mathlib.Core.Path.{subst}
use mathlib.Core.Option.{some-injective}
use rport.Text.{trim_left, trim_right, trim_space, split, has_prefix}
use rport.Query.{
  UrlQuery, ListOptions, get_or_values, word_in_bracket, find_submatch, extract_options,
  extract_filter_options, extract_fields_options, trim_minus, sort_options, extract_sort_options,
  get_list_options,
}
use rport.Query.Checks.{
  Supported, SupportedFields, validate_sort_options, validate_filter_options,
  validate_fields_options, validate_list_options, unsupported_sort, unsupported_filter,
}
use rport.Query.Sql.{add_where, add_order_by, replace_star_select, convert_list_options_to_query}
use rport.Query.Placeholders.{marks, IsPlain}
use rport.Query.Supported.{ArePlain, ArePlainFields, list_query_safe}

queries : Unit {0}
unfolding trim_left trim_right trim_space split has_prefix get_or_values word_in_bracket
    find_submatch extract_options extract_filter_options extract_fields_options trim_minus
    sort_options extract_sort_options get_list_options validate_sort_options validate_filter_options
    validate_fields_options validate_list_options add_where add_order_by replace_star_select
    convert_list_options_to_query marks
queries = tt

abbrev query : UrlQuery
query =
    ("sort", "-name" ∷ " " ∷ [])
    ∷ ("filter[name]", "a,b" ∷ "c" ∷ [])
    ∷ ("filter[]", "d" ∷ [])
    ∷ ("fields[scripts]", "name" ∷ [])
    ∷ []

abbrev columns : Supported
columns name = str_eq name "name" || str_eq name "id"

abbrev fields : SupportedFields
fields resource = if str_eq resource "scripts" then some columns else none

abbrev options : ListOptions
options = record {
  sorts = record { column = "name"; is_asc = false } ∷ [];
  filters = record { column = "name"; values = "a" ∷ "b" ∷ "c" ∷ [] } ∷ [];
  fields = record { resource = "scripts"; fields = "name" ∷ [] } ∷ [];
}

abbrev select : String
select = "SELECT * FROM `scripts`"

abbrev same_text : String → String
same_text s = s

query_tests :
    (get_list_options query ≡ options)
    × (convert_list_options_to_query same_text options select ≡ (
      "SELECT scripts.name FROM `scripts` WHERE (name = ? OR name = ? OR name = ?) ORDER BY name DESC",
      "a" ∷ "b" ∷ "c" ∷ [],
    ))
    × ((validate_list_options options (str_eq "id") none).0
        ≡ unsupported_sort "name" ∷ unsupported_filter "name" ∷ [])
unfolding queries
query_tests = (refl, refl, refl)

named_plain : (name known : String) → str_eq name known ≡ true → IsPlain known → IsPlain name
named_plain name known same plain = ap marks ((eq_iff name known).0 same) ∙ plain

columns-ArePlain : ArePlain columns
unfolding queries
columns-ArePlain name known = elim (Bool-cases (str_eq name "name")) [
  | inl same ↦ named_plain name "name" same refl
  | inr other ↦ named_plain name "id" (ground (arith, other, known)) refl
]

scripts-ArePlain :
    (b : Bool) (resource : String) (supported : Supported)
    → (b ≡ true → IsPlain resource)
    → (if b then some columns else none) ≡ some supported
    → IsPlain resource × ArePlain supported
scripts-ArePlain true resource supported plain known =
    (plain refl, subst (λ t. ArePlain t) (some-injective columns supported known) columns-ArePlain)
scripts-ArePlain false resource supported plain known = absurd (ground (arith, ap is_none known))

fields-ArePlain : ArePlainFields (some fields)
unfolding queries
fields-ArePlain resource supported =
    scripts-ArePlain (str_eq resource "scripts") resource supported
      (λ same. named_plain resource "scripts" same refl)

list_query_safe_example : marks (convert_list_options_to_query same_text options select).0 ≡ 3
unfolding queries
list_query_safe_example =
    list_query_safe same_text query select columns (some fields) refl columns-ArePlain
      fields-ArePlain refl
