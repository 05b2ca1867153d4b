-- ===== src/Query/Supported.antt =====
-- share/query: options pass the validation exactly when every name in them is supported, and then the
-- SQL text that they become asks for its parameters.
use rport.Prelude.{
  String, Bool, true, false, Option, none, some, List, [], ◌∷◌, ◌++◌, ◌≡◌, refl, arith, All, ap,
  ◌∙◌, ◌↔◌, length, All-map,
}
use rport.Query.{SortOption, FilterOption, FieldsOption, ListOptions, UrlQuery, get_list_options}
use rport.Query.Sql.{convert_list_options_to_query}
use rport.Query.Placeholders.{marks, IsPlain, IsPlainList, marks-convert_list_options_to_query}
use rport.Query.Checks.{
  ApiError, Supported, SupportedFields, error_unless, errors_of, resource_errors,
  validate_sort_options, unsupported_field, validate_filter_options, validate_fields_options,
  validate_list_options,
}

empty_parts : {A : Type 0} (xs ys : List A) → xs ++ ys ≡ [] → (xs ≡ []) × (ys ≡ [])
empty_parts [] ys e = (refl, e)
empty_parts (x ∷ xs) ys e = absurd (ground (arith, ap length e))

empty_both : {A : Type 0} (xs ys : List A) → xs ≡ [] → ys ≡ [] → xs ++ ys ≡ []
empty_both xs ys e e' = ap (λ zs. zs ++ ys) e ∙ e'

error_unless_none : (b : Bool) (e : ApiError) → error_unless b e ≡ [] → b ≡ true
error_unless_none true e h = refl
error_unless_none false e h = absurd (ground (arith, ap length h))

error_unless-true : (b : Bool) (e : ApiError) → b ≡ true → error_unless b e ≡ []
error_unless-true b e h = ap (λ x. error_unless x e) h

-- Every name is supported.
abbrev pub SupportsFields : SupportedFields → FieldsOption → Type 0
SupportsFields fields fo =
    (supported : Supported) × (fields fo.resource ≡ some supported)
    × All (λ field. supported field ≡ true) fo.fields

abbrev pub FieldsFit : Option SupportedFields → List FieldsOption → Type 0
FieldsFit none fields = Unit
FieldsFit (some supported) fields = All (SupportsFields supported) fields

abbrev pub IsSupported : ListOptions → Supported → Option SupportedFields → Type 0
IsSupported lo supported fields =
    All (λ (so : SortOption). supported so.column ≡ true) lo.sorts
    × All (λ (fo : FilterOption). supported fo.column ≡ true) lo.filters
    × FieldsFit fields lo.fields

-- A list of checks, each with its error.
module _ {A : Type 0} (test : A → Bool) (message : A → ApiError) where
  errors_of-All : (xs : List A) → errors_of test message xs ≡ [] → All (λ x. test x ≡ true) xs
  errors_of-All [] h = tt
  errors_of-All (x ∷ xs) h =
      let (first, rest) =
        empty_parts (error_unless (test x) (message x)) (errors_of test message xs) h in
      (error_unless_none (test x) (message x) first, errors_of-All xs rest)

  errors_of_none : (xs : List A) → All (λ x. test x ≡ true) xs → errors_of test message xs ≡ []
  errors_of_none [] all = refl
  errors_of_none (x ∷ xs) (first, rest) =
      empty_both (error_unless (test x) (message x)) (errors_of test message xs)
        (error_unless-true (test x) (message x) first) (errors_of_none xs rest)

module _ (fields : SupportedFields) where
  resource_errors-Supports :
      (fo : FieldsOption) (o : Option Supported)
      → fields fo.resource ≡ o
      → resource_errors fo o ≡ []
      → SupportsFields fields fo
  resource_errors-Supports fo none known h = absurd (ground (arith, ap length h))
  resource_errors-Supports fo (some supported) known h =
      (supported, known, errors_of-All supported (λ f. unsupported_field f fo.resource) fo.fields h)

  Supports-resource_errors :
      (fo : FieldsOption) → SupportsFields fields fo → resource_errors fo (fields fo.resource) ≡ []
  Supports-resource_errors fo (supported, known, all) =
      ap (resource_errors fo) known
      ∙ errors_of_none supported (λ f. unsupported_field f fo.resource) fo.fields all

  fields-All :
      (fos : List FieldsOption)
      → validate_fields_options fos fields ≡ []
      → All (SupportsFields fields) fos
  unfolding validate_fields_options
  fields-All [] h = tt
  fields-All (fo ∷ more) h =
      let (first, rest) = empty_parts _ (validate_fields_options more fields) h in
      (resource_errors-Supports fo (fields fo.resource) refl first, fields-All more rest)

  All-fields :
      (fos : List FieldsOption)
      → All (SupportsFields fields) fos
      → validate_fields_options fos fields ≡ []
  unfolding validate_fields_options
  All-fields [] all = refl
  All-fields (fo ∷ more) (first, rest) =
      empty_both _ (validate_fields_options more fields) (Supports-resource_errors fo first)
        (All-fields more rest)

-- Options pass the validation exactly when each column of the sorting and of the filters is supported
-- and, where the resource has fields, each field that is asked for is supported for its resource.
pub validate_list_options_iff :
    (lo : ListOptions) (supported : Supported) (fields : Option SupportedFields)
    → ((validate_list_options lo supported fields).0 ≡ []) ↔ IsSupported lo supported fields
unfolding validate_list_options validate_sort_options validate_filter_options
validate_list_options_iff lo supported none = (
  λ h.
      let (sorts, filters) = empty_parts _ _ h in
      (errors_of-All _ _ lo.sorts sorts, errors_of-All _ _ lo.filters filters, tt),
  λ (sorts, filters, u).
      empty_both _ _ (errors_of_none _ _ lo.sorts sorts) (errors_of_none _ _ lo.filters filters),
)
validate_list_options_iff lo supported (some fields) = (
  λ h.
      let (sorts, rest) = empty_parts _ _ h in
      let (filters, names) = empty_parts _ _ rest in
      (
        errors_of-All _ _ lo.sorts sorts,
        errors_of-All _ _ lo.filters filters,
        fields-All fields lo.fields names,
      ),
  λ (sorts, filters, names).
      empty_both _ _ (errors_of_none _ _ lo.sorts sorts) (
        empty_both _ _ (errors_of_none _ _ lo.filters filters) (All-fields fields lo.fields names)),
)

-- The names that a resource supports have no question mark.
abbrev pub ArePlain : Supported → Type 0
ArePlain supported = (name : String) → supported name ≡ true → IsPlain name

abbrev pub ArePlainFields : Option SupportedFields → Type 0
ArePlainFields none = Unit
ArePlainFields (some fields) =
    (resource : String) (supported : Supported)
    → fields resource ≡ some supported
    → IsPlain resource × ArePlain supported

fields-plain :
    (fields : SupportedFields) (fos : List FieldsOption)
    → ArePlainFields (some fields)
    → All (SupportsFields fields) fos
    → All (λ (fo : FieldsOption). IsPlain fo.resource × All IsPlain fo.fields) fos
fields-plain fields fos plain = All-map _ _ fos λ fo (supported, known, all).
    let (resource, names) = plain fo.resource supported known in
    (resource, All-map _ _ fo.fields names all)

IsSupported-plain :
    (lo : ListOptions) (supported : Supported) (fields : Option SupportedFields)
    → ArePlain supported
    → ArePlainFields fields
    → IsSupported lo supported fields
    → IsPlainList (validate_list_options lo supported fields).1
unfolding validate_list_options
IsSupported-plain lo supported none plain u (sorts, filters, v) = record {
  sorts = All-map _ _ lo.sorts (λ so. plain so.column) sorts;
  filters = All-map _ _ lo.filters (λ fo. plain fo.column) filters;
  fields = tt;
}
IsSupported-plain lo supported (some fields) plain plain' (sorts, filters, names) = record {
  sorts = All-map _ _ lo.sorts (λ so. plain so.column) sorts;
  filters = All-map _ _ lo.filters (λ fo. plain fo.column) filters;
  fields = fields-plain fields lo.fields plain' names;
}

-- Where neither the statement nor a supported name has a question mark, options taken from a request
-- that pass the validation become a statement with as many placeholders as it has parameters, so
-- that no name of the request adds one.
pub list_query_safe :
    (to_upper : String → String) (query : UrlQuery) (q : String) (supported : Supported)
    (fields : Option SupportedFields)
    → IsPlain q
    → ArePlain supported
    → ArePlainFields fields
    → (validate_list_options (get_list_options query) supported fields).0 ≡ []
    → marks
        (convert_list_options_to_query to_upper
          (validate_list_options (get_list_options query) supported fields).1
          q).0
      ≡ length
          (convert_list_options_to_query to_upper
            (validate_list_options (get_list_options query) supported fields).1
            q).1
list_query_safe to_upper query q supported fields plain names names' valid =
    let lo = get_list_options query in
    marks-convert_list_options_to_query to_upper (validate_list_options lo supported fields).1 q
      plain
      (IsSupported-plain lo supported fields names names'
        ((validate_list_options_iff lo supported fields).0 valid))
