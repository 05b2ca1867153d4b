-- ===== src/Query/Checks.antt =====
-- share/query: the validation of sorting, filters and fields against the names that a resource
-- supports. An empty list of errors is Go's nil.
use rport.Prelude.{String, Bool, true, false, Option, none, some, List, [], ◌∷◌, ◌++◌}
use rport.Query.{SortOption, FilterOption, FieldsOption, ListOptions}

pub data ApiError : Type 0 where
  unsupported_sort unsupported_filter unsupported_resource : String → ApiError
  unsupported_field : String → String → ApiError

-- A Go map to `bool`, that is false at a missing key, and the fields of each resource.
abbrev pub Supported : Type 0
Supported = String → Bool

abbrev pub SupportedFields : Type 0
SupportedFields = String → Option Supported

abbrev pub error_unless : Bool → ApiError → List ApiError
error_unless true e = []
error_unless false e = e ∷ []

-- A loop that tests each entry and appends an error for the ones that fail.
module _ {A : Type 0} (test : A → Bool) (message : A → ApiError) where
  abbrev pub errors_of : List A → List ApiError
  errors_of [] = []
  errors_of (x ∷ xs) = error_unless (test x) (message x) ++ errors_of xs

unfoldable pub validate_sort_options : List SortOption → Supported → List ApiError
validate_sort_options so supported =
    errors_of (λ o. supported o.column) (λ o. unsupported_sort o.column) so

unfoldable pub validate_filter_options : List FilterOption → Supported → List ApiError
validate_filter_options fo supported =
    errors_of (λ o. supported o.column) (λ o. unsupported_filter o.column) fo

abbrev pub field_errors : String → Supported → List String → List ApiError
field_errors resource supported fields =
    errors_of supported (λ field. unsupported_field field resource) fields

abbrev pub resource_errors : FieldsOption → Option Supported → List ApiError
resource_errors fo none = unsupported_resource fo.resource ∷ []
resource_errors fo (some supported) = field_errors fo.resource supported fo.fields

unfoldable pub validate_fields_options : List FieldsOption → SupportedFields → List ApiError
validate_fields_options [] supported = []
validate_fields_options (fo ∷ more) supported =
    resource_errors fo (supported fo.resource) ++ validate_fields_options more supported

-- Without supported fields, the fields that were asked for are dropped: the options change too.
unfoldable pub validate_list_options :
    ListOptions → Supported → Option SupportedFields → List ApiError × ListOptions
unfolding validate_sort_options validate_filter_options validate_fields_options
validate_list_options lo supported none = (
  validate_sort_options lo.sorts supported ++ validate_filter_options lo.filters supported,
  record lo { fields = [] },
)
validate_list_options lo supported (some fields) = (
  validate_sort_options lo.sorts supported
      ++ (validate_filter_options lo.filters supported ++ validate_fields_options lo.fields fields),
  lo,
)

-- `ValidateRetrieveOptions`, whose options are the fields only.
unfoldable pub validate_retrieve_options : List FieldsOption → SupportedFields → List ApiError
unfolding validate_fields_options
validate_retrieve_options fields supported = validate_fields_options fields supported
