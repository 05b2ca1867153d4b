-- ===== src/Query/Sql.antt =====
-- share/query/convert.go: the SQL text and the parameters of a list of options.
use Prim.Native.Char.{code}
use Prim.Native.String.{◌++◌ as concat}
use rport.Prelude.{String, ◌||◌, List, [], ◌∷◌, ◌++◌, map, not, ◌==◌, if◌then◌else◌, is_empty}
use rport.Text.{has_prefix}
use rport.Commands.{join}
use rport.Query.{SortOption, FilterOption, FieldsOption, ListOptions}

abbrev pub placeholder : String → String
placeholder column = concat column " = ?"

abbrev pub repeat : List String → String → List String
repeat [] s = []
repeat (v ∷ vs) s = s ∷ repeat vs s

-- A filter of one value is a plain test, any other an `OR` of tests.
abbrev pub where_part : String → List String → String
where_part column [] = "()"
where_part column (v ∷ []) = placeholder column
where_part column (v ∷ w ∷ vs) =
    concat "(" (concat (join " OR " (repeat (v ∷ w ∷ vs) (placeholder column))) ")")

abbrev pub where_parts : List FilterOption → List String
where_parts [] = []
where_parts (f ∷ fs) = where_part f.column f.values ∷ where_parts fs

abbrev pub where_params : List FilterOption → List String
where_params [] = []
where_params (f ∷ fs) = f.values ++ where_params fs

unfoldable pub add_where : ListOptions → String → String × List String
add_where lo q = if is_empty lo.filters then (q, []) else (
  concat q (concat " WHERE " (concat (join " AND " (where_parts lo.filters)) " ")),
  where_params lo.filters,
)

abbrev pub direction : SortOption → String
direction so = concat so.column (if so.is_asc then " ASC" else " DESC")

unfoldable pub add_order_by : ListOptions → String → String
add_order_by lo q =
    if is_empty lo.sorts
    then q
    else concat q (concat "ORDER BY " (join ", " (map direction lo.sorts)))

abbrev pub qualified : String → List String → List String
qualified resource [] = []
qualified resource (field ∷ more) = concat resource (concat "." field) ∷ qualified resource more

abbrev pub field_names : List FieldsOption → List String
field_names [] = []
field_names (fo ∷ more) = qualified fo.resource fo.fields ++ field_names more

-- `strings.Replace(q, "*", …, 1)`; a star is code 42.
abbrev pub replace_star : String → String → String
replace_star String.[] names = String.[]
replace_star (String.◌∷◌ c s) names =
    let rest = replace_star s names in if code c == 42 then concat names s else String.◌∷◌ c rest

module _ (to_upper : String → String) where
  unfoldable pub replace_star_select : List FieldsOption → String → String
  unfolding has_prefix
  replace_star_select fields q =
      if not (has_prefix (to_upper q) "SELECT * ") || is_empty fields
      then q
      else replace_star q (join ", " (field_names fields))

  unfoldable pub convert_list_options_to_query : ListOptions → String → String × List String
  unfolding add_where add_order_by replace_star_select
  convert_list_options_to_query lo q =
      let (where_query, params) = add_where lo q in
      (replace_star_select lo.fields (add_order_by lo where_query), params)

  unfoldable pub convert_retrieve_options_to_query : List FieldsOption → String → String
  unfolding replace_star_select
  convert_retrieve_options_to_query fields q = replace_star_select fields q
