-- ===== src/Query/Placeholders.antt =====
-- share/query: the SQL text asks for exactly the parameters that come with it.
use Prim.Native.Char.{code}
use Prim.Native.String.{◌++◌ as concat}
use text.Mathlib.TextLemmas.{nil-append, cons-append}
use rport.Prelude.{
  ℕ, suc, not, ◌||◌, ◌+◌, String, List, [], ◌∷◌, ◌++◌, map, ◌≡◌, refl, arith, ◌==◌, if◌then◌else◌,
  ap, ◌∙◌, All, length, length-append, Bool-cases, inl, inr, if_then, if_else, either, is_empty,
}
use rport.Text.{has_prefix}
use rport.Commands.{join}
use rport.Query.{SortOption, FilterOption, FieldsOption, ListOptions}
use rport.Query.Sql.{
  placeholder, repeat, where_part, where_parts, where_params, add_where, direction, add_order_by,
  qualified, field_names, replace_star, replace_star_select, convert_list_options_to_query,
}

-- The question marks of a text, of code 63.
unfoldable pub marks : String → ℕ
marks String.[] = 0
marks (String.◌∷◌ c s) = let rest = marks s in if code c == 63 then suc rest else rest

marks-concat : (s t : String) → marks (concat s t) ≡ marks s + marks t
unfolding marks
marks-concat String.[] t = ap marks (nil-append t) ∙ omega arith
marks-concat (String.◌∷◌ c s) t = ap marks (cons-append c s t) ∙ ground (arith, marks-concat s t)

-- A text without question marks.
abbrev pub IsPlain : String → Type 0
IsPlain s = marks s ≡ 0

abbrev total : List String → ℕ
total [] = 0
total (s ∷ ss) = marks s + total ss

marks-join : (sep : String) (ss : List String) → IsPlain sep → marks (join sep ss) ≡ total ss
unfolding marks
marks-join sep [] plain = refl
marks-join sep (s ∷ []) plain = omega arith
marks-join sep (s ∷ t ∷ more) plain = omega (
  arith,
  marks-concat s (concat sep (join sep (t ∷ more))),
  marks-concat sep (join sep (t ∷ more)),
  marks-join sep (t ∷ more) plain,
)

total-append : (ss ts : List String) → total (ss ++ ts) ≡ total ss + total ts
total-append [] ts = omega arith
total-append (s ∷ ss) ts = omega (arith, total-append ss ts)

-- The names that go into a text are plain.
pub record IsPlainList (lo : ListOptions) : Type 0 where
  pub sorts : All (λ (so : SortOption). IsPlain so.column) lo.sorts
  pub filters : All (λ (fo : FilterOption). IsPlain fo.column) lo.filters
  pub fields : All (λ (fo : FieldsOption). IsPlain fo.resource × All IsPlain fo.fields) lo.fields

marks-placeholder : (column : String) → IsPlain column → marks (placeholder column) ≡ 1
unfolding marks
marks-placeholder column plain = marks-concat column " = ?" ∙ omega arith

total-repeat :
    (vs : List String) (column : String)
    → IsPlain column
    → total (repeat vs (placeholder column)) ≡ length vs
total-repeat [] column plain = refl
total-repeat (v ∷ vs) column plain =
    omega (arith, marks-placeholder column plain, total-repeat vs column plain)

-- A filter asks for its values.
marks-where_part :
    (column : String) (vs : List String) → IsPlain column → marks (where_part column vs) ≡ length vs
unfolding marks
marks-where_part column [] plain = refl
marks-where_part column (v ∷ []) plain = marks-placeholder column plain
marks-where_part column (v ∷ w ∷ vs) plain =
    let tests = repeat (v ∷ w ∷ vs) (placeholder column) in
    omega (
      arith,
      marks-concat "(" (concat (join " OR " tests) ")"),
      marks-concat (join " OR " tests) ")",
      marks-join " OR " tests refl,
      total-repeat (v ∷ w ∷ vs) column plain,
    )

total-where_parts :
    (fs : List FilterOption)
    → All (λ (fo : FilterOption). IsPlain fo.column) fs
    → total (where_parts fs) ≡ length (where_params fs)
total-where_parts [] plain = refl
total-where_parts (f ∷ fs) (plain, more) = omega (
  arith,
  marks-where_part f.column f.values plain,
  total-where_parts fs more,
  length-append f.values (where_params fs),
)

marks-add_where :
    (lo : ListOptions) (q : String)
    → IsPlain q
    → IsPlainList lo
    → marks (add_where lo q).0 ≡ length (add_where lo q).1
unfolding add_where marks
marks-add_where lo q plain h =
    let tests = join " AND " (where_parts lo.filters) in
    either (λ (r : String × List String). marks r.0 ≡ length r.1) (is_empty lo.filters) _ _ plain
      (omega (
        arith,
        plain,
        marks-concat q (concat " WHERE " (concat tests " ")),
        marks-concat " WHERE " (concat tests " "),
        marks-concat tests " ",
        marks-join " AND " (where_parts lo.filters) refl,
        total-where_parts lo.filters h.filters,
      ))

total-direction :
    (sorts : List SortOption)
    → All (λ (so : SortOption). IsPlain so.column) sorts
    → total (map direction sorts) ≡ 0
unfolding marks
total-direction [] plain = refl
total-direction (so ∷ sorts) (plain, more) = omega (
  arith,
  marks-concat so.column (if so.is_asc then " ASC" else " DESC"),
  plain,
  either (λ t. marks t ≡ 0) so.is_asc " ASC" " DESC" refl refl,
  total-direction sorts more,
)

marks-add_order_by :
    (lo : ListOptions) (q : String) → IsPlainList lo → marks (add_order_by lo q) ≡ marks q
unfolding add_order_by marks
marks-add_order_by lo q h =
    let columns = join ", " (map direction lo.sorts) in
    either (λ t. marks t ≡ marks q) (is_empty lo.sorts) _ _ refl
      (omega (
        arith,
        marks-concat q (concat "ORDER BY " columns),
        marks-concat "ORDER BY " columns,
        marks-join ", " (map direction lo.sorts) refl,
        total-direction lo.sorts h.sorts,
      ))

total-qualified :
    (resource : String) (fields : List String)
    → IsPlain resource
    → All IsPlain fields
    → total (qualified resource fields) ≡ 0
unfolding marks
total-qualified resource [] plain all = refl
total-qualified resource (field ∷ more) plain (p, all) = omega (
  arith,
  plain,
  p,
  marks-concat resource (concat "." field),
  marks-concat "." field,
  total-qualified resource more plain all,
)

total-field_names :
    (fields : List FieldsOption)
    → All (λ (fo : FieldsOption). IsPlain fo.resource × All IsPlain fo.fields) fields
    → total (field_names fields) ≡ 0
total-field_names [] plain = refl
total-field_names (fo ∷ more) ((plain, all), rest) = omega (
  arith,
  total-append (qualified fo.resource fo.fields) (field_names more),
  total-qualified fo.resource fo.fields plain all,
  total-field_names more rest,
)

marks-replace_star : (q names : String) → IsPlain names → marks (replace_star q names) ≡ marks q
unfolding marks
marks-replace_star String.[] names plain = refl
marks-replace_star (String.◌∷◌ c s) names plain =
    let same : String → Type 0 = λ t. marks t ≡ marks (String.◌∷◌ c s) in
    let rest = String.◌∷◌ c (replace_star s names) in
    elim (Bool-cases (code c == 42)) [
      | inl star ↦
          if_then same (code c == 42) (concat names s) rest star
            (ground (arith, star, plain, marks-concat names s))
      | inr other ↦
          if_else same (code c == 42) (concat names s) rest other
            (ground (arith, marks-replace_star s names plain))
    ]

marks-replace_star_select :
    (to_upper : String → String) (lo : ListOptions) (q : String)
    → IsPlainList lo
    → marks (replace_star_select to_upper lo.fields q) ≡ marks q
unfolding replace_star_select marks
marks-replace_star_select to_upper lo q h =
    either (λ t. marks t ≡ marks q)
      (not (has_prefix (to_upper q) "SELECT * ") || is_empty lo.fields) q
      (replace_star q (join ", " (field_names lo.fields))) refl
      (marks-replace_star q (join ", " (field_names lo.fields))
        (marks-join ", " (field_names lo.fields) refl ∙ total-field_names lo.fields h.fields))

-- A text with plain names asks for its parameters.
pub marks-convert_list_options_to_query :
    (to_upper : String → String) (lo : ListOptions) (q : String)
    → IsPlain q
    → IsPlainList lo
    → marks (convert_list_options_to_query to_upper lo q).0
      ≡ length (convert_list_options_to_query to_upper lo q).1
unfolding convert_list_options_to_query
marks-convert_list_options_to_query to_upper lo q plain h =
    let (where_query, params) = add_where lo q in
    marks-replace_star_select to_upper lo (add_order_by lo where_query) h
    ∙ marks-add_order_by lo where_query h
    ∙ marks-add_where lo q plain h
