-- ===== src/Plan/JoinDefaults.antt =====
-- The values that stand for the missing side of a join (pkg/plan/join_defaults.go). A nil map of
-- defaults and an empty one are the same: a range over either does nothing, and `none` is kept apart
-- only where the code tests for nil.
use gsql.Common.{Bool, true, false, Option, none, some, List, [], ◌∷◌, take, any, if◌then◌else◌}
use gsql.Text.{Text, bytes, ◌==◌, to_upper, to_lower, trim_space, index_byte}
use gsql.Map.{Map, lookup, insert}
use gsql.Float.{Floats}
use gsql.Catalog.{Catalog, ColumnDef, get_table}
use gsql.Plan.Row.{Row, copy_row, value_or}
use gsql.Plan.Logical.{
  LogicalNode, logical_scan, logical_cte_scan, logical_filter, logical_project, logical_join,
  logical_aggregate, logical_window, logical_sort, logical_limit,
}
use gsql.Plan.Join.{merge_entries}

abbrev one_of : Text → List Text → Bool
one_of s names = any (λ name. name == s) names

-- The type's name without its parameters, such as "DECIMAL(10,2)".
unfoldable pub base_type : Text → Text
unfolding to_upper trim_space index_byte
base_type col_type =
    let base = to_upper (trim_space col_type) in
    elim (index_byte b'(' base) [ none ↦ base | some i ↦ trim_space (take i base) ]

unfoldable pub default_value_for_type : Text → Text
unfolding base_type ◌==◌
default_value_for_type col_type =
    if one_of (base_type col_type) (
      bytes "INT"
      ∷ bytes "INTEGER"
      ∷ bytes "BIGINT"
      ∷ bytes "SMALLINT"
      ∷ bytes "TINYINT"
      ∷ bytes "LONG"
      ∷ bytes "DECIMAL"
      ∷ bytes "NUMERIC"
      ∷ bytes "FLOAT"
      ∷ bytes "DOUBLE"
      ∷ bytes "REAL"
      ∷ [])
    then bytes "0"
    else if one_of (base_type col_type) (bytes "BOOLEAN" ∷ bytes "BOOL" ∷ [])
    then bytes "false"
    else []

-- A declared DEFAULT wins over that of the type.
unfoldable pub column_default : ColumnDef → Text
unfolding default_value_for_type
column_default c = if c.has_default then c.default else default_value_for_type c.type

unfoldable pub table_defaults : List ColumnDef → Row → Row
unfolding insert column_default
table_defaults [] defaults = defaults
table_defaults (c ∷ columns) defaults =
    table_defaults columns (insert c.name (column_default c) defaults)

-- The columns for which a value has been seen, each with whether it parsed as a number.
abbrev pub Kinds : Type 0
Kinds = Map Bool

module _ (fl : Floats) where
  abbrev is_number : Text → Bool
  is_number v = elim (fl.parse_float v) [ none ↦ false | some f ↦ true ]

  -- The first value that is not empty decides.
  unfoldable pub see_value : Text → Text → Kinds → Kinds
  unfolding lookup insert ◌==◌
  see_value k v kinds = elim (lookup k kinds) [
    | some _ ↦ kinds
    | none ↦ if v == [] then kinds else insert k (is_number v) kinds
  ]

  unfoldable pub see_row : Row → Kinds → Kinds
  unfolding see_value
  see_row [] kinds = kinds
  see_row ((k, v) ∷ row) kinds = see_value k v (see_row row kinds)

  unfoldable pub see_rows : List Row → Kinds → Kinds
  unfolding see_row
  see_rows [] kinds = kinds
  see_rows (row ∷ rows) kinds = see_rows rows (see_row row kinds)

  unfoldable pub kind_defaults : Kinds → Row → Row
  unfolding lookup
  kind_defaults kinds [] = []
  kind_defaults kinds ((k, v) ∷ row) =
      (k, if value_or false (lookup k kinds) then bytes "0" else []) ∷ kind_defaults kinds row

  -- cteDefaults: the first 100 rows are looked at.
  unfoldable pub cte_defaults : List Row → Option Row
  unfolding see_rows kind_defaults
  cte_defaults [] = none
  cte_defaults (row ∷ rows) = some (kind_defaults (see_rows (take 100 (row ∷ rows)) []) row)

  -- The defaults of a nested join, laid out as its rows are.
  unfoldable pub merge_defaults : Text → Option Row → Option Row → Option Row
  unfolding merge_entries copy_row
  merge_defaults prefix none right = right
  merge_defaults prefix (some left) none = some left
  merge_defaults prefix (some left) (some right) = some (merge_entries prefix right (copy_row left))

  -- sideDefaults, with the catalog and the rows of the CTEs.
  unfoldable pub side_defaults : Catalog → Map (List Row) → LogicalNode → Option Row
  unfolding get_table table_defaults cte_defaults merge_defaults lookup to_lower
  side_defaults catalog ctes (logical_scan name alias) = elim (get_table catalog name) [
    | none ↦ none
    | some table ↦ some (table_defaults table.columns [])
  ]
  side_defaults catalog ctes (logical_cte_scan name) =
      cte_defaults (value_or [] (lookup (to_lower name) ctes))
  side_defaults catalog ctes (logical_join l r info) =
      merge_defaults info.right_prefix (side_defaults catalog ctes l) (side_defaults catalog ctes r)
  side_defaults catalog ctes (logical_filter c predicate) = side_defaults catalog ctes c
  side_defaults catalog ctes (logical_project c columns exprs) = side_defaults catalog ctes c
  side_defaults catalog ctes (logical_aggregate c group_by aggregates) =
      side_defaults catalog ctes c
  side_defaults catalog ctes (logical_window c exprs) = side_defaults catalog ctes c
  side_defaults catalog ctes (logical_sort c order_by) = side_defaults catalog ctes c
  side_defaults catalog ctes (logical_limit c n) = side_defaults catalog ctes c
