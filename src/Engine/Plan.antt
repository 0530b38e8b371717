-- ===== src/Engine/Plan.antt =====
-- From a query to its logical plan: buildLogicalPlan and the methods that it calls in turn
-- (pkg/engine/engine.go). The subqueries of conditions have been resolved before.
use gsql.Common.{
  Bool, true, false, not, ◌&&◌, ◌||◌, Option, none, some, List, [], ◌∷◌, ◌++◌, map, any, filter,
  if◌then◌else◌,
}
use gsql.Text.{Text, bytes, ◌==◌, to_lower}
use gsql.Map.{Map, lookup}
use gsql.Result.{Error, not_grouped}
use gsql.Catalog.{Catalog, ColumnDef, get_table}
use gsql.Parser.Ast.{
  Expression, SelectQuery, AggregateExpr, JoinClause, WindowExpr, comparison, logical, no_query,
}
use gsql.Plan.Row.{Row}
use gsql.Plan.Builtin.{Registry, lookup_func}
use gsql.Plan.Eval.{is_nil}
use gsql.Plan.Logical.{
  LogicalNode, AggregateDef, logical_scan, logical_cte_scan, logical_filter, logical_join,
  logical_aggregate,
}
use gsql.Engine.KeyType.{normalize_key_for_type, get_column_type}
use gsql.Engine.Columns.{strip_table_alias, window_result_key, is_scalar}

abbrev is_empty {ℓ} : {A : Type ℓ} → List A → Bool
is_empty [] = true
is_empty (x ∷ xs) = false

abbrev is_some {ℓ} : {A : Type ℓ} → Option A → Bool
is_some none = false
is_some (some a) = true

abbrev or_text : Text → Text → Text
or_text [] t = t
or_text (c ∷ s) t = c ∷ s

unfoldable pub has_text : List Text → Text → Bool
unfolding ◌==◌
has_text names s = any (λ name. name == s) names

-- The name of the relation behind FROM: the alias of a subquery or of VALUES, if it has one.
unfoldable pub base_name : SelectQuery → Text → Option (List (List Text)) → Text → Text
base_name no_query from_alias none table = table
base_name from_subquery from_alias from_values table = or_text from_alias table

-- Tables and joins, with the catalog and the rows of common table expressions.
module _ (catalog : Catalog) (cte_tables : Map (List Row)) where
  unfoldable pub is_cte : Text → Bool
  unfolding lookup to_lower
  is_cte name = is_some (lookup (to_lower name) cte_tables)

  unfoldable pub scan_of : Text → Text → LogicalNode
  unfolding is_cte
  scan_of name alias = if is_cte name then logical_cte_scan name else logical_scan name alias

  unfoldable pub build_base_relation :
      Text → Text → SelectQuery → Text → Option (List (List Text)) → LogicalNode
  unfolding scan_of base_name
  build_base_relation table table_alias from_subquery from_alias from_values =
      scan_of (base_name from_subquery from_alias from_values table) table_alias

  unfoldable pub column_exists : Text → Text → Bool
  unfolding is_cte get_table ◌==◌
  column_exists col table_name = is_cte table_name || elim (get_table catalog table_name) [
    | none ↦ false
    | some t ↦ any (λ (c : ColumnDef). c.name == col) t.columns
  ]

  unfoldable pub sides_reversed : Text → Text → Text → Text → Bool
  unfolding column_exists
  sides_reversed left_col right_col table right_table =
      column_exists left_col right_table
      && (not (column_exists left_col table)
          && (column_exists right_col table && not (column_exists right_col right_table)))

  abbrev key_for : Text → Option (Text → Text)
  unfolding normalize_key_for_type
  key_for [] = none
  key_for (c ∷ s) = some (normalize_key_for_type (c ∷ s))

  unfoldable pub add_join : Text → Text → LogicalNode → JoinClause → LogicalNode
  unfolding scan_of strip_table_alias sides_reversed get_column_type normalize_key_for_type
  add_join table table_alias root join =
      let a = strip_table_alias join.left_column in
      let b = strip_table_alias join.right_column in
      let reversed = sides_reversed a b table join.right_table in
      let left_col = if reversed then b else a in
      let right_col = if reversed then a else b in
      logical_join root (scan_of join.right_table join.right_alias) record {
        left_column = left_col;
        right_column = right_col;
        join_type = join.join_type;
        left_prefix = or_text table_alias table;
        right_prefix = or_text join.right_alias join.right_table;
        normalize_key = key_for (get_column_type catalog table left_col);
      }

  unfoldable pub add_joins : Text → Text → LogicalNode → List JoinClause → LogicalNode
  unfolding add_join
  add_joins table table_alias root [] = root
  add_joins table table_alias root (join ∷ joins) =
      add_joins table table_alias (add_join table table_alias root join) joins

-- A nil map of aliases is the empty one.
abbrev renamed : Map Text → Text → Text
unfolding lookup
renamed aliases col = elim (lookup col aliases) [ none ↦ col | some resolved ↦ resolved ]

unfoldable pub strip_expr_aliases : Map Text → Expression → Expression
unfolding lookup strip_table_alias
strip_expr_aliases aliases (comparison col op value right_col e) =
    comparison (renamed aliases (strip_table_alias col)) op value
      (renamed aliases (strip_table_alias right_col)) e
strip_expr_aliases aliases (logical left op right) =
    logical (strip_expr_aliases aliases left) op (strip_expr_aliases aliases right)
strip_expr_aliases aliases e = e

-- A filter when the condition is not nil.
unfoldable pub filtered : Map Text → LogicalNode → Expression → LogicalNode
unfolding strip_expr_aliases
filtered aliases root condition =
    if is_nil condition then root else logical_filter root (strip_expr_aliases aliases condition)

-- Aggregates that are not scalar functions.
unfoldable pub is_real_aggregate : Registry → AggregateExpr → Bool
unfolding ◌==◌ lookup_func is_scalar
is_real_aggregate builtins a =
    not (a.func_name == []) && not (is_scalar (lookup_func builtins a.func_name))

unfoldable pub has_real_aggregates : Registry → List AggregateExpr → Bool
unfolding is_real_aggregate
has_real_aggregates builtins aggregates = any (is_real_aggregate builtins) aggregates

unfoldable pub aggregate_def : AggregateExpr → AggregateDef
unfolding strip_table_alias
aggregate_def a = record {
  func_name = a.func_name;
  column = strip_table_alias a.column;
  args = map strip_table_alias a.args;
  distinct = a.distinct;
}

unfoldable pub add_grouping : Registry → LogicalNode → List Text → List AggregateExpr → LogicalNode
unfolding has_real_aggregates is_real_aggregate aggregate_def strip_table_alias
add_grouping builtins root group_by aggregates =
    let keys = map strip_table_alias group_by in
    let defs = map aggregate_def (filter (is_real_aggregate builtins) aggregates) in
    if (not (is_empty keys) || has_real_aggregates builtins aggregates)
      && (not (is_empty keys) || not (is_empty defs))
    then logical_aggregate root keys defs
    else root

unfoldable pub add_filters_and_grouping :
    Registry
    → LogicalNode
    → Expression
    → List Text
    → List AggregateExpr
    → Expression
    → Map Text
    → LogicalNode
unfolding filtered add_grouping
add_filters_and_grouping builtins root where_expr group_by aggregates having column_aliases =
    filtered column_aliases
      (add_grouping builtins (filtered [] root where_expr) group_by aggregates) having

-- The keys of the windows with a function.
unfoldable pub window_key_set : List WindowExpr → List Text
unfolding ◌==◌ window_result_key
window_key_set window_exprs =
    map window_result_key (filter (λ (w : WindowExpr). not (w.func_name == [])) window_exprs)

unfoldable pub aggregate_name : AggregateExpr → Text
unfolding strip_table_alias
aggregate_name a = a.func_name ++ b'(' ∷ (strip_table_alias a.column ++ bytes ")")

-- The names that a column of a grouped query may have.
unfoldable pub valid_columns : List Text → List AggregateExpr → List WindowExpr → List Text
unfolding strip_table_alias aggregate_name window_key_set
valid_columns group_by aggregates window_exprs =
    let keys = window_key_set window_exprs in
    map strip_table_alias group_by
    ++ (map aggregate_name aggregates ++ (keys ++ map strip_table_alias keys))

unfoldable pub first_invalid : List Text → List Text → Option Error
unfolding has_text strip_table_alias
first_invalid valid [] = none
first_invalid valid (col ∷ columns) =
    if has_text valid (strip_table_alias col)
    then first_invalid valid columns
    else some (not_grouped (strip_table_alias col))

unfoldable pub is_only_star : List Text → Bool
unfolding ◌==◌
is_only_star (col ∷ []) = col == bytes "*"
is_only_star columns = false

unfoldable pub validate_group_by_columns :
    List Text → List Text → List AggregateExpr → List WindowExpr → Option Error
unfolding is_only_star first_invalid valid_columns
validate_group_by_columns columns [] aggregates window_exprs = none
validate_group_by_columns columns (g ∷ group_by) aggregates window_exprs =
    if is_only_star columns
    then none
    else first_invalid (valid_columns (g ∷ group_by) aggregates window_exprs) columns
