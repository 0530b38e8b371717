-- ===== src/Engine/Build.antt =====
pub mod Sources
pub mod Grouping
-- buildLogicalPlan of pkg/engine/engine.go.
use gsql.Common.{Option, none, some, List, [], ◌∷◌, map}
use gsql.Text.{Text}
use gsql.Map.{Map}
use gsql.Result.{Result, Error, ok, err}
use gsql.Catalog.{Catalog}
use gsql.Parser.Ast.{SelectQuery, no_query, select_query}
use gsql.Plan.Row.{Row}
use gsql.Plan.Builtin.{Registry}
use gsql.Plan.Logical.{LogicalNode, logical_scan}
use gsql.Engine.Plan.{
  build_base_relation, add_joins, add_filters_and_grouping, validate_group_by_columns,
  window_key_set,
}
use gsql.Engine.Project.{
  add_window_functions, add_projection, add_sort_and_limit, projection_items, expand_star_columns,
  projection_key_map,
}

-- The plan, unless the check of the grouping has an error.
abbrev checked : Option Error → LogicalNode → Result LogicalNode
checked none plan = ok plan
checked (some e) plan = err e

-- The nil query, on which the source panics, has the empty scan.
unfoldable pub build_logical_plan :
    Registry → Catalog → Map (List Row) → SelectQuery → Result LogicalNode
unfolding build_base_relation add_joins add_filters_and_grouping validate_group_by_columns
    window_key_set add_window_functions add_projection add_sort_and_limit projection_items
    expand_star_columns projection_key_map
build_logical_plan builtins catalog cte_tables no_query = ok (logical_scan [] [])
build_logical_plan builtins catalog cte_tables
      (select_query ctes columns column_exprs distinct table table_alias from_subquery from_alias
        from_values from_values_cols joins where_expr group_by having order_by limit has_limit
        aggregates window_exprs column_aliases union_query union_all lateral_views) =
    let base =
      build_base_relation catalog cte_tables table table_alias from_subquery from_alias
        from_values in
    let joined = add_joins catalog cte_tables table table_alias base joins in
    let grouped =
      add_filters_and_grouping builtins joined where_expr group_by aggregates having
        column_aliases in
    let windowed = add_window_functions grouped window_exprs in
    let star = expand_star_columns catalog table table_alias from_values from_values_cols joins in
    let items =
      projection_items builtins aggregates joins star (window_key_set window_exprs) columns
        column_exprs in
    let projected = add_projection distinct windowed items in
    let keys = projection_key_map columns joins window_exprs column_aliases in
    checked (validate_group_by_columns columns group_by aggregates window_exprs)
      (add_sort_and_limit projected keys column_aliases order_by limit has_limit)
