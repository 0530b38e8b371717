-- ===== src/Engine/Build/Sources.antt =====
-- The tables that a logical plan reads (pkg/engine/engine.go).
use gsql.Common.{
  inl, inr, Option-cases, if◌then◌else◌, Bool, true, false, ◌≡◌, refl, sym, ap, ◌∙◌, Option, none,
  some, List, [], ◌∷◌, ◌++◌, map, append_assoc, append-nil, arith,
}
use gsql.Common.Int.{ℤ}
use gsql.Text.{Text, ◌==◌, to_lower}
use gsql.Map.{Map, lookup}
use gsql.Result.{Error, ok}
use gsql.Catalog.{Catalog}
use gsql.Parser.Ast.{
  Expression, SelectQuery, AggregateExpr, JoinClause, SortOrder, WindowExpr, no_query, select_query,
}
use gsql.Plan.Row.{Row}
use gsql.Plan.Builtin.{Registry}
use gsql.Plan.Logical.{
  LogicalNode, logical_scan, logical_cte_scan, logical_filter, logical_project, logical_join,
  logical_aggregate, logical_window, logical_sort, logical_limit,
}
use gsql.Engine.Plan.{
  is_cte, base_name, build_base_relation, scan_of, add_join, add_joins, filtered, add_grouping,
  add_filters_and_grouping, validate_group_by_columns,
}
use gsql.Engine.Project.{
  add_window_functions, add_projection, add_sort_and_limit, windowed, distinct_over, limited,
  sorted,
}
use gsql.Engine.Build.{build_logical_plan, checked}

-- What a scan reads: a table of the catalog, or the rows of a common table expression, a subquery or
-- VALUES under a name.
pub data Source : Type 0 where
  catalog_table : Text → Source
  kept_rows : Text → Source

-- The sources of the scans of a plan, from left to right.
unfoldable pub scanned : LogicalNode → List Source
scanned (logical_scan name alias) = catalog_table name ∷ []
scanned (logical_cte_scan name) = kept_rows name ∷ []
scanned (logical_filter child predicate) = scanned child
scanned (logical_project child columns exprs) = scanned child
scanned (logical_join left right info) = scanned left ++ scanned right
scanned (logical_aggregate child group_by aggregates) = scanned child
scanned (logical_window child exprs) = scanned child
scanned (logical_sort child order_by) = scanned child
scanned (logical_limit child n) = scanned child

abbrev found : Option (List Row) → Text → Source
found none name = catalog_table name
found (some rows) name = kept_rows name

-- A name stands for the rows that are kept under it, case ignored, if there are any.
abbrev source : Map (List Row) → Text → Source
source cte_tables name = found (lookup (to_lower name) cte_tables) name

-- The name behind FROM: a subquery or VALUES goes by its alias if it has one.
unfoldable pub from_name : Bool → Text → Text → Text
from_name false from_alias table = table
from_name true from_alias table = if from_alias == [] then table else from_alias

abbrev is_derived : SelectQuery → Option (List (List Text)) → Bool
is_derived no_query none = false
is_derived no_query (some values) = true
is_derived query values = true

-- The sources that a query writes: the one behind FROM and those of its joins.
unfoldable pub written : Map (List Row) → SelectQuery → List Source
unfolding from_name
written cte_tables no_query = catalog_table [] ∷ []
written cte_tables
      (select_query ctes columns column_exprs distinct table table_alias from_subquery from_alias
        from_values from_values_cols joins where_expr group_by having order_by limit has_limit
        aggregates window_exprs column_aliases union_query union_all lateral_views) =
    source cte_tables (from_name (is_derived from_subquery from_values) from_alias table)
    ∷ map (λ (j : JoinClause). source cte_tables j.right_table) joins

scanned-scan_of :
    (catalog : Catalog) (cte_tables : Map (List Row)) (name alias : Text)
    → scanned (scan_of catalog cte_tables name alias) ≡ source cte_tables name ∷ []
unfolding scanned scan_of is_cte
scanned-scan_of catalog cte_tables name alias =
    elim (Option-cases (lookup (to_lower name) cte_tables)) [
      | inl e ↦ rw e refl
      | inr (rows, e) ↦ rw e refl
    ]

base_name-from_name :
    (from_subquery : SelectQuery) (from_alias : Text) (from_values : Option (List (List Text)))
    (table : Text)
    → base_name from_subquery from_alias from_values table
      ≡ from_name (is_derived from_subquery from_values) from_alias table
unfolding base_name from_name ◌==◌
base_name-from_name no_query alias none table = refl
base_name-from_name no_query [] (some values) table = refl
base_name-from_name no_query (c ∷ alias) (some values) table = refl
base_name-from_name (select_query _ _ _ _ _ _ _ _ _ _ _ _ _ _ _ _ _ _ _ _ _ _ _) [] vs table = refl
base_name-from_name (select_query _ _ _ _ _ _ _ _ _ _ _ _ _ _ _ _ _ _ _ _ _ _ _) (c ∷ alias) vs
      table =
    refl

scanned-add_joins :
    (catalog : Catalog) (cte_tables : Map (List Row)) (table table_alias : Text)
    (root : LogicalNode) (joins : List JoinClause)
    → scanned (add_joins catalog cte_tables table table_alias root joins)
      ≡ scanned root ++ map (λ (j : JoinClause). source cte_tables j.right_table) joins
unfolding scanned add_joins add_join
scanned-add_joins catalog cte_tables table alias root [] = sym (append-nil (scanned root))
scanned-add_joins catalog cte_tables table alias root (j ∷ joins) =
    scanned-add_joins catalog cte_tables table alias
      (add_join catalog cte_tables table alias root j) joins
    ∙ (ap
          (λ names.
            (scanned root ++ names)
            ++ map (λ (j : JoinClause). source cte_tables j.right_table) joins)
          (scanned-scan_of catalog cte_tables j.right_table j.right_alias)
        ∙ append_assoc (scanned root) (source cte_tables j.right_table ∷ [])
            (map (λ (j : JoinClause). source cte_tables j.right_table) joins))

scanned-filtered :
    (aliases : Map Text) (root : LogicalNode) (condition : Expression)
    → scanned (filtered aliases root condition) ≡ scanned root
unfolding scanned filtered
scanned-filtered aliases root condition = ground arith

scanned-add_grouping :
    (builtins : Registry) (root : LogicalNode) (group_by : List Text)
    (aggregates : List AggregateExpr)
    → scanned (add_grouping builtins root group_by aggregates) ≡ scanned root
unfolding scanned add_grouping
scanned-add_grouping builtins root group_by aggregates = ground arith

scanned-add_filters_and_grouping :
    (builtins : Registry) (root : LogicalNode) (where_expr : Expression) (group_by : List Text)
    (aggregates : List AggregateExpr) (having : Expression) (aliases : Map Text)
    → scanned (add_filters_and_grouping builtins root where_expr group_by aggregates having aliases)
      ≡ scanned root
unfolding add_filters_and_grouping
scanned-add_filters_and_grouping builtins root where_expr group_by aggregates having aliases =
    let filter = filtered [] root where_expr in
    scanned-filtered aliases (add_grouping builtins filter group_by aggregates) having
    ∙ (scanned-add_grouping builtins filter group_by aggregates
        ∙ scanned-filtered [] root where_expr)

scanned-windowed :
    (root : LogicalNode) (ws : List WindowExpr) → scanned (windowed root ws) ≡ scanned root
unfolding scanned
scanned-windowed root [] = refl
scanned-windowed root (w ∷ ws) = refl

scanned-add_window_functions :
    (root : LogicalNode) (window_exprs : List WindowExpr)
    → scanned (add_window_functions root window_exprs) ≡ scanned root
unfolding add_window_functions
scanned-add_window_functions root window_exprs = scanned-windowed root _

scanned-distinct_over :
    (distinct : Bool) (root : LogicalNode) (columns : List Text)
    → scanned (distinct_over distinct root columns) ≡ scanned root
unfolding scanned
scanned-distinct_over true root columns = refl
scanned-distinct_over false root columns = refl

scanned-add_projection :
    (distinct : Bool) (root : LogicalNode) (items : List Text × List Expression)
    → scanned (add_projection distinct root items) ≡ scanned root
unfolding scanned add_projection
scanned-add_projection distinct root ([], exprs) = refl
scanned-add_projection distinct root (c ∷ columns, exprs) =
    scanned-distinct_over distinct root (c ∷ columns)

scanned-limited :
    (has_limit : Bool) (root : LogicalNode) (n : ℤ)
    → scanned (limited has_limit root n) ≡ scanned root
unfolding scanned
scanned-limited true root n = refl
scanned-limited false root n = refl

scanned-sorted :
    (root : LogicalNode) (order_by : List SortOrder) → scanned (sorted root order_by) ≡ scanned root
unfolding scanned
scanned-sorted root [] = refl
scanned-sorted root (o ∷ order_by) = refl

scanned-add_sort_and_limit :
    (root : LogicalNode) (keys aliases : Map Text) (order_by : List SortOrder) (limit : ℤ)
    (has_limit : Bool)
    → scanned (add_sort_and_limit root keys aliases order_by limit has_limit) ≡ scanned root
unfolding add_sort_and_limit
scanned-add_sort_and_limit root keys aliases order_by limit has_limit =
    scanned-limited has_limit _ limit ∙ scanned-sorted root _

of_checked : (e : Option Error) (made plan : LogicalNode) → checked e made ≡ ok plan → plan ≡ made
of_checked none made plan h = cc
of_checked (some e) made plan h = absurd cc

-- A plan reads each source that its query writes once, in the order of the query: the one behind FROM
-- and then those of the joins, each from the rows that are kept under its name, if there are any, and
-- else from the catalog.
pub build_logical_plan-scanned :
    (builtins : Registry) (catalog : Catalog) (cte_tables : Map (List Row)) (query : SelectQuery)
    (plan : LogicalNode)
    → build_logical_plan builtins catalog cte_tables query ≡ ok plan
    → scanned plan ≡ written cte_tables query
unfolding build_logical_plan scanned written build_base_relation
build_logical_plan-scanned builtins catalog ctes no_query plan h =
    ap scanned (of_checked none (logical_scan [] []) plan h)
build_logical_plan-scanned builtins catalog ctes
      (select_query _ columns _ distinct table table_alias from_subquery from_alias from_values
        from_values_cols joins where_expr group_by having order_by limit has_limit aggregates
        window_exprs column_aliases _ _ _)
      plan h =
    let made =
      of_checked (validate_group_by_columns columns group_by aggregates window_exprs) _ plan h in
    rw
      (
        made, scanned-add_sort_and_limit, scanned-add_projection, scanned-add_window_functions,
        scanned-add_filters_and_grouping, scanned-add_joins, scanned-scan_of,
      )
      (ap (λ name. source ctes name ∷ map (λ (j : JoinClause). source ctes j.right_table) joins)
        (base_name-from_name from_subquery from_alias from_values table))
