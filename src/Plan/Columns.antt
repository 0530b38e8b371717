-- ===== src/Plan/Columns.antt =====
-- Column pruning: the columns that a plan refers to, and the projections put over its scans
-- (ColumnPruning of pkg/plan/optimizer.go). A set of columns is a Go map to bool.
pub mod Collected
pub mod Pruned
use gsql.Common.{
  Bool, true, false, not, ◌&&◌, Option, none, some, List, [], ◌∷◌, map, filter, any, if◌then◌else◌,
}
use gsql.Text.{Text, bytes, ◌==◌, text_lt}
use gsql.Map.{Map, insert}
use gsql.Parser.Ast.{
  Expression, Branches, nil, comparison, logical, null_test, in_expr, exists_expr, binary,
  column_ref, case_expr, literal, func_call, window, no_branch, branch, WindowExpr, SortOrder,
}
use gsql.Catalog.{Catalog, ColumnDef, Table, get_table}
use gsql.Sort.{stable_sort}
use gsql.Plan.Logical.{
  LogicalNode, JoinInfo, AggregateDef, logical_scan, logical_cte_scan, logical_filter,
  logical_project, logical_join, logical_aggregate, logical_window, logical_sort, logical_limit,
}

abbrev pub Columns : Type 0
Columns = Map Bool

-- `cols[c] = true`
unfoldable pub add_column : Text → Columns → Columns
unfolding insert
add_column c cols = insert c true cols

-- The same unless the name is empty.
unfoldable pub add_named : Text → Columns → Columns
unfolding add_column ◌==◌
add_named c cols = if c == [] then cols else add_column c cols

-- The same unless the name is empty or "*".
unfoldable pub add_plain : Text → Columns → Columns
unfolding add_named ◌==◌
add_plain c cols = if c == bytes "*" then cols else add_named c cols

unfoldable pub add_all : (Text → Columns → Columns) → List Text → Columns → Columns
add_all add [] cols = cols
add_all add (c ∷ names) cols = add_all add names (add c cols)

unfoldable mutual
  unfolding add_column add_named add_all

  pub collect_expr_cols : Expression → Columns → Columns
  collect_expr_cols (comparison column op value right_column e) cols =
      collect_expr_cols e (add_named right_column (add_named column cols))
  collect_expr_cols (logical l op r) cols = collect_expr_cols r (collect_expr_cols l cols)
  collect_expr_cols (null_test column is_null) cols = add_named column cols
  collect_expr_cols (in_expr column negated values subquery) cols = add_named column cols
  collect_expr_cols (binary l op r) cols = collect_expr_cols r (collect_expr_cols l cols)
  collect_expr_cols (column_ref name) cols = add_column name cols
  collect_expr_cols (func_call name args) cols = add_all add_named args cols
  collect_expr_cols (case_expr bs e) cols = collect_expr_cols e (collect_branches bs cols)
  collect_expr_cols _ cols = cols

  pub collect_branches : Branches → Columns → Columns
  collect_branches no_branch cols = cols
  collect_branches (branch c r bs) cols =
      collect_branches bs (collect_expr_cols r (collect_expr_cols c cols))

unfoldable pub collect_exprs : List Expression → Columns → Columns
unfolding collect_expr_cols
collect_exprs [] cols = cols
collect_exprs (e ∷ exprs) cols = collect_exprs exprs (collect_expr_cols e cols)

unfoldable pub collect_windows : List WindowExpr → Columns → Columns
unfolding add_all add_plain add_named
collect_windows [] cols = cols
collect_windows (w ∷ exprs) cols = collect_windows exprs (
    add_all add_named (map (λ o. o.column) w.order_by)
      (add_all add_named w.partition_by (add_all add_plain w.args cols)))

unfoldable pub collect_aggregates : List AggregateDef → Columns → Columns
unfolding add_all add_plain
collect_aggregates [] cols = cols
collect_aggregates (a ∷ aggregates) cols =
    collect_aggregates aggregates (add_all add_plain a.args (add_plain a.column cols))

-- collectColumnRefs: a node's own references, then those of its children.
unfoldable pub collect_column_refs : LogicalNode → Columns → Columns
unfolding collect_expr_cols collect_exprs collect_windows collect_aggregates add_all add_named
collect_column_refs (logical_scan name alias) cols = cols
collect_column_refs (logical_cte_scan name) cols = cols
collect_column_refs (logical_filter c predicate) cols =
    collect_column_refs c (collect_expr_cols predicate cols)
collect_column_refs (logical_project c columns exprs) cols =
    collect_column_refs c (collect_exprs exprs (add_all add_named columns cols))
collect_column_refs (logical_join l r info) cols =
    collect_column_refs r
      (collect_column_refs l (add_named info.right_column (add_named info.left_column cols)))
collect_column_refs (logical_aggregate c group_by aggregates) cols =
    collect_column_refs c (collect_aggregates aggregates (add_all add_named group_by cols))
collect_column_refs (logical_window c exprs) cols =
    collect_column_refs c (collect_windows exprs cols)
collect_column_refs (logical_sort c order_by) cols =
    collect_column_refs c (add_all add_named (map (λ o. o.column) order_by) cols)
collect_column_refs (logical_limit c n) cols = collect_column_refs c cols

unfoldable pub sorted_unique_keys : Columns → List Text
unfolding stable_sort text_lt
sorted_unique_keys cols = stable_sort text_lt (map (λ entry. entry.0) cols)

abbrev pub has_column : Table → Text → Bool
has_column t c = any (λ def. def.name == c) t.columns

-- The needed columns that the table of a scan has. A table that the catalog does not know keeps them
-- all; without a catalog or a table name there are none.
unfoldable pub scan_columns : Columns → Option Catalog → Text → Columns
unfolding get_table ◌==◌
scan_columns needed none name = []
scan_columns needed (some catalog) [] = []
scan_columns needed (some catalog) (c ∷ name) = elim (get_table catalog (c ∷ name)) [
  | none ↦ needed
  | some t ↦ filter (λ entry. has_column t entry.0) needed
]

-- The projection over a scan, when any column is left.
unfoldable pub project_scan : LogicalNode → Columns → LogicalNode
unfolding sorted_unique_keys
project_scan scan [] = scan
project_scan scan (entry ∷ cols) = logical_project scan (sorted_unique_keys (entry ∷ cols)) []

-- injectPruneProjects: nothing is pruned below a join.
unfoldable pub inject_prune_projects : LogicalNode → Columns → Option Catalog → LogicalNode
unfolding scan_columns project_scan
inject_prune_projects (logical_scan name alias) [] catalog = logical_scan name alias
inject_prune_projects (logical_scan name alias) (entry ∷ needed) catalog =
    project_scan (logical_scan name alias) (scan_columns (entry ∷ needed) catalog name)
inject_prune_projects (logical_cte_scan name) needed catalog = logical_cte_scan name
inject_prune_projects (logical_join l r info) needed catalog = logical_join l r info
inject_prune_projects (logical_filter c predicate) needed catalog =
    logical_filter (inject_prune_projects c needed catalog) predicate
inject_prune_projects (logical_project c columns exprs) needed catalog =
    logical_project (inject_prune_projects c needed catalog) columns exprs
inject_prune_projects (logical_aggregate c group_by aggregates) needed catalog =
    logical_aggregate (inject_prune_projects c needed catalog) group_by aggregates
inject_prune_projects (logical_window c exprs) needed catalog =
    logical_window (inject_prune_projects c needed catalog) exprs
inject_prune_projects (logical_sort c order_by) needed catalog =
    logical_sort (inject_prune_projects c needed catalog) order_by
inject_prune_projects (logical_limit c n) needed catalog =
    logical_limit (inject_prune_projects c needed catalog) n

unfoldable pub column_pruning : LogicalNode → Option Catalog → LogicalNode
unfolding collect_column_refs inject_prune_projects
column_pruning node catalog = inject_prune_projects node (collect_column_refs node []) catalog
