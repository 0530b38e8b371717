-- ===== src/Plan/Physical.antt =====
-- Physical plans: planning (LogicalToPhysical of pkg/plan/plan.go) and execution (the Iterate methods
-- of the nodes). A store gives the data files of a table, or the error of finding them.
pub mod Compose
pub mod Fusion
use gsql.Common.{
  ℕ, zero, suc, Bool, true, false, ◌&&◌, not, Option, none, some, List, [], ◌∷◌, ◌++◌, map, filter,
  flat_map, if◌then◌else◌,
}
use gsql.Common.Int.{ℤ, pos, negsuc}
use gsql.Text.{Text, bytes, ◌==◌, to_lower}
use gsql.Map.{Map, lookup, insert}
use gsql.Float.{Floats}
use gsql.Result.{
  Error, Result, ok, err, ◌>>=◌, table_not_found, cte_not_found, no_table, storage_error,
}
use gsql.Parser.Ast.{Expression, nil, WindowExpr, SortOrder}
use gsql.Catalog.{Catalog, Table, get_table}
use gsql.Storage.Partition.{PartitionFilter, PartitionFile, is_selected, read_partition}
use gsql.Plan.Row.{Row, copy_row, project_row_value, value_or}
use gsql.Plan.Builtin.{Registry}
use gsql.Plan.Eval.{is_nil, evaluate, evaluate_value}
use gsql.Plan.Partition.{extract_partition_filters}
use gsql.Plan.Logical.{
  LogicalNode, JoinInfo, AggregateDef, logical_scan, logical_cte_scan, logical_filter,
  logical_project, logical_join, logical_aggregate, logical_window, logical_sort, logical_limit,
}
use gsql.Plan.Iter.{RowIter, slice_iter, collect, filter_iter, map_iter, limit_iter}
use gsql.Plan.Sort.{sort_rows}
use gsql.Plan.Aggregate.{aggregate_rows}
use gsql.Plan.Window.{compute_window_functions}
use gsql.Plan.JoinDefaults.{side_defaults}
use gsql.Plan.Join.{JoinNode, join_iter}

-- table_scan: table, CTE rows, CTE name, partition filters; a nil table is `none`.
pub data PlanNode : Type 0 where
  table_scan : Option Table → List Row → Text → List PartitionFilter → PlanNode
  filter_node : PlanNode → Expression → PlanNode
  project_node : PlanNode → List Text → List Expression → PlanNode
  window_node : PlanNode → List WindowExpr → PlanNode
  sort_node : PlanNode → List SortOrder → PlanNode
  limit_node : PlanNode → ℤ → PlanNode
  aggregate_node : PlanNode → List Text → List AggregateDef → PlanNode
  join_node : PlanNode → PlanNode → JoinNode → PlanNode

pub record PhysicalPlanContext : Type 0 where
  pub catalog : Catalog
  pub cte_data : Map (List Row)

-- The filter over a planned child. Conditions on partition columns go to the scan of a partitioned
-- table; what is left is a filter, if anything is.
unfoldable pub place_filter :
    List PartitionFilter
    → Expression
    → Expression
    → PlanNode
    → (List PartitionFilter → PlanNode)
    → PlanNode
place_filter [] remaining predicate child pruned = filter_node child predicate
place_filter (f ∷ fs) remaining predicate child pruned =
    if is_nil remaining then pruned (f ∷ fs) else filter_node (pruned (f ∷ fs)) remaining

-- A filter over a scan, by the partition columns of its table.
unfoldable pub filter_scan :
    List Text → Expression → Option Table → List Row → Text → List PartitionFilter → PlanNode
unfolding extract_partition_filters place_filter
filter_scan [] predicate table cte name filters =
    filter_node (table_scan table cte name filters) predicate
filter_scan (col ∷ cols) predicate table cte name filters =
    let (remaining, extracted) = extract_partition_filters predicate (col ∷ cols) in
    place_filter extracted remaining predicate (table_scan table cte name filters)
      (λ fs. table_scan table cte name (filters ++ fs))

unfoldable pub plan_filter : Expression → PlanNode → PlanNode
unfolding filter_scan
plan_filter predicate (table_scan (some t) cte name filters) =
    filter_scan t.partition_by predicate (some t) cte name filters
plan_filter predicate child = filter_node child predicate

module _ (fl : Floats) where
  -- The join node over two planned sides; nil defaults are empty.
  unfoldable pub plan_join :
      PhysicalPlanContext → LogicalNode → LogicalNode → JoinInfo → PlanNode → PlanNode → PlanNode
  unfolding side_defaults
  plan_join ctx l r info left right = join_node left right (record {
    info = info;
    left_defaults = value_or [] (side_defaults fl ctx.catalog ctx.cte_data l);
    right_defaults = value_or [] (side_defaults fl ctx.catalog ctx.cte_data r);
  })

  unfoldable pub logical_to_physical : PhysicalPlanContext → LogicalNode → Result PlanNode
  unfolding plan_filter plan_join get_table lookup to_lower
  logical_to_physical ctx (logical_scan [] alias) = ok (table_scan none ([] ∷ []) [] [])
  logical_to_physical ctx (logical_scan (c ∷ name) alias) =
      elim (get_table ctx.catalog (c ∷ name)) [
        | none ↦ err (table_not_found (c ∷ name))
        | some table ↦ ok (table_scan (some table) [] [] [])
      ]
  logical_to_physical ctx (logical_cte_scan name) = elim (lookup (to_lower name) ctx.cte_data) [
    | none ↦ err (cte_not_found name)
    | some rows ↦ ok (table_scan none rows (to_lower name) [])
  ]
  logical_to_physical ctx (logical_filter c predicate) =
      logical_to_physical ctx c >>= λ child. ok (plan_filter predicate child)
  logical_to_physical ctx (logical_project c columns exprs) =
      logical_to_physical ctx c >>= λ child. ok (project_node child columns exprs)
  logical_to_physical ctx (logical_join l r info) = logical_to_physical ctx l >>= λ left.
      logical_to_physical ctx r >>= λ right. ok (plan_join ctx l r info left right)
  logical_to_physical ctx (logical_aggregate c group_by aggregates) =
      logical_to_physical ctx c >>= λ child. ok (aggregate_node child group_by aggregates)
  logical_to_physical ctx (logical_window c exprs) =
      logical_to_physical ctx c >>= λ child. ok (window_node child exprs)
  logical_to_physical ctx (logical_sort c order_by) =
      logical_to_physical ctx c >>= λ child. ok (sort_node child order_by)
  logical_to_physical ctx (logical_limit c n) =
      logical_to_physical ctx c >>= λ child. ok (limit_node child n)

abbrev pub Store : Type 0
Store = Table → Result (List PartitionFile)

-- The rows of the selected files; a table without a file is an error.
unfoldable pub read_files : Table → List PartitionFile → Result RowIter
unfolding read_partition slice_iter
read_files t [] = err (storage_error t.name)
read_files t (file ∷ files) = ok (slice_iter (flat_map read_partition (file ∷ files)))

-- OpenTableIter
unfoldable pub open_table_iter : Store → Table → List PartitionFilter → Result RowIter
unfolding is_selected read_files
open_table_iter store t filters =
    store t >>= λ files. read_files t (filter (is_selected t.partition_by filters) files)

-- An operator that collects its input first.
unfoldable pub over_all : (List Row → List Row) → RowIter → Result RowIter
unfolding collect slice_iter
over_all f it = collect it >>= λ rows. ok (slice_iter (f rows))

module _ (fl : Floats) (builtins : Registry) where
  -- One value of a projection: that of its expression if there is one, else of the column.
  unfoldable pub project_value : Row → Text → Expression → Text
  unfolding project_row_value
  project_value row col e =
      if is_nil e then project_row_value row col else evaluate_value fl builtins row e

  unfoldable pub project_columns : Row → List Text → List Expression → Row → Row
  unfolding insert project_value
  project_columns row [] exprs projected = projected
  project_columns row (col ∷ cols) [] projected =
      project_columns row cols [] (insert col (project_value row col nil) projected)
  project_columns row (col ∷ cols) (e ∷ exprs) projected =
      project_columns row cols exprs (insert col (project_value row col e) projected)

  -- `SELECT *` passes its input on.
  unfoldable pub project_stream : List Text → List Expression → RowIter → RowIter
  unfolding project_columns map_iter ◌==◌
  project_stream (col ∷ []) exprs it =
      if col == bytes "*" then it else map_iter (λ row. project_columns row (col ∷ []) exprs []) it
  project_stream cols exprs it = map_iter (λ row. project_columns row cols exprs []) it

  -- A negative limit is none.
  unfoldable pub limit_stream : ℤ → RowIter → RowIter
  unfolding limit_iter
  limit_stream (pos n) it = limit_iter n it
  limit_stream (negsuc n) it = it

  -- WindowNode.Iterate on the collected rows.
  unfoldable pub window_rows : List WindowExpr → List Row → List Row
  unfolding compute_window_functions
  window_rows exprs rows = compute_window_functions fl builtins rows exprs

  -- TableScanNode.Iterate: rows of a CTE are copied.
  unfoldable pub scan : Store → Option Table → List Row → List PartitionFilter → Result RowIter
  unfolding open_table_iter slice_iter copy_row
  scan store table (row ∷ rows) filters = ok (slice_iter (map copy_row (row ∷ rows)))
  scan store none [] filters = err no_table
  scan store (some t) [] filters = open_table_iter store t filters

  unfoldable pub join_streams : JoinNode → Result RowIter → Result RowIter → Result RowIter
  unfolding collect join_iter
  join_streams n left right = right >>= λ right_it.
      collect right_it >>= λ right_rows. left >>= λ left_it. ok (join_iter n right_rows left_it)

  unfoldable pub iterate : Store → PlanNode → Result RowIter
  unfolding scan filter_iter evaluate project_stream over_all window_rows sort_rows limit_stream
      aggregate_rows join_streams
  iterate store (table_scan table cte name filters) = scan store table cte filters
  iterate store (filter_node c predicate) =
      iterate store c >>= λ it. ok (filter_iter (λ row. evaluate fl builtins row predicate) it)
  iterate store (project_node c cols exprs) =
      iterate store c >>= λ it. ok (project_stream cols exprs it)
  iterate store (window_node c exprs) = iterate store c >>= over_all (window_rows exprs)
  iterate store (sort_node c order_by) =
      iterate store c >>= over_all (λ rows. sort_rows fl rows order_by)
  iterate store (limit_node c n) = iterate store c >>= λ it. ok (limit_stream n it)
  iterate store (aggregate_node c group_by aggs) =
      iterate store c >>= over_all (aggregate_rows builtins group_by aggs)
  iterate store (join_node l r n) = join_streams n (iterate store l) (iterate store r)
