-- ===== src/Plan/Aggregate.antt =====
-- Grouping and aggregation (AggregateNode and makeGroupKey of pkg/plan/plan.go).
pub mod Key
pub mod Groups
use gsql.Common.{Bool, List, [], ◌∷◌, ◌++◌, map, if◌then◌else◌}
use gsql.Text.{Text, bytes, text_lt, join}
use gsql.Map.{Map, insert}
use gsql.Sort.{stable_sort}
use gsql.Plan.Row.{Row, get}
use gsql.Plan.Logical.{AggregateDef}
use gsql.Plan.Builtin.{Registry, compute_aggregate}
use gsql.Plan.Join.{add_row, build_hash}

-- The values of the columns, separated by NUL.
unfoldable pub make_group_key : List Text → Row → Text
unfolding get join
make_group_key cols row = join (0 ∷ []) (map (get row) cols)

-- A group: its key and its rows.
abbrev pub Group : Type 0
Group = Text × List Row

abbrev pub group_less : Group → Group → Bool
group_less g h = text_lt g.0 h.0

-- The groups in the order of their keys; without GROUP BY all rows are one group.
unfoldable pub group_rows : List Text → List Row → List Group
unfolding stable_sort text_lt build_hash make_group_key
group_rows [] rows = ([], rows) ∷ []
group_rows (col ∷ cols) rows =
    stable_sort group_less (build_hash (make_group_key (col ∷ cols)) [] rows)

-- The GROUP BY columns of the first row of a group.
unfoldable pub set_columns : Row → List Text → Row → Row
unfolding insert get
set_columns first [] row = row
set_columns first (col ∷ cols) row = set_columns first cols (insert col (get first col) row)

unfoldable pub group_columns : List Text → List Row → Row
unfolding set_columns
group_columns group_by [] = []
group_columns group_by (first ∷ group) = set_columns first group_by []

-- The column of an aggregate, such as "SUM(DISTINCT amount)".
unfoldable pub aggregate_key : AggregateDef → Text
aggregate_key agg =
    agg.func_name
    ++ (bytes "("
        ++ ((if agg.distinct then bytes "DISTINCT " else []) ++ (agg.column ++ bytes ")")))

-- Without arguments the column is the argument, if there is one.
unfoldable pub aggregate_args : AggregateDef → List Text → List Text
aggregate_args agg (a ∷ args) = a ∷ args
aggregate_args agg [] = elim (agg.column) [ [] ↦ [] | c ∷ s ↦ (c ∷ s) ∷ [] ]

module _ (builtins : Registry) where
  unfoldable pub set_aggregates : List Row → List AggregateDef → Row → Row
  unfolding insert aggregate_key aggregate_args compute_aggregate
  set_aggregates group [] row = row
  set_aggregates group (agg ∷ aggs) row = set_aggregates group aggs (
      insert (aggregate_key agg)
        (compute_aggregate builtins group agg.func_name agg.column agg.distinct
          (aggregate_args agg agg.args))
        row)

  unfoldable pub aggregate_group : List Text → List AggregateDef → Group → Row
  unfolding group_columns set_aggregates
  aggregate_group group_by aggs g = set_aggregates g.1 aggs (group_columns group_by g.1)

  -- AggregateNode.Iterate on the collected rows; no rows give no group, not even without GROUP BY.
  unfoldable pub aggregate_rows : List Text → List AggregateDef → List Row → List Row
  unfolding group_rows aggregate_group
  aggregate_rows group_by aggs [] = []
  aggregate_rows group_by aggs (row ∷ rows) =
      map (aggregate_group group_by aggs) (group_rows group_by (row ∷ rows))
