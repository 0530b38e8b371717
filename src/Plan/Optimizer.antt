-- ===== src/Plan/Optimizer.antt =====
-- The optimizer's rules and their application (pkg/plan/optimizer.go). `optimize` applies the rules
-- to a node and goes on with the children of what they return: it takes fuel.
pub mod Termination
use mathlib.Core.Option
use gsql.Common.{
  ℕ, zero, suc, ◌+◌, Bool, false, Option, none, some, List, [], ◌∷◌, map, if◌then◌else◌, leb,
  length,
}
use gsql.Common.Int.{pos, ltb_ℤ}
use gsql.Text.{Text, bytes}
use gsql.Map.{Map, lookup, insert}
use gsql.Float.{Floats}
use gsql.Parser.Ast.{logical}
use gsql.Catalog.{Catalog, Table, get_table, table_names}
use gsql.Plan.Logical.{
  LogicalNode, JoinInfo, logical_scan, logical_cte_scan, logical_filter, logical_project,
  logical_join, logical_aggregate, logical_window, logical_sort, logical_limit, children,
  rebuild_node,
}

-- Filter(A) over Filter(B) becomes one filter by B AND A.
unfoldable pub merge_filters : LogicalNode → LogicalNode
merge_filters (logical_filter (logical_filter child inner) outer) =
    logical_filter child (logical inner (bytes "AND") outer)
merge_filters node = node

-- A row count; `none` is +Inf, the unknown.
abbrev pub Estimate : Floats → Type 0
Estimate fl = Option fl.Float64

-- math.Max of two numbers neither of which is NaN
abbrev pub max_float : (fl : Floats) → fl.Float64 → fl.Float64 → fl.Float64
max_float fl a b = if fl.lt a b then b else a

module _ (fl : Floats) where
  -- The larger of two known counts.
  abbrev pub larger_side : Estimate fl → Estimate fl → Estimate fl
  larger_side (some l) (some r) = some (max_float fl l r)
  larger_side _ _ = none

  -- EstimateRows; 0.2 is the quotient 1 / 5.
  unfoldable pub estimate_rows : Map Table → LogicalNode → Estimate fl
  unfolding lookup
  estimate_rows tables (logical_scan name alias) = elim (lookup name tables) [
    | none ↦ none
    | some t ↦ if ltb_ℤ (pos 0) t.estimated_rows then some (fl.of_int t.estimated_rows) else none
  ]
  estimate_rows tables (logical_cte_scan name) = some (fl.of_int (pos 100))
  estimate_rows tables (logical_filter child predicate) =
      Option.map
        (λ n.
          max_float fl (fl.of_int (pos 1))
            (fl.mul n (fl.div (fl.of_int (pos 1)) (fl.of_int (pos 5)))))
        (estimate_rows tables child)
  estimate_rows tables (logical_project child columns exprs) = estimate_rows tables child
  estimate_rows tables (logical_join left right info) =
      larger_side (estimate_rows tables left) (estimate_rows tables right)
  estimate_rows tables (logical_aggregate child group_by aggregates) =
      Option.map
        (λ _.
          if leb 1 (length group_by)
          then max_float fl (fl.of_int (pos 1))
              (fl.mul (fl.of_int (pos (length group_by))) (fl.of_int (pos 10)))
          else fl.of_int (pos 1))
        (estimate_rows tables child)
  estimate_rows tables (logical_window child exprs) = estimate_rows tables child
  estimate_rows tables (logical_sort child order_by) = estimate_rows tables child
  estimate_rows tables (logical_limit child n) = some (fl.of_int n)

  -- Both sides have known costs and the right one is larger.
  unfoldable pub is_larger : Estimate fl → Estimate fl → Bool
  is_larger (some l) (some r) = fl.lt l r
  is_larger _ _ = false

  abbrev pub swap_info : JoinInfo → JoinInfo
  swap_info info = record info {
    left_column = info.right_column;
    right_column = info.left_column;
    left_prefix = info.right_prefix;
    right_prefix = info.left_prefix;
  }

  -- The last step of reorderJoins, at a join whose sides are reordered.
  unfoldable pub reorder_join : Map Table → LogicalNode → LogicalNode → JoinInfo → LogicalNode
  unfolding estimate_rows is_larger
  reorder_join tables left right info =
      if is_larger (estimate_rows tables left) (estimate_rows tables right)
      then logical_join right left (swap_info info)
      else logical_join left right info

  unfoldable pub reorder_joins : Map Table → LogicalNode → LogicalNode
  unfolding reorder_join
  reorder_joins tables (logical_filter c predicate) =
      logical_filter (reorder_joins tables c) predicate
  reorder_joins tables (logical_project c columns exprs) =
      logical_project (reorder_joins tables c) columns exprs
  reorder_joins tables (logical_join l r info) =
      reorder_join tables (reorder_joins tables l) (reorder_joins tables r) info
  reorder_joins tables (logical_aggregate c group_by aggregates) =
      logical_aggregate (reorder_joins tables c) group_by aggregates
  reorder_joins tables (logical_window c exprs) = logical_window (reorder_joins tables c) exprs
  reorder_joins tables (logical_sort c order_by) = logical_sort (reorder_joins tables c) order_by
  reorder_joins tables (logical_limit c n) = logical_limit (reorder_joins tables c) n
  reorder_joins tables node = node

abbrev pub OptimizeRule : Type 0
OptimizeRule = LogicalNode → LogicalNode

-- DefaultOptimizer
abbrev pub default_rules : List OptimizeRule
default_rules = merge_filters ∷ []

-- The tables of the catalog by the names that it lists.
unfoldable pub tables_named : Catalog → List Text → Map Table → Map Table
unfolding get_table insert
tables_named catalog [] tables = tables
tables_named catalog (name ∷ names) tables =
    tables_named catalog names
      (elim (get_table catalog name) [ none ↦ tables | some t ↦ insert name t tables ])

unfoldable pub catalog_tables : Catalog → Map Table
unfolding table_names tables_named
catalog_tables catalog = tables_named catalog (table_names catalog) []

-- CatalogOptimizer
abbrev pub catalog_rules : Floats → Catalog → List OptimizeRule
catalog_rules fl catalog = merge_filters ∷ reorder_joins fl (catalog_tables catalog) ∷ []

unfoldable pub apply_rules : List OptimizeRule → LogicalNode → LogicalNode
apply_rules [] node = node
apply_rules (rule ∷ rules) node = apply_rules rules (rule node)

-- walkAndOptimize, with `opt` the optimizer of a child.
unfoldable pub walk_and_optimize : OptimizeRule → LogicalNode → LogicalNode
unfolding children rebuild_node
walk_and_optimize opt node = elim (children node) [
  | [] ↦ node
  | c ∷ cs ↦ rebuild_node node (map opt (children node))
]

unfoldable pub optimize : ℕ → List OptimizeRule → LogicalNode → LogicalNode
unfolding apply_rules walk_and_optimize
optimize zero rules node = node
optimize (suc f) rules node = walk_and_optimize (optimize f rules) (apply_rules rules node)

unfoldable pub size : LogicalNode → ℕ
size (logical_scan name alias) = 1
size (logical_cte_scan name) = 1
size (logical_filter c predicate) = suc (size c)
size (logical_project c columns exprs) = suc (size c)
size (logical_join l r info) = suc (size l + size r)
size (logical_aggregate c group_by aggregates) = suc (size c)
size (logical_window c exprs) = suc (size c)
size (logical_sort c order_by) = suc (size c)
size (logical_limit c n) = suc (size c)
