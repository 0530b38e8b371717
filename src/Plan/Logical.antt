-- ===== src/Plan/Logical.antt =====
-- The logical plan (pkg/plan/logical.go) and the rebuilding of a node over new children
-- (rebuildNode of pkg/plan/optimizer.go).
use gsql.Common.{Bool, Option, List, [], ◌∷◌}
use gsql.Common.Int.{ℤ}
use gsql.Text.{Text}
use gsql.Parser.Ast.{Expression, WindowExpr, SortOrder}

pub record AggregateDef : Type 0 where
  pub func_name : Text
  pub column : Text
  pub args : List Text
  pub distinct : Bool

-- The fields of a join beside its two sides.
pub record JoinInfo : Type 0 where
  pub left_column : Text
  pub right_column : Text
  pub join_type : Text
  pub left_prefix : Text
  pub right_prefix : Text
  pub normalize_key : Option (Text → Text)

pub data LogicalNode : Type 0 where
  logical_scan : Text → Text → LogicalNode
  logical_cte_scan : Text → LogicalNode
  logical_filter : LogicalNode → Expression → LogicalNode
  logical_project : LogicalNode → List Text → List Expression → LogicalNode
  logical_join : LogicalNode → LogicalNode → JoinInfo → LogicalNode
  logical_aggregate : LogicalNode → List Text → List AggregateDef → LogicalNode
  logical_window : LogicalNode → List WindowExpr → LogicalNode
  logical_sort : LogicalNode → List SortOrder → LogicalNode
  logical_limit : LogicalNode → ℤ → LogicalNode

unfoldable pub children : LogicalNode → List LogicalNode
children (logical_scan name alias) = []
children (logical_cte_scan name) = []
children (logical_filter child predicate) = child ∷ []
children (logical_project child columns exprs) = child ∷ []
children (logical_join left right info) = left ∷ right ∷ []
children (logical_aggregate child group_by aggregates) = child ∷ []
children (logical_window child exprs) = child ∷ []
children (logical_sort child order_by) = child ∷ []
children (logical_limit child n) = child ∷ []

-- A node with another number of children than it has stays as it is.
unfoldable pub rebuild_node : LogicalNode → List LogicalNode → LogicalNode
rebuild_node (logical_filter _ predicate) (c ∷ []) = logical_filter c predicate
rebuild_node (logical_project _ columns exprs) (c ∷ []) = logical_project c columns exprs
rebuild_node (logical_join _ _ info) (l ∷ r ∷ []) = logical_join l r info
rebuild_node (logical_aggregate _ group_by aggregates) (c ∷ []) =
    logical_aggregate c group_by aggregates
rebuild_node (logical_window _ exprs) (c ∷ []) = logical_window c exprs
rebuild_node (logical_sort _ order_by) (c ∷ []) = logical_sort c order_by
rebuild_node (logical_limit _ n) (c ∷ []) = logical_limit c n
rebuild_node node _ = node
