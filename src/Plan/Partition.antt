-- ===== src/Plan/Partition.antt =====
-- The comparisons on partition columns are taken out of a predicate (extractPartitionFilters of
-- pkg/plan/plan.go).
pub mod Split
pub mod Condition
pub mod Pruning
use gsql.Common.{Bool, true, false, ◌&&◌, ◌||◌, List, [], ◌∷◌, ◌++◌, any, if◌then◌else◌}
use gsql.Text.{Text, bytes, ◌==◌}
use gsql.Parser.Ast.{Expression, nil, comparison, logical}
use gsql.Storage.Partition.{PartitionFilter}
use gsql.Plan.Eval.{is_nil}

unfoldable pub is_partition_op : Text → Bool
unfolding ◌==◌
is_partition_op op =
    op == bytes "=" || op == bytes ">" || op == bytes "<" || op == bytes ">=" || op == bytes "<="

unfoldable pub is_partition : List Text → Text → Bool
unfolding ◌==◌
is_partition partition_cols col = any (λ pc. pc == col) partition_cols

-- The conjunction of what is left of both sides.
unfoldable pub rebuild_and : Expression → Expression → Expression
rebuild_and left right =
    if is_nil left then right else if is_nil right then left else logical left (bytes "AND") right

-- The predicate that is left, `nil` for none, and the filters in the order of the traversal.
unfoldable pub rebuild_expr : List Text → Expression → Expression × List PartitionFilter
unfolding is_partition_op is_partition rebuild_and ◌==◌
rebuild_expr cols (comparison column op value right_column e) =
    if right_column == [] && is_partition_op op && is_partition cols column
    then (nil, record { column = column; operator = op; value = value } ∷ [])
    else (comparison column op value right_column e, [])
rebuild_expr cols (logical l op r) =
    let (left, left_filters) = rebuild_expr cols l in
    let (right, right_filters) = rebuild_expr cols r in
    if op == bytes "AND"
    then (rebuild_and left right, left_filters ++ right_filters)
    else (logical l op r, [])
rebuild_expr cols e = (e, [])

unfoldable pub extract_partition_filters :
    Expression → List Text → Expression × List PartitionFilter
unfolding rebuild_expr
extract_partition_filters e [] = (e, [])
extract_partition_filters e (col ∷ cols) = if is_nil e then (e, []) else rebuild_expr (col ∷ cols) e
