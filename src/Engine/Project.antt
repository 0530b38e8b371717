-- ===== src/Engine/Project.antt =====
pub mod Keys
-- The end of a logical plan: addWindowFunctions, addProjection and addSortAndLimit with what they
-- call (pkg/engine/engine.go).
use gsql.Common.{
  Bool, true, false, not, ◌&&◌, ◌||◌, Option, none, some, List, [], ◌∷◌, ◌++◌, map, filter,
  if◌then◌else◌,
}
use gsql.Common.Int.{ℤ}
use gsql.Text.{Text, bytes, ◌==◌}
use gsql.Map.{Map, lookup, insert}
use gsql.Catalog.{Catalog, Table, ColumnDef, get_table}
use gsql.Parser.Ast.{
  Expression, Expressions, AggregateExpr, JoinClause, SortOrder, WindowExpr, nil, no_expr, expr,
}
use gsql.Plan.Builtin.{Registry}
use gsql.Plan.Logical.{
  LogicalNode, logical_project, logical_aggregate, logical_window, logical_sort, logical_limit,
}
use gsql.Engine.Columns.{
  strip_table_alias, project_column_key, window_result_key, make_func_call_expr,
}
use gsql.Engine.Plan.{has_text, window_key_set}

abbrev sorted_by : SortOrder → SortOrder
unfolding strip_table_alias
sorted_by o = record { column = strip_table_alias o.column; desc = o.desc }

-- The window of a query without the table aliases of its columns.
unfoldable pub window_def : WindowExpr → WindowExpr
unfolding strip_table_alias window_result_key
window_def w = record {
  func_name = w.func_name;
  args = map strip_table_alias w.args;
  partition_by = map strip_table_alias w.partition_by;
  order_by = map sorted_by w.order_by;
  frame = w.frame;
  window_ref = [];
  result_key = window_result_key w;
}

abbrev is_no_window : WindowExpr → Bool
unfolding ◌==◌
is_no_window w = w.func_name == [] && elim w.args [ [] ↦ true | a ∷ args ↦ false ]

abbrev pub windowed : LogicalNode → List WindowExpr → LogicalNode
windowed root [] = root
windowed root (w ∷ ws) = logical_window root (w ∷ ws)

unfoldable pub add_window_functions : LogicalNode → List WindowExpr → LogicalNode
unfolding ◌==◌ window_def
add_window_functions root window_exprs =
    windowed root (map window_def (filter (λ (w : WindowExpr). not (is_no_window w)) window_exprs))

abbrev qualified : Text → Text → Text
qualified prefix name = prefix ++ b'.' ∷ name

abbrev under : Text → Text → Text
under [] name = name
under (c ∷ prefix) name = qualified (c ∷ prefix) name

abbrev or_text : Text → Text → Text
or_text [] t = t
or_text (c ∷ s) t = c ∷ s

abbrev pub column_names : Option Table → (Text → Text) → List Text
column_names none f = []
column_names (some t) f = map (λ (c : ColumnDef). f c.name) t.columns

abbrev value_names : Option (List (List Text)) → List Text → List Text
value_names none columns = []
value_names (some rows) columns = columns

-- The columns of a table with its alias, of the tables joined to it and of VALUES.
unfoldable pub joined_columns : Catalog → List JoinClause → List Text
unfolding get_table
joined_columns catalog [] = []
joined_columns catalog (j ∷ joins) =
    column_names (get_table catalog j.right_table) (qualified (or_text j.right_alias j.right_table))
    ++ joined_columns catalog joins

abbrev or_star : List Text → List Text
or_star [] = bytes "*" ∷ []
or_star (c ∷ cs) = c ∷ cs

abbrev table_named : Catalog → Text → Option Table
unfolding get_table
table_named catalog [] = none
table_named catalog (c ∷ s) = get_table catalog (c ∷ s)

unfoldable pub expand_star_columns :
    Catalog → Text → Text → Option (List (List Text)) → List Text → List JoinClause → List Text
unfolding joined_columns get_table
expand_star_columns catalog table table_alias from_values from_values_cols joins = or_star (
    column_names (table_named catalog table) (under table_alias)
    ++ (value_names from_values from_values_cols ++ joined_columns catalog joins))

-- The expression of an item, and those of the items behind it.
abbrev expr_of : Expressions → Expression
expr_of no_expr = nil
expr_of (expr e es) = e

abbrev other_exprs : Expressions → Expressions
other_exprs no_expr = no_expr
other_exprs (expr e es) = es

abbrev or_expr : Expression → Expression → Expression
or_expr nil e = e
or_expr found e = found

abbrev project_key : List Text → List JoinClause → Text → Text
unfolding has_text project_column_key
project_key window_keys joins col =
    if has_text window_keys col then col else project_column_key joins col

abbrev is_star : Text → Bool
unfolding strip_table_alias ◌==◌
is_star col = strip_table_alias col == bytes "*"

module _ (builtins : Registry) (aggregates : List AggregateExpr) (joins : List JoinClause) where
  module _ (star window_keys : List Text) where
    -- The names that the projection emits, and the expressions for them; a star is all columns.
    unfoldable pub projection_items : List Text → Expressions → List Text × List Expression
    unfolding has_text strip_table_alias ◌==◌ project_column_key make_func_call_expr
    projection_items [] es = ([], [])
    projection_items (col ∷ columns) es =
        let rest = projection_items columns (other_exprs es) in
        let e = or_expr (expr_of es) (make_func_call_expr builtins aggregates col) in
        if is_star col
        then (map (project_column_key joins) star ++ rest.0, map (λ c. nil) star ++ rest.1)
        else (project_key window_keys joins col ∷ rest.0, e ∷ rest.1)

abbrev pub distinct_over : Bool → LogicalNode → List Text → LogicalNode
distinct_over true root columns = logical_aggregate root columns []
distinct_over false root columns = root

unfoldable pub add_projection : Bool → LogicalNode → List Text × List Expression → LogicalNode
add_projection distinct root ([], exprs) = root
add_projection distinct root (c ∷ columns, exprs) =
    logical_project (distinct_over distinct root (c ∷ columns)) (c ∷ columns) exprs

-- The keys of the items, and of the aliases for them.
unfoldable pub item_keys : List Text → List JoinClause → List Text → Map Text → Map Text
unfolding has_text insert strip_table_alias ◌==◌ project_column_key
item_keys window_keys joins [] keys = keys
item_keys window_keys joins (col ∷ columns) keys =
    let added = if is_star col then keys else insert col (project_key window_keys joins col) keys in
    item_keys window_keys joins columns added

abbrev pub set_alias : Text → Option Text → Map Text → Map Text
unfolding insert
set_alias alias none keys = keys
set_alias alias (some key) keys = insert alias key keys

unfoldable pub alias_keys : Map Text → Map Text → Map Text
unfolding set_alias lookup
alias_keys [] keys = keys
alias_keys ((alias, orig) ∷ rest) keys =
    let behind = alias_keys rest keys in set_alias alias (lookup orig behind) behind

unfoldable pub projection_key_map :
    List Text → List JoinClause → List WindowExpr → Map Text → Map Text
unfolding item_keys alias_keys window_key_set
projection_key_map columns joins window_exprs column_aliases =
    alias_keys column_aliases (item_keys (window_key_set window_exprs) joins columns [])

abbrev or_else_text : Option Text → Text → Text
or_else_text none s = s
or_else_text (some t) s = t

unfoldable pub order_column : Map Text → Map Text → Text → Text
unfolding lookup strip_table_alias
order_column keys column_aliases column =
    let stripped = strip_table_alias column in
    let s = or_else_text (lookup stripped column_aliases) stripped in
    elim (lookup s keys) [
      | none ↦ or_else_text (lookup (strip_table_alias s) keys) s
      | some key ↦ key
    ]

-- The order of a query by the keys that its projection emits.
unfoldable pub output_order : Map Text → Map Text → SortOrder → SortOrder
unfolding order_column
output_order keys column_aliases o = record {
  column = order_column keys column_aliases o.column;
  desc = o.desc;
}

abbrev pub limited : Bool → LogicalNode → ℤ → LogicalNode
limited true root n = logical_limit root n
limited false root n = root

abbrev pub sorted : LogicalNode → List SortOrder → LogicalNode
sorted root [] = root
sorted root (o ∷ order_by) = logical_sort root (o ∷ order_by)

unfoldable pub add_sort_and_limit :
    LogicalNode → Map Text → Map Text → List SortOrder → ℤ → Bool → LogicalNode
unfolding output_order
add_sort_and_limit root keys column_aliases order_by limit has_limit =
    limited has_limit (sorted root (map (output_order keys column_aliases) order_by)) limit
