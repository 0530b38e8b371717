-- ===== src/Engine/Execute.antt =====
-- The execution of a query: executeSelectWithCTEs, resolveSubqueryExprs and resolveExprSubqueries
-- (pkg/engine/engine.go). The map of common table expressions is shared by all queries inside a
-- query, so that it is a state.
use mathlib.Core.List.{reverse}
use gsql.Common.{
  Bool, true, false, not, ◌||◌, Option, none, some, List, [], ◌∷◌, ◌++◌, map, if◌then◌else◌,
}
use gsql.Text.{Text, bytes, ◌==◌, to_lower}
use gsql.Map.{Map, insert}
use gsql.Float.{Floats}
use gsql.Result
use gsql.Result.{Result, Error, ok, err, within}
use gsql.Catalog.{Catalog}
use gsql.Parser.Ast.{
  Expression, Branches, Ctes, SelectQuery, LateralView, nil, comparison, logical, in_expr,
  exists_expr, binary, case_expr, no_branch, branch, no_cte, cte, no_query, select_query,
}
use gsql.Plan.Row.{Row, copy_row}
use gsql.Plan.Builtin.{Registry}
use gsql.Plan.Iter.{RowIter, collect}
use gsql.Plan.LateralView.{LateralViewExplodeNode, lateral_view_iter}
use gsql.Plan.Logical.{LogicalNode}
use gsql.Plan.Optimizer.{catalog_rules, optimize, size}
use gsql.Plan.Columns.{column_pruning}
use gsql.Plan.Physical.{PhysicalPlanContext, Store, logical_to_physical, iterate}
use gsql.Engine.Columns.{strip_table_alias}
use gsql.Engine.Build.{build_logical_plan}
use gsql.Engine.Rows.{value_table, apply_aliases, dequalify, dedup_rows}

abbrev pub CteTables : Type 0
CteTables = Map (List Row)

-- What changes the tables, and may fail.
abbrev pub Step {ℓ} : Type ℓ → Type ℓ
Step A = CteTables → Result (A × CteTables)

infixl 5 ◌>>=◌
abbrev pub ◌>>=◌ {ℓ κ} : {A : Type ℓ} {B : Type κ} → Step A → (A → Step B) → Step B
(s >>= f) tables = Result.◌>>=◌ (s tables) (λ (a, later). f a later)

abbrev pub done {ℓ} : {A : Type ℓ} → A → Step A
done a tables = ok (a, tables)

-- `fmt.Errorf("… subquery: %w", err)`
abbrev behind {ℓ} : {A : Type ℓ} → Text → Step A → Step A
behind text s tables = elim (s tables) [ ok a ↦ ok a | err e ↦ err (within text e) ]

-- The rows under a name, unless it is empty.
abbrev keep_rows : Text → List Row → Step (Unit {0})
unfolding insert to_lower
keep_rows [] rows tables = ok (tt, tables)
keep_rows (c ∷ name) rows tables = ok (tt, insert (to_lower (c ∷ name)) rows tables)

unfoldable pub clone_rows : List Row → List Row
unfolding copy_row
clone_rows rows = map copy_row rows

-- The column of each row that a range loop visits first; a row without columns has none.
unfoldable pub first_values : List Row → List Text
first_values [] = []
first_values (row ∷ rows) = elim (reverse row) [
  | [] ↦ first_values rows
  | entry ∷ behind ↦ entry.1 ∷ first_values rows
]

-- `1 = 1` or `1 = 0` of two literals, for EXISTS.
unfoldable pub exists_test : Bool → List Row → Expression
exists_test negated rows =
    let exists : Bool = elim rows [ [] ↦ negated | r ∷ rs ↦ not negated ] in
    comparison [] (bytes "=") (if exists then bytes "1" else bytes "0") [] nil

-- The node for a view. A view without a column, on which the source panics, has none.
unfoldable pub lateral_node : LateralView → Option LateralViewExplodeNode
unfolding ◌==◌ strip_table_alias
lateral_node lv =
    let is_pos = lv.func_name == bytes "POSEXPLODE" in
    let is_explode = lv.func_name == bytes "EXPLODE" in
    elim lv.args [
      | [] ↦ none
      | arg ∷ args ↦ elim lv.col_names [
        | [] ↦ none
        | name ∷ names ↦
            if is_pos || is_explode
            then some (elim names [
              | [] ↦ (record {
                col = strip_table_alias arg;
                alias = name;
                pos_alias = [];
                is_outer = lv.is_outer;
                with_pos = false;
                with_map = false;
              })
              | second ∷ rest ↦ (record {
                col = strip_table_alias arg;
                alias = second;
                pos_alias = name;
                is_outer = lv.is_outer;
                with_pos = is_pos;
                with_map = not is_pos;
              })
            ])
            else none
      ]
    ]

abbrev under_view : Option LateralViewExplodeNode → RowIter → RowIter
unfolding lateral_view_iter
under_view none it = it
under_view (some n) it = lateral_view_iter n it

unfoldable pub lateral_rows : List LateralView → RowIter → RowIter
unfolding lateral_node lateral_view_iter
lateral_rows [] it = it
lateral_rows (lv ∷ views) it = lateral_rows views (under_view (lateral_node lv) it)

abbrev values_of : Option (List (List Text)) → Text → List Text → Step (Unit {0})
unfolding value_table insert to_lower
values_of none alias columns = done tt
values_of (some values) alias columns = keep_rows alias (value_table columns values)

-- Names of joined tables that are no longer needed.
unfoldable pub final_rows : Bool → Map Text → List Row → List Row
unfolding dequalify apply_aliases
final_rows has_joins column_aliases rows =
    let named = apply_aliases column_aliases rows in
    if has_joins then map dequalify named else named

abbrev has_any {ℓ} : {A : Type ℓ} → List A → Bool
has_any [] = false
has_any (x ∷ xs) = true

-- `cteTables[strings.ToLower(cte.Name)] = cloneRows(rows)`
abbrev keep_cte : Text → List Row → Step (Unit {0})
unfolding insert to_lower clone_rows
keep_cte name rows tables = ok (tt, insert (to_lower name) (clone_rows rows) tables)

-- The subquery behind FROM, if there is one, with its execution.
abbrev pub from_step : Text → SelectQuery → Step (List Row) → Step (Unit {0})
unfolding clone_rows insert to_lower
from_step alias no_query subquery = done tt
from_step alias query subquery = subquery >>= λ rows. keep_rows alias (clone_rows rows)

-- UNION, if there is one.
abbrev united : Bool → List Row → SelectQuery → Step (List Row) → Step (List Row)
unfolding dedup_rows
united union_all rows no_query right = done rows
united union_all rows query right = right >>= λ right_rows.
    done (if union_all then rows ++ right_rows else dedup_rows (rows ++ right_rows))

-- The values of a subquery of IN, if there is one.
abbrev resolved_in : Text → Bool → List Text → SelectQuery → Step (List Row) → Step Expression
unfolding first_values
resolved_in column negated values no_query subquery = done (in_expr column negated values no_query)
resolved_in column negated values query subquery =
    behind (bytes "IN subquery: ") subquery >>= λ rows.
    done (in_expr column negated (first_values rows) no_query)

module _ (fl : Floats) (builtins : Registry) (catalog : Catalog) (store : Store) where
  -- OptimizeWithPruning of the optimizer for the catalog
  unfoldable pub optimize_with_pruning : LogicalNode → LogicalNode
  unfolding optimize column_pruning size
  optimize_with_pruning node =
      column_pruning (optimize (size node) (catalog_rules fl catalog) node) (some catalog)

  -- The rows of a query whose conditions have no subquery, before UNION and aliases.
  unfoldable pub run_query : SelectQuery → List LateralView → Step (List Row)
  unfolding build_logical_plan optimize_with_pruning logical_to_physical iterate lateral_rows
      collect
  run_query query views tables =
      Result.◌>>=◌ (build_logical_plan builtins catalog tables query) (λ plan.
        let ctx : PhysicalPlanContext = record { catalog = catalog; cte_data = tables } in
        Result.◌>>=◌ (logical_to_physical fl ctx (optimize_with_pruning plan)) (λ root.
          Result.◌>>=◌ (iterate fl builtins store root)
            (λ it. Result.◌>>=◌ (collect (lateral_rows views it)) (λ rows. ok (rows, tables)))))

  unfoldable mutual
    unfolding clone_rows first_values exists_test run_query dedup_rows final_rows value_table insert
        to_lower

    -- The nil query, on which the source panics, has no rows.
    pub execute_select_with_ctes : SelectQuery → Step (List Row)
    execute_select_with_ctes no_query = done []
    execute_select_with_ctes
          (select_query ctes columns column_exprs distinct table table_alias from_subquery
            from_alias from_values from_values_cols joins where_expr group_by having order_by limit
            has_limit aggregates window_exprs column_aliases union_query union_all lateral_views) =
        execute_ctes ctes >>= λ _.
        from_step from_alias from_subquery (execute_select_with_ctes from_subquery) >>= λ _.
        values_of from_values from_alias from_values_cols >>= λ _.
        resolve_expr_subqueries where_expr >>= λ condition.
        resolve_expr_subqueries having >>= λ group_condition.
        run_query
          (select_query ctes columns column_exprs distinct table table_alias from_subquery
            from_alias from_values from_values_cols joins condition group_by group_condition
            order_by limit has_limit aggregates window_exprs column_aliases union_query union_all
            lateral_views)
          lateral_views
        >>= λ rows.
            united union_all rows union_query (execute_select_with_ctes union_query) >>= λ all.
            done (final_rows (has_any joins) column_aliases all)

    -- The common table expressions, in order.
    pub execute_ctes : Ctes → Step (Unit {0})
    execute_ctes no_cte = done tt
    execute_ctes (cte name query ctes) =
        execute_select_with_ctes query >>= λ rows. keep_cte name rows >>= λ _. execute_ctes ctes

    pub resolve_expr_subqueries : Expression → Step Expression
    resolve_expr_subqueries (in_expr column negated values query) =
        resolved_in column negated values query (execute_select_with_ctes query)
    resolve_expr_subqueries (exists_expr negated query) =
        behind (bytes "EXISTS subquery: ") (execute_select_with_ctes query) >>= λ rows.
        done (exists_test negated rows)
    resolve_expr_subqueries (logical l op r) = resolve_expr_subqueries l >>= λ left.
        resolve_expr_subqueries r >>= λ right. done (logical left op right)
    resolve_expr_subqueries (binary l op r) = resolve_expr_subqueries l >>= λ left.
        resolve_expr_subqueries r >>= λ right. done (binary left op right)
    resolve_expr_subqueries (case_expr bs e) = resolve_branches bs >>= λ branches.
        resolve_expr_subqueries e >>= λ otherwise. done (case_expr branches otherwise)
    resolve_expr_subqueries e = done e

    pub resolve_branches : Branches → Step Branches
    resolve_branches no_branch = done no_branch
    resolve_branches (branch c r bs) = resolve_expr_subqueries c >>= λ condition.
        resolve_expr_subqueries r >>= λ result.
        resolve_branches bs >>= λ branches. done (branch condition result branches)
