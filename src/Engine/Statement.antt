-- ===== src/Engine/Statement.antt =====
-- The execution of a statement (Execute, executeInsertOverwrite and executeExplain of
-- pkg/engine/engine.go): what it does, as a value.
use gsql.Common.{Option, none, some, List, [], Bool}
use gsql.Text.{Text}
use gsql.Map.{Map}
use gsql.Float.{Floats}
use gsql.Result
use gsql.Result.{Result, Error, ok, err, no_target}
use gsql.Catalog.{Catalog, Table, get_table}
use gsql.Catalog.Url.{Url}
use gsql.Parser.Ast.{Statement, SelectQuery, no_query, select_query}
use gsql.Plan.Row.{Row}
use gsql.Plan.Builtin.{Registry}
use gsql.Plan.Logical.{LogicalNode}
use gsql.Plan.Physical.{PhysicalPlanContext, PlanNode, Store, logical_to_physical}
use gsql.Engine.Build.{build_logical_plan}
use gsql.Engine.Execute.{
  Step, ◌>>=◌, from_step, optimize_with_pruning, execute_select_with_ctes, execute_ctes,
  resolve_expr_subqueries,
}
use gsql.Engine.Insert.{execute_create_table, execute_insert_values, rows_to_overwrite}

-- The new catalog; rows for the storage to write, appended or not; rows to print; plans to print.
pub data Effect : Type 0 where
  created : Catalog → Effect
  to_write : Table → List Row → Bool → Effect
  printed : List Row → Effect
  planned : LogicalNode → LogicalNode → PlanNode → Effect

-- What a query selects: its columns and their aliases.
abbrev selected_columns : SelectQuery → List Text × Map Text
selected_columns no_query = ([], [])
selected_columns (select_query _ columns _ _ _ _ _ _ _ _ _ _ _ _ _ _ _ _ _ column_aliases _ _ _) =
    (columns, column_aliases)

module _ (fl : Floats) (builtins : Registry) (catalog : Catalog) (store : Store) where
  unfoldable pub execute_select : SelectQuery → Result (List Row)
  unfolding execute_select_with_ctes
  execute_select query =
      Result.◌>>=◌ (execute_select_with_ctes fl builtins catalog store query [])
        (λ (rows, _). ok rows)

  unfoldable pub execute_insert_overwrite : Text → SelectQuery → Result (Table × List Row)
  unfolding get_table execute_select rows_to_overwrite
  execute_insert_overwrite table_name query = elim (get_table catalog table_name) [
    | none ↦ err (no_target table_name)
    | some target ↦
        let (columns, aliases) = selected_columns query in
        Result.◌>>=◌ (execute_select query)
          (λ rows. ok (target, rows_to_overwrite target columns aliases rows))
  ]

  -- The plans of a query over the tables.
  abbrev plans : SelectQuery → Step Effect
  unfolding build_logical_plan optimize_with_pruning logical_to_physical
  plans query tables =
      let ctx : PhysicalPlanContext = record { catalog = catalog; cte_data = tables } in
      Result.◌>>=◌ (build_logical_plan builtins catalog tables query) (λ plan.
        let optimized = optimize_with_pruning fl builtins catalog store plan in
        Result.◌>>=◌ (logical_to_physical fl ctx optimized)
          (λ root. ok (planned plan optimized root, tables)))

  -- VALUES behind FROM are not read.
  unfoldable pub execute_explain : SelectQuery → Step Effect
  unfolding execute_ctes execute_select_with_ctes resolve_expr_subqueries plans
  execute_explain no_query = plans no_query
  execute_explain
        (select_query ctes columns column_exprs distinct table table_alias from_subquery from_alias
          from_values from_values_cols joins where_expr group_by having order_by limit has_limit
          aggregates window_exprs column_aliases union_query union_all lateral_views) =
      execute_ctes fl builtins catalog store ctes >>= λ _.
      from_step from_alias from_subquery
        (execute_select_with_ctes fl builtins catalog store from_subquery)
      >>= λ _. resolve_expr_subqueries fl builtins catalog store where_expr >>= λ condition.
          resolve_expr_subqueries fl builtins catalog store having >>= λ group_condition. plans (
            select_query ctes columns column_exprs distinct table table_alias from_subquery
              from_alias from_values from_values_cols joins condition group_by group_condition
              order_by limit has_limit aggregates window_exprs column_aliases union_query union_all
              lateral_views)

  unfoldable pub execute : (Text → Option Url) → Statement → Result Effect
  unfolding execute_create_table execute_insert_values execute_insert_overwrite execute_select
      execute_explain
  execute parse_url (Statement.create_table stmt) =
      Result.◌>>=◌ (execute_create_table parse_url catalog stmt) (λ c. ok (created c))
  execute parse_url (Statement.insert_overwrite table query (some values) appending) =
      Result.◌>>=◌ (execute_insert_values catalog table values)
        (λ (target, rows). ok (to_write target rows appending))
  execute parse_url (Statement.insert_overwrite table query none appending) =
      Result.◌>>=◌ (execute_insert_overwrite table query)
        (λ (target, rows). ok (to_write target rows appending))
  execute parse_url (Statement.select query) =
      Result.◌>>=◌ (execute_select query) (λ rows. ok (printed rows))
  execute parse_url (Statement.explain query) =
      Result.◌>>=◌ (execute_explain query []) (λ (effect, _). ok effect)
