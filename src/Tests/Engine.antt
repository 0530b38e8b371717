-- ===== src/Tests/Engine.antt =====
-- Tests and instances for pkg/engine/engine.go.
use gsql.Common.{All, true, false, ◌≡◌, refl, ◌↔◌, none, some, List, [], ◌∷◌}
use gsql.Common.Int.{pos}
use gsql.Text.{Text, bytes, ◌==◌}
use gsql.Result.{ok, err, not_grouped, column_count}
use gsql.Parser.Ast.{
  SelectQuery, JoinClause, AggregateExpr, SortOrder, no_cte, no_expr, no_query, nil, select_query,
}
use gsql.Plan.Logical.{LogicalNode, logical_scan, logical_join, logical_project, logical_sort}
use gsql.Engine.KeyType.{normalize_key_for_type}
use gsql.Engine.Columns.{strip_table_alias, normalize_func_column_key}
use gsql.Engine.Plan.{has_text, is_only_star, validate_group_by_columns, window_key_set}
use gsql.Engine.Project.{projection_items, projection_key_map}
use gsql.Engine.Project.Keys.{projection_key_map-emitted}
use gsql.Engine.Rows.{apply_aliases, dequalify, dedup_rows, value_table}
use gsql.Engine.Rows.Dedup.{AreDistinct, dedup_rows-AreDistinct}
use gsql.Engine.Rows.Entries.{IsMap, Agree}
use gsql.Common.Some.{Some}
use gsql.Engine.Insert.{execute_insert_values, rows_to_overwrite}
use gsql.Engine.Statement.{execute_select}
use gsql.Catalog.{ColumnDef, Table}
use gsql.Plan.Row.{Row}
use gsql.Plan.Optimizer.{reorder_joins, merge_filters}
use gsql.Tests.Data.{whole_numbers}
use gsql.Engine.Build.{build_logical_plan}
use gsql.Engine.Build.Sources.{scanned, written, build_logical_plan-scanned}
use gsql.Engine.Build.Grouping.{FirstRefused, validate_group_by_columns_iff}

strip_column : strip_table_alias (bytes "u.name") ≡ bytes "name"
unfolding strip_table_alias
strip_column = refl

strip_decimal : strip_table_alias (bytes "1.5") ≡ bytes "1.5"
unfolding strip_table_alias
strip_decimal = refl

strip_call : strip_table_alias (bytes "SUM(o.amount)") ≡ bytes "SUM(amount)"
unfolding strip_table_alias
strip_call = refl

distinct_key :
    normalize_func_column_key (bytes "COUNT(distinct u.id, u.x)") ≡ bytes "COUNT(DISTINCT id, u.x)"
unfolding normalize_func_column_key
distinct_key = refl

quoted_comma : normalize_func_column_key (bytes "IF('a,b',o.x)") ≡ bytes "IF('a,b',o.x)"
unfolding normalize_func_column_key
quoted_comma = refl

int_key : normalize_key_for_type (bytes "BIGINT(20)") (bytes " -007") ≡ bytes "-7"
unfolding normalize_key_for_type
int_key = refl

decimal_key : normalize_key_for_type (bytes "decimal") (bytes "10.50") ≡ bytes "10.5"
unfolding normalize_key_for_type
decimal_key = refl

-- `SELECT name AS name FROM t`: the column is renamed to itself and deleted.
alias_lost :
    apply_aliases ((bytes "name", bytes "name") ∷ []) (((bytes "name", bytes "Ann") ∷ []) ∷ [])
    ≡ [] ∷ []
unfolding apply_aliases
alias_lost = refl

alias_applied :
    apply_aliases ((bytes "n", bytes "name") ∷ []) (((bytes "name", bytes "Ann") ∷ []) ∷ [])
    ≡ ((bytes "n", bytes "Ann") ∷ []) ∷ []
unfolding apply_aliases
alias_applied = refl

dequalified :
    dequalify ((bytes "l.x", bytes "1") ∷ (bytes "l.y", bytes "2") ∷ (bytes "y", bytes "3") ∷ [])
    ≡ (bytes "l.y", bytes "2") ∷ (bytes "y", bytes "3") ∷ (bytes "x", bytes "1") ∷ []
unfolding dequalify
dequalified = refl

-- Both columns are renamed to x.
ambiguous_lost :
    dequalify ((bytes "b.x", bytes "1") ∷ (bytes "c.x", bytes "2") ∷ [])
    ≡ (bytes "x", bytes "1") ∷ []
unfolding dequalify
ambiguous_lost = refl

deduplicated :
    dedup_rows (
      ((bytes "x", bytes "1") ∷ (bytes "y", bytes "2") ∷ [])
      ∷ ((bytes "y", bytes "2") ∷ (bytes "x", bytes "1") ∷ [])
      ∷ [])
    ≡ ((bytes "x", bytes "1") ∷ (bytes "y", bytes "2") ∷ []) ∷ []
unfolding dedup_rows
deduplicated = refl

value_names :
    value_table (bytes "id" ∷ []) ((bytes "1" ∷ bytes "a" ∷ []) ∷ [])
    ≡ ((bytes "id", bytes "1") ∷ (bytes "COL_1", bytes "a") ∷ []) ∷ []
unfolding value_table ◌==◌
value_names = refl

-- `SELECT dept, COUNT(DISTINCT city) … GROUP BY dept`
abbrev distinct_count : AggregateExpr
distinct_count = record {
  func_name = bytes "COUNT";
  column = bytes "city";
  args = bytes "city" ∷ [];
  distinct = true;
}

distinct_refused :
    validate_group_by_columns
      (bytes "dept" ∷ bytes "COUNT(DISTINCT city)" ∷ [])
      (bytes "dept" ∷ [])
      (distinct_count ∷ [])
      []
    ≡ some (not_grouped (bytes "COUNT(DISTINCT city)"))
unfolding validate_group_by_columns
distinct_refused = refl

abbrev users_orders : List JoinClause
users_orders =
    record {
      right_table = bytes "orders";
      right_alias = bytes "o";
      left_column = bytes "u.id";
      right_column = bytes "o.user";
      join_type = bytes "INNER";
    }
    ∷ []

abbrev by : Text → List SortOrder
by column = record { column = column; desc = false } ∷ []

-- `SELECT u.name FROM users u INNER JOIN orders o ON u.id = o.user ORDER BY u.name`
abbrev orders_query : SelectQuery
orders_query =
    select_query no_cte (bytes "u.name" ∷ []) no_expr false (bytes "users") (bytes "u") no_query []
      none [] users_orders nil [] nil (by (bytes "u.name")) (pos 0) false [] [] [] no_query false []

abbrev orders_plan : LogicalNode
orders_plan =
    logical_sort
      (logical_project
        (logical_join (logical_scan (bytes "users") (bytes "u"))
          (logical_scan (bytes "orders") (bytes "o"))
          record {
            left_column = bytes "id";
            right_column = bytes "user";
            join_type = bytes "INNER";
            left_prefix = bytes "u";
            right_prefix = bytes "o";
            normalize_key = none;
          })
        (bytes "name" ∷ []) (nil ∷ []))
      (by (bytes "name"))

build_logical_plan-scanned_example : scanned orders_plan ≡ written [] orders_query
unfolding build_logical_plan
build_logical_plan-scanned_example =
    build_logical_plan-scanned [] [] [] orders_query orders_plan refl

abbrev name_dept : List Text
name_dept = bytes "dept" ∷ bytes "u.name" ∷ []

validate_group_by_columns_iff_example :
    (validate_group_by_columns name_dept (bytes "u.dept" ∷ []) [] []
      ≡ some (not_grouped (bytes "name")))
    ↔ ((col : Text) × FirstRefused (bytes "u.dept" ∷ []) [] [] name_dept col
        × (not_grouped (bytes "name") ≡ not_grouped (strip_table_alias col)))
unfolding is_only_star
validate_group_by_columns_iff_example =
    validate_group_by_columns_iff name_dept (bytes "u.dept") [] [] [] (not_grouped (bytes "name"))
      refl

name_refused :
    validate_group_by_columns name_dept (bytes "u.dept" ∷ []) [] []
    ≡ some (not_grouped (bytes "name"))
unfolding validate_group_by_columns
name_refused = refl

projection_key_map-emitted_example :
    has_text
      ((projection_items [] [] users_orders [] (window_key_set []) (bytes "u.name" ∷ []) no_expr).0)
      (bytes "name")
    ≡ true
unfolding projection_key_map
projection_key_map-emitted_example =
    projection_key_map-emitted [] [] users_orders [] (bytes "u.name" ∷ []) no_expr []
      ((bytes "n", bytes "u.name") ∷ []) (bytes "n") (bytes "name") refl

abbrev twice_one : List Row
twice_one = ((bytes "x", bytes "1") ∷ []) ∷ ((bytes "x", bytes "1") ∷ []) ∷ []

one_x : IsMap ((bytes "x", bytes "1") ∷ [])
unfolding has_text
one_x = (((refl, refl, refl), tt), (refl, tt))

dedup_rows-AreDistinct_example :
    AreDistinct (dedup_rows twice_one)
    × All (λ row. Some (Agree row) (dedup_rows twice_one)) twice_one
    × All IsMap (dedup_rows twice_one)
dedup_rows-AreDistinct_example =
    dedup_rows-AreDistinct twice_one IsMap (one_x, (one_x, tt)) (one_x, (one_x, tt))

abbrev two_columns : List ColumnDef
two_columns =
    record { name = bytes "id"; type = bytes "INT"; default = []; has_default = false }
    ∷ record {
      name = bytes "city";
      type = bytes "TEXT";
      default = bytes "Rome";
      has_default = true;
    }
    ∷ []

abbrev people : Table
people = record {
  name = bytes "people";
  columns = two_columns;
  with_options = [];
  external = false;
  partition_by = [];
  estimated_rows = pos 0;
}

defaults_inserted :
    execute_insert_values ((bytes "people", people) ∷ []) (bytes "People") ((bytes "7" ∷ []) ∷ [])
    ≡ ok (people, ((bytes "id", bytes "7") ∷ (bytes "city", bytes "Rome") ∷ []) ∷ [])
unfolding execute_insert_values ◌==◌
defaults_inserted = refl

too_many_refused :
    execute_insert_values
      ((bytes "people", people) ∷ [])
      (bytes "people")
      ((bytes "7" ∷ bytes "a" ∷ bytes "b" ∷ []) ∷ [])
    ≡ err (column_count 3 (bytes "people") 2)
unfolding execute_insert_values ◌==◌
too_many_refused = refl

overwritten :
    rows_to_overwrite people (bytes "p.a" ∷ []) [] (((bytes "a", bytes "5") ∷ []) ∷ [])
    ≡ ((bytes "id", bytes "5") ∷ (bytes "city", bytes "Rome") ∷ []) ∷ []
unfolding rows_to_overwrite ◌==◌
overwritten = refl

-- A query over VALUES, run to its rows.
abbrev values_query : SelectQuery
values_query =
    select_query no_cte (bytes "v.b" ∷ []) no_expr false [] [] no_query (bytes "v")
      (some ((bytes "1" ∷ bytes "x" ∷ []) ∷ (bytes "2" ∷ bytes "y" ∷ []) ∷ []))
      (bytes "a" ∷ bytes "b" ∷ []) [] nil [] nil [] (pos 0) false [] [] [] no_query false []

values_selected :
    execute_select whole_numbers [] [] (λ t. ok []) values_query
    ≡ ok (((bytes "b", bytes "x") ∷ []) ∷ ((bytes "b", bytes "y") ∷ []) ∷ [])
unfolding execute_select ◌==◌ reorder_joins merge_filters
values_selected = refl
