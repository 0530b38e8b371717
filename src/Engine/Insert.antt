-- ===== src/Engine/Insert.antt =====
-- INSERT and CREATE TABLE (executeInsertValues, executeInsertOverwrite and executeCreateTable of
-- pkg/engine/engine.go), up to the rows that the storage is given to write.
use mathlib.Core.Option
use gsql.Common.{Option, none, some, List, [], ◌∷◌, ◌++◌, map, length, drop, ltb, if◌then◌else◌}
use gsql.Common.Int.{pos}
use gsql.Text.{Text}
use gsql.Map.{Map, lookup, insert}
use gsql.Result.{Result, Error, ok, err, no_target, no_values, column_count, no_default}
use gsql.Catalog.{Catalog, Table, ColumnDef, get_table}
use gsql.Catalog.Url.{Url}
use gsql.Catalog.Create.{create_table}
use gsql.Parser.Ast
use gsql.Plan.Row.{Row}
use gsql.Engine.Columns.{strip_table_alias}
use gsql.Engine.Plan.{is_only_star}
use gsql.Engine.Rows.{exact_to_alias}

abbrev column_of : Ast.ColumnDef → ColumnDef
column_of c = record {
  name = c.name;
  type = c.type;
  default = c.default;
  has_default = c.has_default;
}

unfoldable pub table_of : Ast.CreateTableStmt → Table
table_of stmt = record {
  name = stmt.name;
  columns = map column_of stmt.columns;
  with_options = stmt.with_options;
  external = stmt.external;
  partition_by = stmt.partition_by;
  estimated_rows = pos 0;
}

unfoldable pub execute_create_table :
    (Text → Option Url) → Catalog → Ast.CreateTableStmt → Result Catalog
unfolding table_of create_table
execute_create_table parse_url catalog stmt = create_table parse_url catalog (table_of stmt)

-- The first column that has no default.
unfoldable pub without_default : List ColumnDef → Option Text
without_default [] = none
without_default (c ∷ columns) = if c.has_default then without_default columns else some c.name

unfoldable pub check_values : Text → Table → List Text → Option Error
unfolding without_default
check_values table_name target values =
    let given = length values in
    let wanted = length target.columns in
    if ltb wanted given
    then some (column_count given table_name wanted)
    else Option.map (no_default given table_name wanted)
        (without_default (drop given target.columns))

unfoldable pub check_rows : Text → Table → List (List Text) → Option Error
unfolding check_values
check_rows table_name target [] = none
check_rows table_name target (values ∷ rows) = elim (check_values table_name target values) [
  | none ↦ check_rows table_name target rows
  | some e ↦ some e
]

-- A value for each column, and the default of the columns behind them.
unfoldable pub filled_row : List ColumnDef → List Text → Row → Row
unfolding insert
filled_row [] values row = row
filled_row (c ∷ columns) [] row = filled_row columns [] (insert c.name c.default row)
filled_row (c ∷ columns) (v ∷ values) row = filled_row columns values (insert c.name v row)

abbrev checked : Option Error → Table × List Row → Result (Table × List Row)
checked none written = ok written
checked (some e) written = err e

unfoldable pub rows_to_insert : Text → Table → List (List Text) → Result (Table × List Row)
unfolding check_rows filled_row
rows_to_insert table_name target [] = err no_values
rows_to_insert table_name target (r ∷ rows) =
    checked (check_rows table_name target (r ∷ rows))
      (target, map (λ values. filled_row target.columns values []) (r ∷ rows))

unfoldable pub execute_insert_values : Catalog → Text → List (List Text) → Result (Table × List Row)
unfolding get_table rows_to_insert
execute_insert_values catalog table_name values = elim (get_table catalog table_name) [
  | none ↦ err (no_target table_name)
  | some target ↦ rows_to_insert table_name target values
]

unfoldable pub col_by_name : List ColumnDef → Map ColumnDef → Map ColumnDef
unfolding insert
col_by_name [] defs = defs
col_by_name (c ∷ columns) defs = col_by_name columns (insert c.name c defs)

abbrev default_of : Option ColumnDef → Option Text
default_of none = none
default_of (some c) = if c.has_default then some c.default else none

abbrev or_text : Text → Text → Text
or_text [] t = t
or_text (c ∷ s) t = c ∷ s

-- A name, if the row has it.
abbrev in_row : Row → Option Text → Text
unfolding lookup
in_row row none = []
in_row row (some name) = elim (lookup name row) [ none ↦ [] | some v ↦ name ]

-- The key of a row that holds an item: its alias, its name as written, or its bare name.
unfoldable pub key_of_item : Map Text → Row → Text → Text
unfolding lookup strip_table_alias
key_of_item aliases row col =
    or_text (in_row row (lookup col aliases))
      (or_text (in_row row (some col)) (strip_table_alias col))

abbrev set_default : Text → Option Text → Row → Row
unfolding insert
set_default name none row = row
set_default name (some v) row = insert name v row

abbrev value_else : Option Text → Option Text → Text
value_else (some v) default = v
value_else none (some d) = d
value_else none none = []

-- The columns of the target by the position of the items; those behind them get their default.
unfoldable pub remap : Map ColumnDef → Map Text → Row → List Text → List Text → Row → Row
unfolding lookup insert key_of_item
remap defs aliases row [] columns made = made
remap defs aliases row (t ∷ targets) [] made =
    remap defs aliases row targets [] (set_default t (default_of (lookup t defs)) made)
remap defs aliases row (t ∷ targets) (c ∷ columns) made =
    let val = value_else (lookup (key_of_item aliases row c) row) (default_of (lookup t defs)) in
    remap defs aliases row targets columns (insert t val made)

-- SELECT *: the defaults of the columns that a row lacks.
unfoldable pub fill_missing : List ColumnDef → Row → Row
unfolding lookup insert
fill_missing [] row = row
fill_missing (c ∷ columns) row = elim (lookup c.name row) [
  | none ↦ fill_missing columns (set_default c.name (default_of (some c)) row)
  | some v ↦ fill_missing columns row
]

unfoldable pub rows_to_overwrite : Table → List Text → Map Text → List Row → List Row
unfolding is_only_star exact_to_alias col_by_name remap fill_missing
rows_to_overwrite target columns column_aliases rows =
    let targets = map (λ (c : ColumnDef). c.name) target.columns ++ target.partition_by in
    let defs = col_by_name target.columns [] in
    let aliases = exact_to_alias column_aliases in
    if is_only_star columns
    then map (fill_missing target.columns) rows
    else map (λ row. remap defs aliases row targets columns []) rows
