-- ===== src/Engine/Rows.antt =====
pub mod Entries
pub mod Dedup
-- The rows of a query behind its plan (executeSelectWithCTEs and dedupRows of pkg/engine/engine.go).
use gsql.Common.{
  ℕ, zero, suc, ◌+◌, Bool, true, false, not, ◌&&◌, ◌||◌, Option, none, some, List, [], ◌∷◌, ◌++◌,
  map, length, drop, take, filter, eqb, if◌then◌else◌,
}
use gsql.Text.{Text, bytes, ◌==◌, contains, index_byte, itoa, join, text_lt}
use gsql.Map.{Map, lookup, insert}
use gsql.Sort.{stable_sort}
use gsql.Parser.Ast.{JoinClause}
use gsql.Plan.Row.{Row}
use gsql.Engine.Columns.{normalize_func_column_key, has_byte}
use gsql.Engine.Plan.{has_text}

-- `delete(m, k)`
unfoldable pub remove {ℓ} : {V : Type ℓ} → Text → Map V → Map V
unfolding ◌==◌
remove key [] = []
remove key ((first, val) ∷ rest) =
    if first == key then remove key rest else (first, val) ∷ remove key rest

-- One row per list of values; a column without a name is COL_ and its number.
unfoldable pub value_row : ℕ → List Text → List Text → Row → Row
unfolding insert itoa
value_row i columns [] row = row
value_row i [] (v ∷ values) row =
    value_row (suc i) [] values (insert (bytes "COL_" ++ itoa i) v row)
value_row i ([] ∷ columns) (v ∷ values) row =
    value_row (suc i) columns values (insert (bytes "COL_" ++ itoa i) v row)
value_row i ((c ∷ name) ∷ columns) (v ∷ values) row =
    value_row (suc i) columns values (insert (c ∷ name) v row)

unfoldable pub value_table : List Text → List (List Text) → List Row
unfolding value_row
value_table columns values = map (λ row. value_row 0 columns row []) values

-- The names that the rows may have for what an alias stands for, in full.
unfoldable pub exact_to_alias : Map Text → Map Text
unfolding insert normalize_func_column_key ◌==◌
exact_to_alias [] = []
exact_to_alias ((alias, orig) ∷ rest) =
    let named = insert orig alias (exact_to_alias rest) in
    let key = normalize_func_column_key orig in
    if key == orig then named else insert key alias named

-- Those without a table.
unfoldable pub bare_to_alias : Map Text → Map Text
unfolding insert contains
bare_to_alias [] = []
bare_to_alias ((alias, orig) ∷ rest) =
    let named = bare_to_alias rest in
    if contains orig (bytes ".") then named else insert orig alias named

-- `row[to] = row[from]; delete(row, from)` when the row has the column.
unfoldable pub rename_column : Text → Text → Row → Row
unfolding lookup insert remove
rename_column orig alias row = elim (lookup orig row) [
  | none ↦ row
  | some val ↦ remove orig (insert alias val row)
]

unfoldable pub rename_columns : Map Text → Row → Row
unfolding rename_column
rename_columns [] row = row
rename_columns ((orig, alias) ∷ rest) row = rename_column orig alias (rename_columns rest row)

unfoldable pub apply_aliases : Map Text → List Row → List Row
unfolding exact_to_alias bare_to_alias rename_columns
apply_aliases column_aliases rows =
    map
      (λ row.
        rename_columns (bare_to_alias column_aliases)
          (rename_columns (exact_to_alias column_aliases) row))
      rows

abbrev is_known : Row → Text → Bool
unfolding lookup
is_known row name = elim (lookup name row) [ none ↦ false | some v ↦ true ]

-- The name without its table, unless it is a call or the bare name is taken.
abbrev bare_at : Row → Text → Option ℕ → List (Text × Text)
unfolding lookup
bare_at row name none = []
bare_at row name (some i) =
    let bare = drop (i + 1) name in
    if eqb (i + 1) (length name) || is_known row bare then [] else (name, bare) ∷ []

unfoldable pub bare_names : Row → Row → List (Text × Text)
unfolding lookup index_byte
bare_names row [] = []
bare_names row ((name, v) ∷ rest) =
    let behind = bare_names row rest in
    if has_byte b'(' name then behind else behind ++ bare_at row name (index_byte b'.' name)

unfoldable pub rename_all : List (Text × Text) → Row → Row
unfolding rename_column
rename_all [] row = row
rename_all ((name, bare) ∷ renames) row = rename_all renames (rename_column name bare row)

unfoldable pub dequalify : Row → Row
unfolding bare_names rename_all
dequalify row = rename_all (bare_names row row) row

-- A row as a text: its entries in order.
unfoldable pub row_key : Row → Text
unfolding stable_sort text_lt join
row_key row = join (0 ∷ []) (stable_sort text_lt (map (λ entry. entry.0 ++ b'=' ∷ entry.1) row))

unfoldable pub dedup_from : List Text → List Row → List Row
unfolding has_text row_key
dedup_from seen [] = []
dedup_from seen (row ∷ rows) =
    let is_seen = has_text seen (row_key row) in
    let rest = dedup_from (if is_seen then seen else row_key row ∷ seen) rows in
    if is_seen then rest else row ∷ rest

unfoldable pub dedup_rows : List Row → List Row
unfolding dedup_from
dedup_rows rows = dedup_from [] rows
