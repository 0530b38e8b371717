-- ===== src/Storage/Partition.antt =====
-- Partition filters and the files that they select (pkg/storage/table.go).
use gsql.Common.{
  Bool, true, not, ◌&&◌, none, some, List, [], ◌∷◌, map, all, filter, flat_map, if◌then◌else◌,
}
use gsql.Text.{Text, bytes, ◌==◌, text_lt, text_le}
use gsql.Map.{Map, lookup, insert_all}

pub record PartitionFilter : Type 0 where
  pub column : Text
  pub operator : Text
  pub value : Text

-- A data file: its partition values, inferred from its directory, and its decoded rows.
pub record PartitionFile : Type 0 where
  pub path : Text
  pub partition_values : Map Text
  pub rows : List (Map Text)

-- One condition on a value; an unknown operator rejects nothing. Texts are compared by bytes.
unfoldable pub match_condition : Text → PartitionFilter → Bool
unfolding text_lt text_le ◌==◌
match_condition val c =
    let op = if c.operator == [] then bytes "=" else c.operator in
    if op == bytes "="
    then val == c.value
    else if op == bytes "!="
    then not (val == c.value)
    else if op == bytes ">"
    then text_lt c.value val
    else if op == bytes "<"
    then text_lt val c.value
    else if op == bytes ">="
    then text_le c.value val
    else if op == bytes "<="
    then text_le val c.value
    else true

unfoldable pub match_partition_value : Text → List PartitionFilter → Bool
unfolding match_condition
match_partition_value val [] = true
match_partition_value val (c ∷ conds) = match_condition val c && match_partition_value val conds

-- The conditions on one column, in their order.
unfoldable pub filters_on : Text → List PartitionFilter → List PartitionFilter
unfolding ◌==◌
filters_on col filters = filter (λ f. f.column == col) filters

abbrev pub value_of : Text → Map Text → Text
value_of col values = elim (lookup col values) [ none ↦ [] | some v ↦ v ]

-- A directory level is kept when its value meets every condition on its column.
unfoldable pub is_selected : List Text → List PartitionFilter → PartitionFile → Bool
unfolding lookup filters_on match_partition_value
is_selected partition_cols filters file =
    all (λ col. match_partition_value (value_of col file.partition_values) (filters_on col filters))
      partition_cols

-- The rows of a file, each with the file's partition values set.
unfoldable pub read_partition : PartitionFile → List (Map Text)
unfolding insert_all
read_partition file = map (λ row. insert_all file.partition_values row) file.rows

unfoldable pub read_table : List Text → List PartitionFile → List PartitionFilter → List (Map Text)
unfolding is_selected read_partition
read_table partition_cols files filters =
    flat_map read_partition (filter (is_selected partition_cols filters) files)
