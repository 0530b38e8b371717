-- ===== src/Tests/Partition.antt =====
-- The pruning of partitions at a table of two months.
use gsql.Common.{◌≡◌, refl, true, List, [], ◌∷◌, inl, String, All, filter}
use gsql.Text.{Text, bytes, ◌==◌, text_lt}
use gsql.Map.{lookup, insert_all}
use gsql.Parser.Ast.{Expression, nil, comparison, logical}
use gsql.Storage.Partition.{PartitionFile, read_table}
use gsql.Plan.Row.{Row}
use gsql.Plan.Builtin.{to_float}
use gsql.Plan.Eval.{evaluate}
use gsql.Plan.Partition.{is_partition, extract_partition_filters}
use gsql.Plan.Partition.Split.{IsExtractable, remaining_holds, extraction_holds, extract-split}
use gsql.Plan.Partition.Pruning.{HasValues, AllTextual, read_table-pruned, numbers_pruned}
use gsql.Tests.Data.{whole_numbers, order, orders}

-- month = '2026-01' AND id = '1'
abbrev january : Expression
january =
    logical (comparison (bytes "month") (bytes "=") (bytes "2026-01") [] nil) (bytes "AND")
      (comparison (bytes "id") (bytes "=") (bytes "1") [] nil)

abbrev months : List Text
months = bytes "month" ∷ []

abbrev month : String → List Row → PartitionFile
month m rows = record { path = []; partition_values = (bytes "month", bytes m) ∷ []; rows = rows }

abbrev files : List PartitionFile
files =
    month "2026-01" (order "1" "10" ∷ order "2" "5" ∷ [])
    ∷ month "2026-02" (order "1" "7" ∷ [])
    ∷ []

january-IsExtractable : IsExtractable months january
unfolding is_partition ◌==◌
january-IsExtractable = (inl (refl, refl), inl (refl, refl))

extract-split_example :
    evaluate whole_numbers [] (order "1" "10") january
    ≡ extraction_holds whole_numbers [] (order "1" "10") (extract_partition_filters january months)
extract-split_example =
    extract-split whole_numbers [] (order "1" "10") january months january-IsExtractable

files-fit :
    All
      (λ file.
        HasValues months file
        × AllTextual whole_numbers [] months (extract_partition_filters january months).1 file)
      files
unfolding extract_partition_filters lookup ◌==◌
files-fit = (
  (((bytes "2026-01", refl), tt), (inl refl, tt)),
  ((((bytes "2026-02", refl), tt), (inl refl, tt)), tt),
)

read_table-pruned_example :
    filter
      (λ row. remaining_holds whole_numbers [] row (extract_partition_filters january months).0)
      (read_table months files (extract_partition_filters january months).1)
    ≡ filter (λ row. evaluate whole_numbers [] row january) (read_table months files [])
read_table-pruned_example =
    read_table-pruned whole_numbers [] months january january-IsExtractable files files-fit

-- One file and one row are left of the three.
january_rows :
    filter
      (λ row. remaining_holds whole_numbers [] row (extract_partition_filters january months).0)
      (read_table months files (extract_partition_filters january months).1)
    ≡ ((bytes "id", bytes "1")
        ∷ (bytes "amount", bytes "10")
        ∷ (bytes "month", bytes "2026-01")
        ∷ [])
      ∷ []
unfolding extract_partition_filters read_table evaluate ◌==◌ lookup insert_all
january_rows = refl

-- month > 9 at the month 10
abbrev later_months : Expression
later_months = comparison (bytes "month") (bytes ">") (bytes "9") [] nil

numbers_pruned_example :
    All
      (λ row. evaluate whole_numbers [] row later_months ≡ true)
      (read_table (bytes "month" ∷ []) (month "10" orders ∷ []) [])
    × (read_table
          (bytes "month" ∷ [])
          (month "10" orders ∷ [])
          (extract_partition_filters later_months (bytes "month" ∷ [])).1
        ≡ [])
unfolding to_float text_lt ◌==◌
numbers_pruned_example =
    numbers_pruned whole_numbers [] (bytes "month") (bytes "10") (bytes "9") 10 9 orders refl refl
      refl refl refl
