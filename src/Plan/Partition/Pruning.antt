-- ===== src/Plan/Partition/Pruning.antt =====
-- Reading only the selected files and filtering by what is left of the predicate gives the rows
-- that the predicate keeps of the whole table.
use mathlib.Core.Bool.{and-true, and-false}
use gsql.Common.{
  Bool, true, false, ◌&&◌, List, [], ◌∷◌, ◌++◌, all, All, map, filter, filter-append, some, ◌≡◌,
  refl, sym, ◌∙◌, inl, inr, if◌then◌else◌, Bool-cases,
}
use gsql.Text.{Text, text_lt, bytes, ◌==◌, eq_iff, eq_refl}
use gsql.Map.{Map, lookup, insert_all, lookup-insert_all}
use gsql.Float.{Floats}
use gsql.Parser.Ast.{Expression, nil, comparison}
use gsql.Storage.Partition.{
  PartitionFilter, PartitionFile, value_of, match_condition, filters_on, is_selected,
  read_partition, read_table,
}
use gsql.Plan.Row.{Row, project_row_value}
use gsql.Plan.Builtin.{Registry, to_float, compare_values, compare_floats}
use gsql.Plan.Eval.{evaluate, compare_op}
use gsql.Plan.Partition.{is_partition, extract_partition_filters}
use gsql.Plan.Partition.Split.{IsExtractable, remaining_holds, filter_holds, extract-split}
use gsql.Plan.Partition.Condition.{
  OnPartitions, extract-OnPartitions, is_selected-all, is_selected-nil, IsTextual,
  compare_op-match_condition,
}

-- The file has a value for every partition column.
abbrev pub HasValues : List Text → PartitionFile → Type 0
HasValues cols file = All (λ c. (v : Text) × (lookup c file.partition_values ≡ some v)) cols

value_present :
    (cols : List Text) (c : Text) (file : PartitionFile)
    → HasValues cols file
    → is_partition cols c ≡ true
    → (v : Text) × (lookup c file.partition_values ≡ some v)
unfolding is_partition
value_present [] c file h p = cc
value_present (d ∷ cols) c file h p = elim (Bool-cases (d == c)) [
  | inl same ↦ rw (← (eq_iff d c).0 same) h.0
  | inr other ↦ value_present cols c file h.1 (rw other at p)
]

value_of-some : (c : Text) (m : Map Text) (v : Text) → lookup c m ≡ some v → value_of c m ≡ v
value_of-some c m v e = rw (e, value_of)

project-insert_all :
    (c : Text) (file : PartitionFile) (row : Row) (v : Text)
    → lookup c file.partition_values ≡ some v
    → project_row_value (insert_all file.partition_values row) c ≡ value_of c file.partition_values
unfolding project_row_value
project-insert_all c file row v e =
    let found : lookup c (insert_all file.partition_values row) ≡ some v =
      lookup-insert_all c file.partition_values row ∙ rw e in
    rw (found, project_row_value) (sym (value_of-some c file.partition_values v e))

-- A filter whose test is a test of its own with a constant.
filter-map_and {ℓ κ} :
    {A : Type ℓ} {B : Type κ} (g : A → B) (p q : B → Bool) (b : Bool)
    → ((a : A) → p (g a) ≡ (q (g a) && b))
    → (xs : List A) → filter p (map g xs) ≡ (if b then filter q (map g xs) else [])
filter-map_and g p q true h [] = refl
filter-map_and g p q false h [] = refl
filter-map_and g p q true h (x ∷ xs) = rw (h x, and-true, filter-map_and g p q true h xs)
filter-map_and g p q false h (x ∷ xs) = rw (h x, and-false, filter-map_and g p q false h xs)

read_table-cons :
    (cols : List Text) (file : PartitionFile) (files : List PartitionFile)
    (fs : List PartitionFilter)
    → read_table cols (file ∷ files) fs
      ≡ (if is_selected cols fs file then read_partition file else []) ++ read_table cols files fs
unfolding read_table
read_table-cons cols file files fs = elim (Bool-cases (is_selected cols fs file)) [
  | inl kept ↦ rw kept
  | inr dropped ↦ rw dropped
]

read_table-nil : (cols : List Text) (fs : List PartitionFilter) → read_table cols [] fs ≡ []
unfolding read_table
read_table-nil cols fs = refl

filter_if {ℓ} :
    {A : Type ℓ} (p : A → Bool) (b : Bool) (xs : List A)
    → filter p (if b then xs else []) ≡ (if b then filter p xs else [])
filter_if p true xs = refl
filter_if p false xs = refl

module _ (fl : Floats) (builtins : Registry) (cols : List Text) where
  -- Each filter compares as text on the values of the file.
  abbrev pub AllTextual : List PartitionFilter → PartitionFile → Type 0
  AllTextual fs file = All (λ f. IsTextual fl (value_of f.column file.partition_values) f) fs

  filters-selected :
      (fs : List PartitionFilter) (file : PartitionFile) (row : Row)
      → HasValues cols file
      → OnPartitions cols fs
      → AllTextual fs file
      → all (filter_holds fl builtins (insert_all file.partition_values row)) fs
        ≡ all (λ f. match_condition (value_of f.column file.partition_values) f) fs
  filters-selected [] file row hv hp ht = refl
  filters-selected (f ∷ fs) file row hv hp ht =
      let (v, e) = value_present cols f.column file hv hp.0.0 in
      rw (
        project-insert_all f.column file row v e,
        filters-selected fs file row hv hp.1 ht.1,
        compare_op-match_condition fl (value_of f.column file.partition_values) f hp.0.1 ht.0,
      )

  module _ (e : Expression) (extractable : IsExtractable cols e) where
    abbrev filters : List PartitionFilter
    filters = (extract_partition_filters e cols).1

    abbrev remaining : Row → Bool
    remaining row = remaining_holds fl builtins row (extract_partition_filters e cols).0

    predicate-selected :
        (file : PartitionFile) (row : Row)
        → HasValues cols file
        → AllTextual filters file
        → evaluate fl builtins (insert_all file.partition_values row) e
          ≡ (remaining (insert_all file.partition_values row) && is_selected cols filters file)
    predicate-selected file row hv ht =
        extract-split fl builtins (insert_all file.partition_values row) e cols extractable
        ∙ rw (
          filters-selected filters file row hv (extract-OnPartitions e cols) ht,
          is_selected-all cols filters file (extract-OnPartitions e cols),
        )

    read_partition-selected :
        (file : PartitionFile)
        → HasValues cols file
        → AllTextual filters file
        → filter (λ row. evaluate fl builtins row e) (read_partition file)
          ≡ (if is_selected cols filters file then filter remaining (read_partition file) else [])
    unfolding read_partition
    read_partition-selected file hv ht =
        filter-map_and (λ row. insert_all file.partition_values row) _ remaining _
          (λ row. predicate-selected file row hv ht) file.rows

    -- Partition pruning is sound: for a predicate with no nil operand and no computed comparison on
    -- a partition column, where every file has a value for each partition column and no extracted
    -- filter compares two numbers by order, the rows of the selected files that the remaining
    -- predicate keeps are those that the whole predicate keeps of all files, in the same order.
    pub read_table-pruned :
        (files : List PartitionFile)
        → All (λ file. HasValues cols file × AllTextual filters file) files
        → filter remaining (read_table cols files filters)
          ≡ filter (λ row. evaluate fl builtins row e) (read_table cols files [])
    read_table-pruned [] h = rw (read_table-nil, read_table-nil)
    read_table-pruned (file ∷ files) h =
        rw (read_table-cons, filter-append, filter_if, read_table-pruned files h.1)
          (sym (
            rw (
              read_table-cons,
              is_selected-nil,
              filter-append,
              read_partition-selected file h.0.0 h.0.1,
            )))

module _ (fl : Floats) (builtins : Registry) where
  number_greater :
      (column a b : Text) (x y : fl.Float64) (row : Row)
      → (column == []) ≡ false
      → to_float fl a ≡ some x
      → to_float fl b ≡ some y
      → fl.lt y x ≡ true
      → evaluate fl builtins
          (insert_all ((column, a) ∷ []) row)
          (comparison column (bytes ">") b [] nil)
        ≡ true
  unfolding evaluate compare_op compare_values compare_floats lookup ◌==◌
  number_greater column a b x y row named p q less =
      let file : PartitionFile = record {
        path = [];
        partition_values = (column, a) ∷ [];
        rows = [];
      } in
      let found : lookup column ((column, a) ∷ []) ≡ some a = rw (eq_refl column) refl in
      rw
        (
          named,
          project-insert_all column file row a found,
          value_of-some column ((column, a) ∷ []) a found,
        )
        (rw (p, q, compare_values) less)

  number_greater-All :
      (column a b : Text) (x y : fl.Float64) (rows : List Row)
      → (column == []) ≡ false
      → to_float fl a ≡ some x
      → to_float fl b ≡ some y
      → fl.lt y x ≡ true
      → All
          (λ row. evaluate fl builtins row (comparison column (bytes ">") b [] nil) ≡ true)
          (map (insert_all ((column, a) ∷ [])) rows ++ [])
  number_greater-All column a b x y [] named p q less = tt
  number_greater-All column a b x y (row ∷ rows) named p q less = (
    number_greater column a b x y row named p q less,
    number_greater-All column a b x y rows named p q less,
  )

  -- Pruning compares as text what the predicate compares as numbers: `column > value` holds of every
  -- row of a file whose partition value is greater as a number, and the filter that is taken out of
  -- this predicate reads no row of the file, where the value is not greater as a text.
  pub numbers_pruned :
      (column a b : Text) (x y : fl.Float64) (rows : List Row)
      → (column == []) ≡ false
      → to_float fl a ≡ some x
      → to_float fl b ≡ some y
      → fl.lt y x ≡ true
      → text_lt b a ≡ false
      → (let file : PartitionFile = record {
        path = [];
        partition_values = (column, a) ∷ [];
        rows = rows;
      } in
          let greater = comparison column (bytes ">") b [] nil in
          All
            (λ row. evaluate fl builtins row greater ≡ true)
            (read_table (column ∷ []) (file ∷ []) [])
          × (read_table
                (column ∷ [])
                (file ∷ [])
                (extract_partition_filters greater (column ∷ [])).1
              ≡ []))
  unfolding read_table read_partition is_selected filters_on match_condition
      extract_partition_filters lookup ◌==◌
  numbers_pruned column a b x y rows named p q less text = (
    number_greater-All column a b x y rows named p q less,
    rw (eq_refl column) (rw (eq_refl column, value_of) (rw text)),
  )
