-- ===== src/Plan/Window.antt =====
-- Window functions over partitions (computeWindowFunctions of pkg/plan/plan.go). Rows are Go maps that
-- the input slice and the partitions share: a partition holds references, the positions of its rows
-- in the input, and what is written to a row through it is seen in the input.
pub mod Frame
pub mod Effect
pub mod Keys
pub mod Parts
use mathlib.Core.Option
use gsql.Common.{
  ℕ, zero, suc, ◌+◌, Bool, ◌||◌, Option, none, some, List, [], ◌∷◌, ◌++◌, map, length, get_elem?,
  if◌then◌else◌,
}
use gsql.Text.{Text, bytes, ◌==◌}
use gsql.Map.{Map, lookup, insert}
use gsql.Float.{Floats}
use gsql.Parser.Ast.{WindowExpr}
use gsql.Sort.{stable_sort}
use gsql.Plan.Row.{Row, value_or}
use gsql.Plan.Builtin.{Registry, lookup_func}
use gsql.Plan.Sort.{sort_less, sort_rows}
use gsql.Plan.Aggregate.{make_group_key}
use gsql.Plan.Window.Frame.{compute_window_agg_frame}

-- `xs[i] = x`
unfoldable pub set_at {ℓ} : {A : Type ℓ} → ℕ → A → List A → List A
set_at i x [] = []
set_at zero x (y ∷ ys) = x ∷ ys
set_at (suc i) x (y ∷ ys) = y ∷ set_at i x ys

-- The groups in the order of their first elements, and the position of each key's group.
abbrev pub Grouping {ℓ} : Type ℓ → Type ℓ
Grouping A = List (List A) × Map ℕ

module _ {ℓ} {A : Type ℓ} where
  -- One round of the loop of partitionRows.
  unfoldable pub add_to_group : (A → Text) → Grouping A → A → Grouping A
  unfolding lookup insert set_at
  add_to_group key (groups, index) a = elim (lookup (key a) index) [
    | some i ↦ (set_at i (value_or [] (get_elem? groups i) ++ a ∷ []) groups, index)
    | none ↦ (groups ++ (a ∷ []) ∷ [], insert (key a) (length groups) index)
  ]

  unfoldable pub group_from : (A → Text) → Grouping A → List A → Grouping A
  unfolding add_to_group
  group_from key g [] = g
  group_from key g (a ∷ items) = group_from key (add_to_group key g a) items

  -- partitionRows, with the key of an element.
  unfoldable pub partition_rows : List Text → (A → Text) → List A → List (List A)
  unfolding group_from
  partition_rows [] key items = items ∷ []
  partition_rows (col ∷ cols) key items = (group_from key ([], []) items).0

-- The row at a position of the input.
unfoldable pub row_at : List Row → ℕ → Row
row_at rows i = value_or [] (get_elem? rows i)

unfoldable pub positions : ℕ → List Row → List ℕ
positions i [] = []
positions i (row ∷ rows) = i ∷ positions (suc i) rows

-- The rows of a partition, written back through its references.
unfoldable pub write_back : List ℕ → List Row → List Row → List Row
unfolding set_at
write_back (i ∷ part) (row ∷ written) rows = write_back part written (set_at i row rows)
write_back _ _ rows = rows

-- The column that a window expression writes.
unfoldable pub result_column : WindowExpr → List Text → Text → Text
result_column w args (c ∷ key) = c ∷ key
result_column w [] [] = w.func_name ++ bytes "()"
result_column w (arg ∷ args) [] = w.func_name ++ (bytes "(" ++ (arg ++ bytes ")"))

module _ (fl : Floats) (builtins : Registry) where
  abbrev pub is_frame_func : Text → Bool
  is_frame_func name =
      name == bytes "COUNT"
      || name == bytes "SUM"
      || name == bytes "AVG"
      || name == bytes "MIN"
      || name == bytes "MAX"

  -- A partition in the order of the window, with the column of the expression set.
  unfoldable pub compute_partition_window : List Row → WindowExpr → Text → List Row
  unfolding lookup_func compute_window_agg_frame ◌==◌
  compute_partition_window [] w col_key = []
  compute_partition_window (row ∷ rows) w col_key =
      if is_frame_func w.func_name
      then compute_window_agg_frame fl (row ∷ rows) col_key w.args w.func_name w.frame w.order_by
      else elim (lookup_func builtins w.func_name) [
        | none ↦ row ∷ rows
        | some fn ↦ elim (fn.window_fn) [
          | none ↦ row ∷ rows
          | some window_fn ↦ window_fn (row ∷ rows) w.args w.order_by col_key
        ]
      ]

  -- sortRows on a partition; without keys nothing moves.
  abbrev pub sort_part : WindowExpr → List Row → List ℕ → List ℕ
  sort_part w rows part =
      stable_sort (λ i j. sort_less fl w.order_by (row_at rows i) (row_at rows j)) part

  unfoldable pub window_parts : WindowExpr → Text → List (List ℕ) → List Row → List Row
  unfolding write_back compute_partition_window stable_sort sort_less row_at
  window_parts w col_key [] rows = rows
  window_parts w col_key (part ∷ parts) rows =
      let sorted = sort_part w rows part in
      window_parts w col_key parts
        (write_back sorted (compute_partition_window (map (row_at rows) sorted) w col_key) rows)

  -- Without PARTITION BY the one partition is the input slice itself: sorting it sorts the input.
  unfoldable pub window_over : WindowExpr → Text → List Text → List Row → List Row
  unfolding partition_rows positions window_parts compute_partition_window sort_rows make_group_key
      row_at
  window_over w col_key [] rows = compute_partition_window (sort_rows fl rows w.order_by) w col_key
  window_over w col_key (col ∷ cols) rows =
      window_parts w col_key
        (partition_rows (col ∷ cols) (λ i. make_group_key (col ∷ cols) (row_at rows i))
          (positions 0 rows))
        rows

  -- One window expression; one without a function is passed over.
  unfoldable pub apply_window : WindowExpr → List Row → List Row
  unfolding window_over result_column ◌==◌
  apply_window w rows =
      if w.func_name == []
      then rows
      else window_over w (result_column w w.args w.result_key) w.partition_by rows

  unfoldable pub compute_window_functions : List Row → List WindowExpr → List Row
  unfolding apply_window
  compute_window_functions rows [] = rows
  compute_window_functions rows (w ∷ exprs) = compute_window_functions (apply_window w rows) exprs
