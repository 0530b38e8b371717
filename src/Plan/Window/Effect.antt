-- ===== src/Plan/Window/Effect.antt =====
-- What window functions write: their own columns, and nothing else.
use gsql.Common.{
  ◌<◌, ℕ, zero, suc, false, Option, none, some, List, [], ◌∷◌, ◌++◌, map, length, All, ◌≡◌, refl,
  sym, ap, ◌∙◌, inl, inr, arith, Bool-cases, Option-cases, append_assoc, append-nil,
}
use gsql.Text.{Text, ◌==◌}
use gsql.Map.{lookup, lookup-insert}
use gsql.Float.{Floats}
use gsql.Parser.Ast.{SortOrder, WindowFrame, WindowExpr}
use gsql.Plan.Row.{Row}
use gsql.Plan.Builtin.{Registry, FuncDef, lookup_func}
use gsql.Plan.Window.Frame.{
  frame_value, set_column, frame_loop, frame_order, compute_window_agg_frame,
}
use gsql.Plan.Aggregate.{make_group_key}
use gsql.Plan.Sort.{sort_rows}
use gsql.Plan.Window.{
  partition_rows, positions, window_over, set_at, row_at, write_back, is_frame_func, sort_part,
  compute_partition_window, window_parts, result_column, apply_window, compute_window_functions,
}

-- The values of a column in all rows, `none` where a row has no such column.
abbrev pub column : Text → List Row → List (Option Text)
column j rows = map (lookup j) rows

-- A registered window function keeps the rows it is given and sets its result column only.
abbrev pub IsLocal : Registry → Type 0
IsLocal builtins =
    (name : Text) (fn : FuncDef) (f : List Row → List Text → List SortOrder → Text → List Row)
    → lookup_func builtins name ≡ some fn
    → fn.window_fn ≡ some f
    → (rows : List Row) (args : List Text) (order_by : List SortOrder) (col_key j : Text)
    → (col_key == j) ≡ false
    → column j (f rows args order_by col_key) ≡ column j rows

map-append : {A B : Type 0} (f : A → B) (xs ys : List A) → map f (xs ++ ys) ≡ map f xs ++ map f ys
map-append f [] ys = refl
map-append f (x ∷ xs) ys = ap (λ l. f x ∷ l) (map-append f xs ys)

column-row_at :
    (j : Text) (rows others : List Row) (i : ℕ)
    → column j others ≡ column j rows
    → lookup j (row_at others i) ≡ lookup j (row_at rows i)
unfolding row_at
column-row_at j [] [] i h = refl
column-row_at j [] (o ∷ others) i h = cc
column-row_at j (r ∷ rows) [] i h = cc
column-row_at j (r ∷ rows) (o ∷ others) zero h = cc
column-row_at j (r ∷ rows) (o ∷ others) (suc i) h = column-row_at j rows others i cc

column-set_at :
    (j : Text) (rows : List Row) (i : ℕ) (row : Row)
    → lookup j row ≡ lookup j (row_at rows i)
    → column j (set_at i row rows) ≡ column j rows
unfolding set_at row_at
column-set_at j [] i row h = refl
column-set_at j (r ∷ rows) zero row h = ap (λ v. v ∷ column j rows) h
column-set_at j (r ∷ rows) (suc i) row h = ap (λ l. lookup j r ∷ l) (column-set_at j rows i row h)

column-write_back :
    (j : Text) (rows now : List Row) (part : List ℕ) (written : List Row)
    → column j now ≡ column j rows
    → column j written ≡ column j (map (row_at rows) part)
    → column j (write_back part written now) ≡ column j rows
unfolding write_back
column-write_back j rows now [] written h w = h
column-write_back j rows now (i ∷ part) [] h w = h
column-write_back j rows now (i ∷ part) (row ∷ written) h w =
    let head : lookup j row ≡ lookup j (row_at rows i) = cc in
    column-write_back j rows (set_at i row now) part written
      (column-set_at j now i row (head ∙ sym (column-row_at j rows now i h)) ∙ h) cc

module _ (fl : Floats) (j : Text) where
  lookup-set_column :
      (col_key : Text) (o : Option Text) (row : Row)
      → (col_key == j) ≡ false
      → lookup j (set_column fl col_key o row) ≡ lookup j row
  lookup-set_column col_key none row h = refl
  lookup-set_column col_key (some v) row h = lookup-insert col_key j v row ∙ rw h refl

  column-frame_loop :
      (col_key agg col : Text) (frame : Option WindowFrame) (before rows : List Row)
      → (col_key == j) ≡ false
      → column j (frame_loop fl col_key agg col frame before rows) ≡ column j (before ++ rows)
  unfolding frame_loop
  column-frame_loop col_key agg col frame before [] h = ap (column j) (sym (append-nil before))
  column-frame_loop col_key agg col frame before (row ∷ rows) h =
      let o = frame_value fl (before ++ row ∷ rows) (length before) agg col frame in
      column-frame_loop col_key agg col frame (before ++ set_column fl col_key o row ∷ []) rows h
      ∙ ap (column j) (append_assoc before (set_column fl col_key o row ∷ []) rows)
      ∙ map-append (lookup j) before (set_column fl col_key o row ∷ rows)
      ∙ ap (λ v. column j before ++ v ∷ column j rows) (lookup-set_column col_key o row h)
      ∙ sym (map-append (lookup j) before (row ∷ rows))

  column-agg_frame :
      (rows : List Row) (col_key : Text) (args : List Text) (agg : Text)
      (frame : Option WindowFrame) (order_by : List SortOrder)
      → (col_key == j) ≡ false
      → column j (compute_window_agg_frame fl rows col_key args agg frame order_by) ≡ column j rows
  unfolding compute_window_agg_frame
  column-agg_frame rows col_key [] agg frame order_by h = refl
  column-agg_frame rows col_key (col ∷ args) agg frame order_by h = elim (Bool-cases (col == [])) [
    | inl e ↦ rw e refl
    | inr e ↦ rw e (column-frame_loop col_key agg col (frame_order fl order_by frame) [] rows h)
  ]

  module _ (builtins : Registry) (all_local : IsLocal builtins) where
    column-partition_window :
        (rows : List Row) (w : WindowExpr) (col_key : Text)
        → (col_key == j) ≡ false
        → column j (compute_partition_window fl builtins rows w col_key) ≡ column j rows
    unfolding compute_partition_window
    column-partition_window [] w col_key h = refl
    column-partition_window (row ∷ rows) w col_key h =
        elim (Bool-cases (is_frame_func fl builtins w.func_name)) [
          | inl e ↦
              rw e (column-agg_frame (row ∷ rows) col_key w.args w.func_name w.frame w.order_by h)
          | inr e ↦ elim (Option-cases (lookup_func builtins w.func_name)) [
            | inl absent ↦ rw (e, absent) refl
            | inr (fn, found) ↦ elim (Option-cases (fn.window_fn)) [
              | inl scalar ↦ rw (e, found, scalar) refl
              | inr (f, is_f) ↦
                  rw (e, found, is_f)
                    (all_local w.func_name fn f found is_f (row ∷ rows) w.args w.order_by col_key j
                      h)
            ]
          ]
        ]

    column-window_parts :
        (w : WindowExpr) (col_key : Text) (parts : List (List ℕ)) (rows : List Row)
        → (col_key == j) ≡ false
        → column j (window_parts fl builtins w col_key parts rows) ≡ column j rows
    unfolding window_parts
    column-window_parts w col_key [] rows h = refl
    column-window_parts w col_key (part ∷ parts) rows h =
        let sorted = sort_part fl builtins w rows part in
        column-window_parts w col_key parts _ h
        ∙ column-write_back j rows rows sorted _ refl
            (column-partition_window (map (row_at rows) sorted) w col_key h)

    -- A window expression writes another column than `j`.
    abbrev pub WritesOther : WindowExpr → Type 0
    WritesOther w = (result_column w w.args w.result_key == j) ≡ false

    -- The order in which a window leaves the rows: without PARTITION BY it sorts them.
    abbrev pub left_order : WindowExpr → List Text → List Row → List Row
    left_order w [] rows = sort_rows fl rows w.order_by
    left_order w (col ∷ cols) rows = rows

    column-window_over :
        (w : WindowExpr) (cols : List Text) (col_key : Text) (rows : List Row)
        → (col_key == j) ≡ false
        → column j (window_over fl builtins w col_key cols rows) ≡ column j (left_order w cols rows)
    unfolding window_over
    column-window_over w [] col_key rows h =
        column-partition_window (sort_rows fl rows w.order_by) w col_key h
    column-window_over w (col ∷ cols) col_key rows h =
        column-window_parts w col_key
          (partition_rows (col ∷ cols) (λ i. make_group_key (col ∷ cols) (row_at rows i))
            (positions 0 rows))
          rows h

    -- A window expression leaves every column but its result as it was, with the rows in the order of
    -- the input if it has a PARTITION BY, and sorted by its ORDER BY if it has none.
    pub apply_window-column :
        (w : WindowExpr) (rows : List Row)
        → WritesOther w
        → (w.func_name == []) ≡ false
        → column j (apply_window fl builtins w rows) ≡ column j (left_order w w.partition_by rows)
    unfolding apply_window
    apply_window-column w rows h e = rw e (column-window_over w w.partition_by _ rows h)

    left_order-partitioned :
        (w : WindowExpr) (cols : List Text) (rows : List Row)
        → 0 < length cols
        → left_order w cols rows ≡ rows
    left_order-partitioned w [] rows h = absurd (omega arith)
    left_order-partitioned w (col ∷ cols) rows h = refl

    keeps :
        (w : WindowExpr) (rows : List Row)
        → WritesOther w
        → 0 < length w.partition_by
        → column j (apply_window fl builtins w rows) ≡ column j rows
    unfolding apply_window
    keeps w rows h parts = elim (Bool-cases (w.func_name == [])) [
      | inl e ↦ rw e refl
      | inr e ↦
          apply_window-column w rows h e
          ∙ ap (column j) (left_order-partitioned w w.partition_by rows parts)
    ]

    -- Windows that all have a PARTITION BY keep the number and the order of the rows and every column
    -- that is not the result of one of them, though they sort the partitions and write to shared
    -- rows; provided that the registered window functions keep them.
    pub compute_window_functions-column :
        (rows : List Row) (exprs : List WindowExpr)
        → All (λ w. WritesOther w × (0 < length w.partition_by)) exprs
        → column j (compute_window_functions fl builtins rows exprs) ≡ column j rows
    unfolding compute_window_functions
    compute_window_functions-column rows [] h = refl
    compute_window_functions-column rows (w ∷ exprs) h =
        compute_window_functions-column (apply_window fl builtins w rows) exprs h.1
        ∙ keeps w rows h.0.0 h.0.1
