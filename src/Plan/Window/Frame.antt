-- ===== src/Plan/Window/Frame.antt =====
-- Window frames and the aggregates over them (getFrameRange and computeWindowAggFrame of
-- pkg/plan/plan.go). Positions are integers, as a bound may lie before the first row.
pub mod Bounds
use gsql.Common.{
  ℕ, zero, suc, ◌+◌, ◌-◌, Bool, Option, none, some, List, [], ◌∷◌, ◌++◌, map, length, take, drop,
  get_elem?, ◌&&◌, ◌||◌, not, if◌then◌else◌, true, false,
}
use mathlib.Core.List.{reverse}
use gsql.Common.Int.{ℤ, pos, negsuc, pos_part, ◌+ℤ◌, ◌-ℤ◌, ltb_ℤ, leb_ℤ}
use gsql.Text.{Text, bytes, ◌==◌, itoa}
use gsql.Map.{insert}
use gsql.Float.{Floats}
use gsql.Parser.Ast.{SortOrder, WindowFrameBound, WindowFrameType, WindowFrameBoundary, WindowFrame}
use gsql.Plan.Row.{Row, get, value_or}
use gsql.Plan.Builtin.{compare_values}

unfoldable pub resolve_frame_bound_row : ℕ → ℕ → WindowFrameBoundary → ℤ
unfolding ◌+ℤ◌ ◌-ℤ◌
resolve_frame_bound_row n current bound = elim (bound.bound_type) [
  | WindowFrameBound.unset ↦ pos 0
  | WindowFrameBound.unbounded_preceding ↦ pos 0
  | WindowFrameBound.n_preceding ↦ pos current -ℤ bound.n
  | WindowFrameBound.current_row ↦ pos current
  | WindowFrameBound.n_following ↦ pos current +ℤ bound.n
  | WindowFrameBound.unbounded_following ↦ pos n -ℤ pos 1
]

-- `if start < 0 { start = 0 }` and `if end >= n { end = n - 1 }`
abbrev pub clamp_start : ℤ → ℤ
clamp_start start = if ltb_ℤ start (pos 0) then pos 0 else start

abbrev pub clamp_end : ℕ → ℤ → ℤ
clamp_end n end = if leb_ℤ (pos n) end then pos n -ℤ pos 1 else end

abbrev pub is_rows : WindowFrameType → Bool
is_rows WindowFrameType.frame_rows = true
is_rows _ = false

module _ (fl : Floats) where
  -- The first position with a number that the test accepts, else the default.
  unfoldable pub find_number : Text → (fl.Float64 → Bool) → ℤ → List (ℕ × Row) → ℤ
  unfolding get
  find_number col test default [] = default
  find_number col test default ((i, row) ∷ rows) =
      let rest = find_number col test default rows in
      elim (fl.parse_float (get row col)) [
        | none ↦ rest
        | some val ↦ if test val then pos i else rest
      ]

  unfoldable pub enumerate : ℕ → List Row → List (ℕ × Row)
  enumerate i [] = []
  enumerate i (row ∷ rows) = (i, row) ∷ enumerate (suc i) rows

  unfoldable pub find_range_start : List Row → Text → fl.Float64 → ℤ
  unfolding find_number enumerate
  find_range_start rows col threshold =
      find_number col (λ val. fl.le threshold val) (pos 0) (enumerate 0 rows)

  -- From the last row to the first.
  unfoldable pub find_range_end : List Row → Text → fl.Float64 → ℤ
  unfolding find_number enumerate ◌-ℤ◌
  find_range_end rows col threshold =
      find_number col (λ val. fl.le val threshold) (pos (length rows) -ℤ pos 1)
        (reverse (enumerate 0 rows))

  unfoldable pub range_start : List Row → Text → fl.Float64 → WindowFrameBoundary → ℤ
  unfolding find_range_start
  range_start rows col current bound = elim (bound.bound_type) [
    | WindowFrameBound.n_preceding ↦ find_range_start rows col (fl.sub current (fl.of_int bound.n))
    | WindowFrameBound.current_row ↦ find_range_start rows col current
    | WindowFrameBound.n_following ↦ find_range_start rows col (fl.add current (fl.of_int bound.n))
    | _ ↦ pos 0
  ]

  unfoldable pub range_end : List Row → Text → fl.Float64 → WindowFrameBoundary → ℤ
  unfolding find_range_end ◌-ℤ◌
  range_end rows col current bound = elim (bound.bound_type) [
    | WindowFrameBound.unbounded_preceding ↦
        find_range_end rows col (fl.sub current (fl.of_int bound.n))
    | WindowFrameBound.n_preceding ↦ find_range_end rows col (fl.sub current (fl.of_int bound.n))
    | WindowFrameBound.current_row ↦ find_range_end rows col current
    | WindowFrameBound.n_following ↦ find_range_end rows col (fl.add current (fl.of_int bound.n))
    | _ ↦ pos (length rows) -ℤ pos 1
  ]

  -- The last steps of resolveFrameRange.
  abbrev pub close_range : ℕ → ℤ → ℤ → ℤ × ℤ
  close_range n start end =
      let first = clamp_start start in
      let last = clamp_end n end in if ltb_ℤ last first then (last, last) else (first, last)

  unfoldable pub resolve_frame_range : List Row → ℕ → WindowFrame → ℤ × ℤ
  unfolding range_start range_end get ◌-ℤ◌
  resolve_frame_range [] current frame = (pos 0, pos 0)
  resolve_frame_range (row ∷ rows) current frame =
      elim (fl.parse_float (get (value_or [] (get_elem? (row ∷ rows) current)) frame.order_by)) [
        | none ↦ (pos 0, pos (length (row ∷ rows)) -ℤ pos 1)
        | some val ↦
            close_range (length (row ∷ rows))
              (range_start (row ∷ rows) frame.order_by val frame.start)
              (range_end (row ∷ rows) frame.order_by val frame.end)
      ]

  unfoldable pub get_frame_range : List Row → ℕ → Option WindowFrame → ℤ × ℤ
  unfolding resolve_frame_bound_row resolve_frame_range ◌-ℤ◌ ◌==◌
  get_frame_range rows current none = (pos 0, pos (length rows) -ℤ pos 1)
  get_frame_range rows current (some frame) =
      if is_rows frame.frame_type || frame.order_by == []
      then (
        clamp_start (resolve_frame_bound_row (length rows) current frame.start),
        clamp_end (length rows) (resolve_frame_bound_row (length rows) current frame.end),
      )
      else resolve_frame_range rows current frame

  pub record FrameState : Type 0 where
    pub total : fl.Float64
    pub count : ℕ
    pub min_val : Text
    pub max_val : Text

  -- One value of the frame, by the switch on the function.
  unfoldable pub add_value : Text → Text → fl.Float64 → FrameState → FrameState
  unfolding compare_values ◌==◌
  add_value agg val num st =
      if agg == bytes "COUNT"
      then record st { count = suc st.count }
      else if agg == bytes "SUM" || agg == bytes "AVG"
      then record st { total = fl.add st.total num; count = suc st.count }
      else if agg == bytes "MIN"
      then (if st.min_val == [] || compare_values fl val st.min_val (bytes "<")
          then record st { min_val = val }
          else st)
      else if agg == bytes "MAX"
      then (if st.max_val == [] || compare_values fl val st.max_val (bytes ">")
          then record st { max_val = val }
          else st)
      else st

  -- Rows whose value is empty or no number are passed over.
  unfoldable pub fold_frame : Text → Text → List Row → FrameState → FrameState
  unfolding add_value get ◌==◌
  fold_frame agg col [] st = st
  fold_frame agg col (row ∷ rows) st = fold_frame agg col rows (
      if get row col == [] then st else elim (fl.parse_float (get row col)) [
        | none ↦ st
        | some num ↦ add_value agg (get row col) num st
      ])

  -- What is stored for a row; another function stores nothing.
  unfoldable pub frame_result : Text → FrameState → Option Text
  unfolding ◌==◌ itoa
  frame_result agg st =
      if agg == bytes "COUNT"
      then some (itoa st.count)
      else if agg == bytes "SUM"
      then some (fl.format_f st.total)
      else if agg == bytes "AVG"
      then some (elim (st.count) [
        | zero ↦ bytes "0"
        | suc n ↦ fl.format_f (fl.div st.total (fl.of_int (pos (suc n))))
      ])
      else if agg == bytes "MIN"
      then some st.min_val
      else if agg == bytes "MAX"
      then some st.max_val
      else none

  -- The rows from start to end, as far as there are rows.
  unfoldable pub frame_rows : List Row → ℤ × ℤ → List Row
  unfolding ◌+ℤ◌ ◌-ℤ◌
  frame_rows rows (start, end) =
      take (pos_part (end +ℤ pos 1 -ℤ start)) (drop (pos_part start) rows)

  abbrev pub no_values : FrameState
  no_values = record { total = fl.of_int (pos 0); count = 0; min_val = []; max_val = [] }

  -- The value of one row.
  unfoldable pub frame_value : List Row → ℕ → Text → Text → Option WindowFrame → Option Text
  unfolding fold_frame frame_result frame_rows get_frame_range
  frame_value rows i agg col frame =
      frame_result agg
        (fold_frame agg col (frame_rows rows (get_frame_range rows i frame)) no_values)

  abbrev pub set_column : Text → Option Text → Row → Row
  set_column col_key none row = row
  set_column col_key (some val) row = insert col_key val row

  -- The loop over the rows: those before `i` have their column already.
  unfoldable pub frame_loop :
      Text → Text → Text → Option WindowFrame → List Row → List Row → List Row
  unfolding frame_value insert
  frame_loop col_key agg col frame before [] = before
  frame_loop col_key agg col frame before (row ∷ rows) =
      frame_loop col_key agg col frame
        (before
          ++ set_column col_key (frame_value (before ++ row ∷ rows) (length before) agg col frame)
              row
            ∷ [])
        rows

  -- The first ORDER BY column is set on the frame.
  abbrev pub frame_order : List SortOrder → Option WindowFrame → Option WindowFrame
  frame_order [] frame = frame
  frame_order (o ∷ order_by) none = none
  frame_order (o ∷ order_by) (some frame) = some (record frame { order_by = o.column })

  -- computeWindowAggFrame: without an argument nothing happens.
  unfoldable pub compute_window_agg_frame :
      List Row → Text → List Text → Text → Option WindowFrame → List SortOrder → List Row
  unfolding frame_loop ◌==◌
  compute_window_agg_frame rows col_key [] agg frame order_by = rows
  compute_window_agg_frame rows col_key (col ∷ args) agg frame order_by =
      if col == [] then rows else frame_loop col_key agg col (frame_order order_by frame) [] rows
