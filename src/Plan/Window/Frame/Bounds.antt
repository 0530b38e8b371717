-- ===== src/Plan/Window/Frame/Bounds.antt =====
-- A frame stays within the rows of its partition.
use gsql.Common.{
  ℕ, ◌-◌, ◌<◌, Bool, ◌||◌, Option, none, some, List, [], ◌∷◌, length, get_elem?, ◌≡◌, inl, inr,
  arith, Bool-cases, Option-cases,
}
use gsql.Common.Int.{ℤ, pos, negsuc, ◌-ℤ◌, ◌≤ℤ◌, ltb_ℤ}
use gsql.Text.{Text, ◌==◌}
use gsql.Float.{Floats}
use gsql.Parser.Ast.{WindowFrameBound, WindowFrameBoundary, WindowFrame}
use gsql.Plan.Row.{Row, get, value_or}
use gsql.Plan.Window.Frame.{
  resolve_frame_bound_row, clamp_start, clamp_end, is_rows, find_number, find_range_end,
  range_start, range_end, close_range, resolve_frame_range, get_frame_range,
}

last_position : (n : ℕ) → 0 < n → pos n -ℤ pos 1 ≡ pos (n - 1)
unfolding ◌-ℤ◌
last_position n h = ground arith

clamp_start-nonneg : (start : ℤ) → pos 0 ≤ℤ clamp_start start
clamp_start-nonneg (pos n) = ground arith
clamp_start-nonneg (negsuc n) = ground arith

clamp_end-bounded : (n : ℕ) (end : ℤ) → 0 < n → clamp_end n end ≤ℤ pos (n - 1)
clamp_end-bounded n (pos m) h = rw (last_position n h) (ground arith)
clamp_end-bounded n (negsuc m) h = rw (last_position n h) (ground arith)

clamp_end-nonneg : (n : ℕ) (end : ℤ) → 0 < n → pos 0 ≤ℤ end → pos 0 ≤ℤ clamp_end n end
clamp_end-nonneg n (pos m) h p = rw (last_position n h) (ground arith)
clamp_end-nonneg n (negsuc m) h p = absurd (omega arith)

-- Both ends lie within `n` rows.
abbrev pub Within : ℕ → ℤ × ℤ → Type 0
Within n (start, end) = (pos 0 ≤ℤ start) × (end ≤ℤ pos (n - 1))

module _ (fl : Floats) where
  close_range-Within :
      (n : ℕ) (start end : ℤ) → 0 < n → pos 0 ≤ℤ end → Within n (close_range fl n start end)
  close_range-Within n start end h p =
      elim (Bool-cases (ltb_ℤ (clamp_end n end) (clamp_start start))) [
        | inl e ↦ rw e (clamp_end-nonneg n end h p, clamp_end-bounded n end h)
        | inr e ↦ rw e (clamp_start-nonneg start, clamp_end-bounded n end h)
      ]

  find_number-nonneg :
      (col : Text) (test : fl.Float64 → Bool) (default : ℤ) (rows : List (ℕ × Row))
      → pos 0 ≤ℤ default
      → pos 0 ≤ℤ find_number fl col test default rows
  unfolding find_number
  find_number-nonneg col test default [] h = h
  find_number-nonneg col test default ((i, row) ∷ rows) h =
      elim (Option-cases (fl.parse_float (get row col))) [
        | inl e ↦ rw (find_number, e) (find_number-nonneg col test default rows h)
        | inr (v, e) ↦ elim (Bool-cases (test v)) [
          | inl t ↦ rw (find_number, e, t) (omega arith)
          | inr t ↦ rw (find_number, e, t) (find_number-nonneg col test default rows h)
        ]
      ]

  last-nonneg : (n : ℕ) → 0 < n → pos 0 ≤ℤ (pos n -ℤ pos 1)
  last-nonneg n h = rw (last_position n h) (omega arith)

  find_range_end-nonneg :
      (rows : List Row) (col : Text) (threshold : fl.Float64)
      → 0 < length rows
      → pos 0 ≤ℤ find_range_end fl rows col threshold
  unfolding find_range_end
  find_range_end-nonneg rows col threshold h =
      find_number-nonneg col _ _ _ (last-nonneg (length rows) h)

  range_end-nonneg :
      (rows : List Row) (col : Text) (current : fl.Float64) (bound : WindowFrameBoundary)
      → 0 < length rows
      → pos 0 ≤ℤ range_end fl rows col current bound
  unfolding range_end
  range_end-nonneg rows col current bound h = go (bound.bound_type)
    where
      go :
          (b : WindowFrameBound)
          → pos 0 ≤ℤ range_end fl rows col current (record bound { bound_type = b })
      go WindowFrameBound.unset = last-nonneg (length rows) h
      go WindowFrameBound.unbounded_preceding = find_range_end-nonneg rows col _ h
      go WindowFrameBound.n_preceding = find_range_end-nonneg rows col _ h
      go WindowFrameBound.current_row = find_range_end-nonneg rows col _ h
      go WindowFrameBound.n_following = find_range_end-nonneg rows col _ h
      go WindowFrameBound.unbounded_following = last-nonneg (length rows) h

  resolve_frame_range-Within :
      (rows : List Row) (current : ℕ) (frame : WindowFrame)
      → 0 < length rows
      → Within (length rows) (resolve_frame_range fl rows current frame)
  unfolding resolve_frame_range
  resolve_frame_range-Within [] current frame h = absurd (omega arith)
  resolve_frame_range-Within (row ∷ rows) current frame h =
      elim (Option-cases
        (fl.parse_float (get (value_or [] (get_elem? (row ∷ rows) current)) frame.order_by))) [
          | inl e ↦
              rw (resolve_frame_range, e, last_position (length (row ∷ rows)) h)
                (omega arith, omega arith)
          | inr (v, e) ↦
              rw (resolve_frame_range, e)
                (close_range-Within (length (row ∷ rows))
                  (range_start fl (row ∷ rows) frame.order_by v frame.start)
                  (range_end fl (row ∷ rows) frame.order_by v frame.end) h
                  (range_end-nonneg (row ∷ rows) frame.order_by v frame.end h))
        ]

  -- A window frame, by rows or by a range of values, begins at no negative position and ends at no
  -- position behind the last row, whatever its bounds are, in a partition that is not empty.
  pub get_frame_range-Within :
      (rows : List Row) (current : ℕ) (frame : Option WindowFrame)
      → 0 < length rows
      → Within (length rows) (get_frame_range fl rows current frame)
  unfolding get_frame_range
  get_frame_range-Within rows current none h =
      rw (last_position (length rows) h) (omega arith, omega arith)
  get_frame_range-Within rows current (some frame) h =
      elim (Bool-cases (is_rows frame.frame_type || frame.order_by == [])) [
        | inl e ↦ rw e (
          clamp_start-nonneg (resolve_frame_bound_row (length rows) current frame.start),
          clamp_end-bounded (length rows) (resolve_frame_bound_row (length rows) current frame.end)
              h,
        )
        | inr e ↦ rw e (resolve_frame_range-Within rows current frame h)
      ]
