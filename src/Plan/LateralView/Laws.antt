-- ===== src/Plan/LateralView/Laws.antt =====
-- What a LATERAL VIEW returns: a row for each element, with the columns of the input row.
use gsql.Common.{
  ℕ, zero, suc, ◌+◌, ◌≤◌, length, arith, false, ◌||◌, Option, none, some, List, [], ◌∷◌, ◌++◌,
  flat_map, All, ◌≡◌, refl, ap, ◌∙◌, inl, inr, Bool-cases,
}
use gsql.Text.{Text, ◌==◌, trim_space, itoa}
use gsql.Map.{lookup, insert, lookup-insert, or_else, lookup-insert_all}
use gsql.Plan.Row.{Row, get, copy_row}
use gsql.Plan.Iter.{RowIter, eof, fail, yield, append_iter, rows_of, end_of}
use gsql.Plan.LateralView.{
  LateralViewExplodeNode, elements_of, explode_map, explode_pos, explode, outer_row,
  expand_elements, expand, lateral_view_iter, pull, next_row, take_out, drain_next, on_pulled,
  rows_ahead,
}

rows_of-append_iter :
    (rows : List Row) (it : RowIter)
    → (rows_of (append_iter rows it) ≡ rows ++ rows_of it)
      × (end_of (append_iter rows it) ≡ end_of it)
unfolding append_iter rows_of end_of
rows_of-append_iter [] it = (refl, refl)
rows_of-append_iter (row ∷ rows) it =
    let ih = rows_of-append_iter rows it in (ap (λ l. row ∷ l) ih.0, ih.1)

-- The rows of each input row in turn.
unfoldable expanded : LateralViewExplodeNode → RowIter → RowIter
expanded n eof = eof
expanded n (fail e) = fail e
expanded n (yield row it) = append_iter (expand n row) (expanded n it)

rows_of-expanded :
    (n : LateralViewExplodeNode) (it : RowIter)
    → (rows_of (expanded n it) ≡ flat_map (expand n) (rows_of it))
      × (end_of (expanded n it) ≡ end_of it)
unfolding expanded rows_of end_of
rows_of-expanded n eof = (refl, refl)
rows_of-expanded n (fail e) = (refl, refl)
rows_of-expanded n (yield row it) =
    let ih = rows_of-expanded n it in
    let here = rows_of-append_iter (expand n row) (expanded n it) in
    (here.0 ∙ ap (λ l. expand n row ++ l) ih.0, here.1 ∙ ih.1)

module _ (n : LateralViewExplodeNode) where
  -- Draining from where no row is left of an input row.
  abbrev Drained : RowIter → Type 0
  Drained it =
      (f : ℕ) → rows_ahead n it ≤ f → on_pulled (drain_next f n) (pull n it) ≡ expanded n it

  take_out-Drained :
      (out : List Row) (it : RowIter) (f : ℕ)
      → Drained it
      → length out + rows_ahead n it ≤ f
      → on_pulled (drain_next f n) (take_out out it (pull n it)) ≡ append_iter out (expanded n it)
  unfolding drain_next on_pulled next_row take_out append_iter
  take_out-Drained [] it f h few = h f (omega arith)
  take_out-Drained (row ∷ out) it zero h few = absurd (omega arith)
  take_out-Drained (row ∷ out) it (suc f) h few =
      ap (yield row) (take_out-Drained out it f h (omega arith))

  pull-Drained : (it : RowIter) → Drained it
  unfolding on_pulled pull expanded rows_ahead
  pull-Drained eof f few = refl
  pull-Drained (fail e) f few = refl
  pull-Drained (yield row it) f few = take_out-Drained (expand n row) it f (pull-Drained it) few

-- The calls of Next of a LATERAL VIEW, with the rows that wait between them, return the rows of each
-- input row in turn, also behind input rows that have none, and end as the input ends.
pub rows_of-lateral_view_iter :
    (n : LateralViewExplodeNode) (it : RowIter)
    → (rows_of (lateral_view_iter n it) ≡ flat_map (expand n) (rows_of it))
      × (end_of (lateral_view_iter n it) ≡ end_of it)
unfolding lateral_view_iter drain_next next_row take_out
rows_of-lateral_view_iter n it =
    rw (pull-Drained n it (rows_ahead n it) (omega arith)) (rows_of-expanded n it)

lookup-copy_row : (j : Text) (row : Row) → lookup j (copy_row row) ≡ lookup j row
unfolding copy_row lookup
lookup-copy_row j row = lookup-insert_all j row [] ∙ unchanged (lookup j row)
  where
    unchanged : (o : Option Text) → or_else o none ≡ o
    unchanged none = refl
    unchanged (some v) = refl

module _ (n : LateralViewExplodeNode) (row : Row) (j : Text) (not_alias : (n.alias == j) ≡ false)
    (not_pos : (n.pos_alias == j) ≡ false) where
  -- The column reads as in the input row.
  abbrev Kept : Row → Type 0
  Kept new_row = lookup j new_row ≡ lookup j row

  Kept-one : (v : Text) → Kept (insert n.alias v (copy_row row))
  Kept-one v = lookup-insert n.alias j v (copy_row row) ∙ rw not_alias (lookup-copy_row j row)

  Kept-both : (v w : Text) → Kept (insert n.pos_alias w (insert n.alias v (copy_row row)))
  Kept-both v w =
      lookup-insert n.pos_alias j w (insert n.alias v (copy_row row)) ∙ rw not_pos (Kept-one v)

  Kept-map : (v w : Text) → Kept (insert n.alias v (insert n.pos_alias w (copy_row row)))
  Kept-map v w =
      lookup-insert n.alias j v (insert n.pos_alias w (copy_row row))
      ∙ rw not_alias
          (lookup-insert n.pos_alias j w (copy_row row) ∙ rw not_pos (lookup-copy_row j row))

  explode-Kept : (elements : List Text) → All Kept (explode n row elements)
  unfolding explode
  explode-Kept [] = tt
  explode-Kept (e ∷ elements) = (Kept-one (trim_space e), explode-Kept elements)

  explode_pos-Kept : (i : ℕ) (elements : List Text) → All Kept (explode_pos n row i elements)
  unfolding explode_pos
  explode_pos-Kept i [] = tt
  explode_pos-Kept i (e ∷ elements) =
      (Kept-both (trim_space e) (itoa i), explode_pos-Kept (suc i) elements)

  explode_map-Kept : (elements : List Text) → All Kept (explode_map n row elements)
  unfolding explode_map
  explode_map-Kept [] = tt
  explode_map-Kept (k ∷ []) = tt
  explode_map-Kept (k ∷ v ∷ elements) =
      (Kept-map (trim_space v) (trim_space k), explode_map-Kept elements)

  expand_elements-Kept : (elements : List Text) → All Kept (expand_elements n row elements)
  unfolding expand_elements outer_row
  expand_elements-Kept [] = elim (Bool-cases n.is_outer) [
    | inl e ↦ elim (Bool-cases (n.with_pos || n.with_map)) [
      | inl w ↦ rw (e, w) (Kept-both [] [], tt)
      | inr w ↦ rw (e, w) (Kept-one [], tt)
    ]
    | inr e ↦ rw e tt
  ]
  expand_elements-Kept (x ∷ elements) = elim (Bool-cases n.with_map) [
    | inl e ↦ rw e (explode_map-Kept (x ∷ elements))
    | inr e ↦ elim (Bool-cases n.with_pos) [
      | inl f ↦ rw (e, f) (explode_pos-Kept 0 (x ∷ elements))
      | inr f ↦ rw (e, f) (explode-Kept (x ∷ elements))
    ]
  ]

  -- Every row that an input row is expanded to has the input row's value, or none, in each column that
  -- is not one of the two aliases.
  pub expand-Kept : All (λ new_row. lookup j new_row ≡ lookup j row) (expand n row)
  unfolding expand
  expand-Kept = expand_elements-Kept (elements_of (get row n.col))
