-- ===== src/Plan/LateralView.antt =====
-- LATERAL VIEW: one input row becomes a row for each element of a column (lateralViewIter of
-- pkg/plan/plan.go).
pub mod Laws
use gsql.Common.{
  ℕ, zero, suc, ◌+◌, Bool, true, false, ◌||◌, Option, none, some, List, [], ◌∷◌, ◌++◌, map, length,
  flat_map, All, ◌≡◌, refl, ap, ◌∙◌, arith, if◌then◌else◌, append_assoc,
}
use gsql.Text.{Text, ◌==◌, split, trim_space, itoa, eq_iff}
use gsql.Map.{lookup, insert, lookup-insert, or_else, lookup-insert_all}
use gsql.Plan.Row.{Row, get, copy_row}
use gsql.Result.{Error}
use gsql.Plan.Iter.{RowIter, eof, fail, yield, append_iter, rows_of, end_of}

pub record LateralViewExplodeNode : Type 0 where
  pub col : Text
  pub alias : Text
  pub pos_alias : Text
  pub is_outer : Bool
  pub with_pos : Bool
  pub with_map : Bool

-- An empty value has no element.
unfoldable pub elements_of : Text → List Text
unfolding split
elements_of [] = []
elements_of (c ∷ s) = split b',' (c ∷ s)

-- EXPLODE(map): key and value by turns; a last key without a value is dropped.
unfoldable pub explode_map : LateralViewExplodeNode → Row → List Text → List Row
unfolding copy_row insert trim_space
explode_map n row (k ∷ v ∷ elements) =
    insert n.alias (trim_space v) (insert n.pos_alias (trim_space k) (copy_row row))
    ∷ explode_map n row elements
explode_map n row _ = []

-- POSEXPLODE: the elements with their positions.
unfoldable pub explode_pos : LateralViewExplodeNode → Row → ℕ → List Text → List Row
unfolding copy_row insert trim_space itoa
explode_pos n row idx [] = []
explode_pos n row idx (elem ∷ elements) =
    insert n.pos_alias (itoa idx) (insert n.alias (trim_space elem) (copy_row row))
    ∷ explode_pos n row (suc idx) elements

-- EXPLODE
unfoldable pub explode : LateralViewExplodeNode → Row → List Text → List Row
unfolding copy_row insert trim_space
explode n row [] = []
explode n row (elem ∷ elements) =
    insert n.alias (trim_space elem) (copy_row row) ∷ explode n row elements

-- OUTER: the row that stays when there is no element.
unfoldable pub outer_row : LateralViewExplodeNode → Row → Row
unfolding copy_row insert
outer_row n row =
    let new_row = insert n.alias [] (copy_row row) in
    if n.with_pos || n.with_map then insert n.pos_alias [] new_row else new_row

unfoldable pub expand_elements : LateralViewExplodeNode → Row → List Text → List Row
unfolding explode_map explode_pos explode outer_row
expand_elements n row [] = if n.is_outer then outer_row n row ∷ [] else []
expand_elements n row (e ∷ elements) =
    if n.with_map
    then explode_map n row (e ∷ elements)
    else if n.with_pos
    then explode_pos n row 0 (e ∷ elements)
    else explode n row (e ∷ elements)

unfoldable pub expand : LateralViewExplodeNode → Row → List Row
unfolding elements_of expand_elements get
expand n row = expand_elements n row (elements_of (get row n.col))

-- lateralViewIter: the rows that are left of one input row, and the input behind it.
pub record LateralViewIter : Type 0 where
  pub child : RowIter
  pub out : List Row

-- What a call of Next returns, with the iterator behind it.
pub data Pulled : Type 0 where
  ended : Pulled
  failed : Error → Pulled
  got : Row → LateralViewIter → Pulled

-- `it.out = out` and the next turn of the loop, or `again` where an input row has no rows.
unfoldable pub take_out : List Row → RowIter → Pulled → Pulled
take_out [] child again = again
take_out (row ∷ out) child again = got row (record { child = child; out = out })

-- Next, while there is no row left: asks the child until an input row has rows.
unfoldable pub pull : LateralViewExplodeNode → RowIter → Pulled
unfolding expand take_out
pull n eof = ended
pull n (fail e) = failed e
pull n (yield input child) = take_out (expand n input) child (pull n child)

unfoldable pub next_row : LateralViewExplodeNode → LateralViewIter → Pulled
unfolding pull take_out
next_row n it = take_out it.out it.child (pull n it.child)

-- What a call returned, before what the later ones return.
unfoldable pub on_pulled : (LateralViewIter → RowIter) → Pulled → RowIter
on_pulled later ended = eof
on_pulled later (failed e) = fail e
on_pulled later (got row it) = yield row (later it)

-- The calls of Next, as many as the fuel allows.
unfoldable pub drain_next : ℕ → LateralViewExplodeNode → LateralViewIter → RowIter
unfolding next_row on_pulled
drain_next zero n it = eof
drain_next (suc f) n it = on_pulled (drain_next f n) (next_row n it)

-- How many rows there are.
unfoldable pub rows_ahead : LateralViewExplodeNode → RowIter → ℕ
unfolding expand
rows_ahead n eof = 0
rows_ahead n (fail e) = 0
rows_ahead n (yield row it) = length (expand n row) + rows_ahead n it

unfoldable pub lateral_view_iter : LateralViewExplodeNode → RowIter → RowIter
unfolding drain_next rows_ahead
lateral_view_iter n it = drain_next (suc (rows_ahead n it)) n (record { child = it; out = [] })
