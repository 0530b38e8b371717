-- ===== src/Plan/Row.antt =====
-- Rows, and how a column reference is resolved against one (pkg/plan/plan.go).
use gsql.Common.{
  ℕ, ◌+◌, ◌-◌, Bool, false, ◌&&◌, Option, none, some, [], ◌∷◌, ◌++◌, ltb, leb, drop, get_elem?,
  if◌then◌else◌,
}
use mathlib.Core.Option
use gsql.Text.{Text, bytes, ◌==◌, index_byte, has_prefix}
use gsql.Map.{Map, lookup, insert_all}

-- pkg/storage.Row: a map from column names to values
abbrev pub Row : Type 0
Row = Map Text

abbrev pub value_or {ℓ} : {A : Type ℓ} → A → Option A → A
value_or d none = d
value_or d (some a) = a

-- `row[k]`: a missing key reads as "".
unfoldable pub get : Row → Text → Text
unfolding lookup
get row k = value_or [] (lookup k row)

-- Copies every entry into a new map.
unfoldable pub copy_row : Row → Row
unfolding insert_all
copy_row row = insert_all row []

abbrev is_digit_at : Text → ℕ → Bool
is_digit_at s i = value_or false (Option.map (λ c. leb b'0' c && leb c b'9') (get_elem? s i))

unfoldable pub strip_col_alias : Text → Text
unfolding index_byte
strip_col_alias col = elim (index_byte b'.' col) [
  | none ↦ col
  | some idx ↦
      if ltb 0 idx && is_digit_at col (idx - 1) && is_digit_at col (idx + 1)
      then col
      else drop (idx + 1) col
]

-- The value of the first key with the prefix.
unfoldable pub first_with_prefix : Text → Row → Text
unfolding has_prefix
first_with_prefix prefix [] = []
first_with_prefix prefix ((k, v) ∷ row) =
    if has_prefix k prefix then v else first_with_prefix prefix row

unfoldable pub project_row_value : Row → Text → Text
unfolding lookup strip_col_alias first_with_prefix ◌==◌
project_row_value row col = elim (lookup col row) [
  | some val ↦ val
  | none ↦
      let bare = strip_col_alias col in
      elim (lookup bare row) [
        | some val ↦ val
        | none ↦ if bare == col then first_with_prefix (bare ++ bytes ".") row else []
      ]
]
