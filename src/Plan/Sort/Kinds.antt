-- ===== src/Plan/Sort/Kinds.antt =====
-- Sorting by columns that hold numbers only or no numbers (sortRows and compareNumeric of
-- pkg/plan/plan.go): there the comparison is an order.
use gsql.Common.{zero, suc, Bool, true, false, not, ◌&&◌, ◌||◌, Option, none, some, List, All}
use gsql.Common.Int.{ℤ, pos, negsuc}
use gsql.Text.{Text}
use gsql.Sort.Contract.{IsWeakOrder}
use gsql.Float.{Floats}
use gsql.Parser.Ast.{SortOrder}
use gsql.Plan.Row.{Row, project_row_value}

abbrev is_neg : ℤ → Bool
is_neg (negsuc n) = true
is_neg (pos n) = false

abbrev is_pos : ℤ → Bool
is_pos (negsuc n) = false
is_pos (pos zero) = false
is_pos (pos (suc n)) = true

-- A test by one key, from whether it is less and whether it is greater.
abbrev lex : Bool → Bool → Bool → Bool → Bool
lex true lt gt rest = gt || not lt && rest
lex false lt gt rest = lt || not gt && rest

module _ (fl : Floats) (Number : fl.Float64 → Type 0) (weak : IsWeakOrder fl.lt Number) where
  -- What a value parses to, in a column of numbers and in one without.
  abbrev pub IsKind : Bool → Option fl.Float64 → Type 0
  IsKind true (some x) = Number x
  IsKind true none = ⊥
  IsKind false (some x) = ⊥
  IsKind false none = Unit

  module _ (kinds : Text → Bool) (order_by : List SortOrder) where
    -- The values of every sort column are of the kind of the column.
    abbrev pub HasKinds : Row → Type 0
    HasKinds row =
        All
          (λ (o : SortOrder).
            IsKind (kinds o.column) (fl.parse_float (project_row_value row o.column)))
          order_by
