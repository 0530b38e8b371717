-- ===== src/Plan/Sort.antt =====
-- The ordering of rows (sortRows and compareNumeric of pkg/plan/plan.go).
pub mod Laws
pub mod Kinds
use gsql.Common.{zero, suc, Bool, true, false, Option, none, some, List, [], ◌∷◌, if◌then◌else◌}
use gsql.Common.Int.{ℤ, pos, negsuc, ltb_ℤ}
use gsql.Text.{Text, ◌==◌, text_lt}
use gsql.Float.{Floats}
use gsql.Parser.Ast.{SortOrder}
use gsql.Plan.Row.{Row, project_row_value}
use gsql.Sort.{stable_sort}

module _ (fl : Floats) where
  abbrev pub order_floats : fl.Float64 → fl.Float64 → ℤ
  order_floats fa fb = if fl.lt fa fb then negsuc 0 else if fl.lt fb fa then pos 1 else pos 0

  abbrev pub order_texts : Text → Text → ℤ
  order_texts a b = if text_lt a b then negsuc 0 else pos 1

  -- Two different texts with what they parse to.
  abbrev pub order_parsed : Option fl.Float64 → Option fl.Float64 → Text → Text → ℤ
  order_parsed (some fa) (some fb) a b = order_floats fa fb
  order_parsed _ _ a b = order_texts a b

  -- -1, 0 or 1: as numbers if both are, as texts otherwise.
  unfoldable pub compare_numeric : Text → Text → ℤ
  unfolding ◌==◌ text_lt
  compare_numeric a b =
      if a == b then pos 0 else order_parsed (fl.parse_float a) (fl.parse_float b) a b

  -- Comparing by one key: `desc` wants cmp > 0, else cmp < 0; `rest` is the test by the later keys.
  unfoldable pub by_key : Bool → ℤ → Bool → Bool
  by_key desc (pos zero) rest = rest
  by_key desc (pos (suc n)) rest = if desc then true else false
  by_key desc (negsuc n) rest = if desc then false else true

  -- The `less` of sortRows.
  unfoldable pub sort_less : List SortOrder → Row → Row → Bool
  unfolding compare_numeric by_key project_row_value
  sort_less [] a b = false
  sort_less (o ∷ order_by) a b =
      by_key o.desc (compare_numeric (project_row_value a o.column) (project_row_value b o.column))
        (sort_less order_by a b)

  unfoldable pub sort_rows : List Row → List SortOrder → List Row
  unfolding stable_sort sort_less
  sort_rows rows order_by = stable_sort (sort_less order_by) rows
