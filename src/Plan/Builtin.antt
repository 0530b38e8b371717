-- ===== src/Plan/Builtin.antt =====
-- The registry of functions and the comparison of values (pkg/plan/builtin.go).
use gsql.Common.{ℕ, Bool, false, Option, none, some, List, [], ◌∷◌, if◌then◌else◌}
use gsql.Text.{Text, bytes, ◌==◌, to_upper, text_lt, text_le}
use gsql.Map.{Map, lookup, insert}
use gsql.Float.{Floats}
use gsql.Parser.Ast.{SortOrder}
use gsql.Plan.Row.{Row}

pub data FuncType : Type 0 where
  func_scalar func_aggregate func_window : FuncType

-- A nil function field is `none`. A window function returns the rows with its column set.
pub record FuncDef : Type 0 where
  pub name : Text
  pub type : FuncType
  pub min_args : ℕ
  pub max_args : ℕ
  pub scalar_fn : Option (List Text → Text)
  pub agg_fn : Option (List Row → Text → Bool → List Text → Text)
  pub window_fn : Option (List Row → List Text → List SortOrder → Text → List Row)

abbrev pub Registry : Type 0
Registry = Map FuncDef

unfoldable pub register_func : FuncDef → Registry → Registry
unfolding insert to_upper
register_func def builtins =
    insert (to_upper def.name) (record def { name = to_upper def.name }) builtins

unfoldable pub lookup_func : Registry → Text → Option FuncDef
unfolding lookup to_upper
lookup_func builtins name = lookup (to_upper name) builtins

unfoldable pub compute_aggregate : Registry → List Row → Text → Text → Bool → List Text → Text
unfolding lookup_func
compute_aggregate builtins rows func_name column distinct args =
    elim (lookup_func builtins func_name) [
      | none ↦ []
      | some fn ↦ elim (fn.agg_fn) [ none ↦ [] | some agg ↦ agg rows column distinct args ]
    ]

module _ (fl : Floats) where
  unfoldable pub to_float : Text → Option fl.Float64
  to_float [] = none
  to_float (c ∷ s) = fl.parse_float (c ∷ s)

  -- `a op b` by the switch on the operator; the other operators fall through it.
  unfoldable pub compare_texts : Text → Text → Text → Bool
  unfolding text_lt text_le ◌==◌
  compare_texts a b op =
      if op == bytes "<"
      then text_lt a b
      else if op == bytes ">"
      then text_lt b a
      else if op == bytes "<="
      then text_le a b
      else if op == bytes ">="
      then text_le b a
      else false

  unfoldable pub compare_floats : fl.Float64 → fl.Float64 → Text → Bool
  unfolding ◌==◌
  compare_floats fa fb op =
      if op == bytes "<"
      then fl.lt fa fb
      else if op == bytes ">"
      then fl.lt fb fa
      else if op == bytes "<="
      then fl.le fa fb
      else if op == bytes ">="
      then fl.le fb fa
      else false

  -- With an operator outside the switch the second switch returns false as well.
  unfoldable pub compare_values : Text → Text → Text → Bool
  unfolding to_float compare_texts compare_floats
  compare_values a b op = elim (to_float a) [
    | none ↦ compare_texts a b op
    | some fa ↦ elim (to_float b) [
      | none ↦ compare_texts a b op
      | some fb ↦ compare_floats fa fb op
    ]
  ]
