-- ===== src/Plan/Eval.antt =====
-- The evaluation of expressions against a row (pkg/plan/plan.go).
use gsql.Common.{
  Bool, true, false, not, ◌&&◌, ◌||◌, none, some, List, [], ◌++◌, map, eqb, any, if◌then◌else◌,
}
use gsql.Common.Int.{pos}
use gsql.Text.{
  Text, bytes, ◌==◌, to_upper, has_prefix, has_suffix, trim_prefix, trim_suffix, trim_func,
  contains,
}
use gsql.Float.{Floats}
use gsql.Parser.Ast.{
  Expression, Branches, nil, comparison, logical, null_test, in_expr, binary, column_ref, case_expr,
  literal, func_call, no_branch, branch,
}
use gsql.Plan.Row.{Row, project_row_value}
use gsql.Plan.Builtin.{Registry, lookup_func, compare_values}
use gsql.Plan.Arg.{parse_both, arithmetic, resolve_func_arg}

unfoldable pub string_in_slice : Text → List Text → Bool
unfolding ◌==◌
string_in_slice s list = any (λ item. s == item) list

unfoldable pub match_like : Text → Text → Bool
unfolding ◌==◌ has_prefix has_suffix trim_prefix trim_suffix trim_func contains
match_like value pattern =
    if pattern == bytes "%"
    then true
    else if has_prefix pattern (bytes "%") && has_suffix pattern (bytes "%")
    then contains value (trim_func (λ c. eqb c b'%') pattern)
    else if has_prefix pattern (bytes "%")
    then has_suffix value (trim_prefix pattern (bytes "%"))
    else if has_suffix pattern (bytes "%")
    then has_prefix value (trim_suffix pattern (bytes "%"))
    else value == pattern

abbrev pub is_nil : Expression → Bool
is_nil nil = true
is_nil _ = false

abbrev pub bool_text : Bool → Text
bool_text b = if b then bytes "true" else bytes "false"

-- The truth value of `left op right` for a logical operator.
unfoldable pub logical_op : Text → Bool → Bool → Bool
unfolding to_upper ◌==◌
logical_op op left right =
    if to_upper op == bytes "AND"
    then left && right
    else if to_upper op == bytes "OR"
    then left || right
    else false

module _ (fl : Floats) where
  unfoldable pub compare_op : Text → Text → Text → Bool
  unfolding ◌==◌ match_like compare_values
  compare_op op left right =
      if op == bytes "="
      then left == right
      else if op == bytes "!="
      then not (left == right)
      else if op == bytes "LIKE"
      then match_like left right
      else if op == bytes "<" || op == bytes ">" || op == bytes "<=" || op == bytes ">="
      then compare_values fl left right op
      else false

  abbrev nonzero : fl.Float64 → Bool
  nonzero f = not (fl.eq f (fl.of_int (pos 0)))

  unfoldable pub binary_test : Text → fl.Float64 → fl.Float64 → Bool
  unfolding ◌==◌
  binary_test op l r =
      if op == bytes "+"
      then nonzero (fl.add l r)
      else if op == bytes "-"
      then nonzero (fl.sub l r)
      else if op == bytes "*"
      then nonzero (fl.mul l r)
      else if op == bytes "/"
      then (if fl.eq r (fl.of_int (pos 0)) then false else nonzero (fl.div l r))
      else false

  unfoldable pub binary_value : Text → Text → Text → Text
  unfolding ◌==◌ parse_both arithmetic
  binary_value op left right =
      if op == bytes "||" then left ++ right else elim (parse_both fl left right) [
        | none ↦ []
        | some (l, r) ↦ elim (arithmetic fl op l r) [ none ↦ [] | some t ↦ t ]
      ]

  module _ (builtins : Registry) where
    -- A call of a scalar function.
    unfoldable pub call_value : Row → Text → List Text → Text
    unfolding lookup_func resolve_func_arg
    call_value row name args = elim (lookup_func builtins name) [
      | none ↦ []
      | some fn ↦ elim (fn.scalar_fn) [
        | none ↦ []
        | some scalar ↦ scalar (map (resolve_func_arg fl builtins row) args)
      ]
    ]

    unfoldable mutual
      unfolding call_value compare_op logical_op project_row_value string_in_slice binary_test
          binary_value ◌==◌ parse_both

      -- evaluateExpression: the truth value
      pub evaluate : Row → Expression → Bool
      evaluate row (comparison column op value right_column e) =
          compare_op op
            (if not (is_nil e)
              then evaluate_value row e
              else if column == []
              then value
              else project_row_value row column)
            (if right_column == [] then value else project_row_value row right_column)
      evaluate row (func_call name args) =
          let val = call_value row name args in
          val == bytes "true" || val == bytes "TRUE" || val == bytes "1"
      evaluate row (logical l op r) = logical_op op (evaluate row l) (evaluate row r)
      evaluate row (null_test column is_null) =
          let val = project_row_value row column in if is_null then val == [] else not (val == [])
      evaluate row (in_expr column negated values subquery) =
          let val = project_row_value row column in
          if negated then not (string_in_slice val values) else string_in_slice val values
      evaluate row (binary l op r) =
          elim (parse_both fl (evaluate_value row l) (evaluate_value row r)) [
            | none ↦ false
            | some (x, y) ↦ binary_test op x y
          ]
      evaluate row _ = false

      -- evaluateExpressionValue: the value as text
      pub evaluate_value : Row → Expression → Text
      evaluate_value row (column_ref name) = project_row_value row name
      evaluate_value row (comparison column op value right_column e) =
          if not (is_nil e)
          then evaluate_value row e
          else if not (right_column == [])
          then project_row_value row right_column
          else if column == []
          then value
          else project_row_value row column
      evaluate_value row (null_test column is_null) =
          let val = project_row_value row column in
          bool_text (if is_null then val == [] else not (val == []))
      evaluate_value row (func_call name args) = call_value row name args
      evaluate_value row (logical l op r) =
          bool_text (logical_op op (evaluate row l) (evaluate row r))
      evaluate_value row (case_expr bs e) = case_value row (evaluate_value row e) bs
      evaluate_value row (literal value) = value
      evaluate_value row (binary l op r) =
          binary_value op (evaluate_value row l) (evaluate_value row r)
      evaluate_value row _ = []

      -- The result of the first branch whose condition holds, or that of ELSE.
      pub case_value : Row → Text → Branches → Text
      case_value row other no_branch = other
      case_value row other (branch c r bs) =
          let rest = case_value row other bs in
          if evaluate row c then evaluate_value row r else rest
