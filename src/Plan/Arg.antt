-- ===== src/Plan/Arg.antt =====
-- The textual arguments of function calls and arithmetic over them (pkg/plan/plan.go).
-- `resolve_func_arg` and `eval_arithmetic_string` call each other on parts of their text: the
-- recursion is on fuel, and a text of length n needs n + 1 (Arg/Fuel).
pub mod Fuel
use mathlib.Core.Option
use gsql.Common.{
  ℕ, zero, suc, ◌-◌, Bool, true, false, not, ◌&&◌, ◌||◌, Option, none, some, List, [], ◌∷◌, map,
  ltb, eqb, drop, take, length, if◌then◌else◌,
}
use gsql.Common.Int.{ℤ, pos, ◌+ℤ◌, ◌-ℤ◌}
use gsql.Text.{Text, bytes, ◌==◌, index_byte, has_prefix, has_suffix, trim_space, contains_any}
use gsql.Map.{lookup}
use gsql.Float.{Floats, format_int}
use gsql.Plan.Row.{Row, strip_col_alias, value_or}
use gsql.Plan.Builtin.{Registry, FuncDef, lookup_func}

abbrev pub is_zero : ℤ → Bool
is_zero (pos zero) = true
is_zero _ = false

-- The depth after a byte; it may fall below zero.
abbrev pub step_depth : ℕ → ℤ → ℤ
step_depth c depth =
    if eqb c b'(' then depth +ℤ pos 1 else if eqb c b')' then depth -ℤ pos 1 else depth

abbrev pub push_front : ℕ → List Text → List Text
push_front x [] = (x ∷ []) ∷ []
push_front x (p ∷ ps) = (x ∷ p) ∷ ps

split_args_from : ℤ → Text → List Text
unfolding ◌+ℤ◌ ◌-ℤ◌
split_args_from depth [] = [] ∷ []
split_args_from depth (c ∷ s) =
    let rest = split_args_from (step_depth c depth) s in
    if eqb c b',' && is_zero depth then [] ∷ rest else push_front c rest

-- Splits at the commas outside parentheses.
unfoldable pub split_func_args : Text → List Text
unfolding split_args_from
split_func_args s = split_args_from (pos 0) s

abbrev pub is_operator : ℕ → Bool
is_operator c = eqb c b'+' || eqb c b'-' || eqb c b'*' || eqb c b'/'

-- The loop's `break` leaves the switch and not the loop, so that the last operator outside
-- parentheses is found, with its position.
find_op_from : ℕ → ℤ → Option (ℕ × ℕ) → Text → Option (ℕ × ℕ)
unfolding ◌+ℤ◌ ◌-ℤ◌
find_op_from i depth found [] = found
find_op_from i depth found (c ∷ s) =
    find_op_from (suc i) (step_depth c depth)
      (if is_operator c && is_zero depth then some (i, c) else found) s

unfoldable pub find_op : Text → Option (ℕ × ℕ)
unfolding find_op_from
find_op expr = find_op_from 0 (pos 0) none expr

-- The text without its first and its last byte, `s[1 : len(s)-1]`.
unfoldable pub inside : Text → Text
inside s = take (length s - 2) (drop 1 s)

abbrev pub is_wrapped : Text → Bool
is_wrapped s =
    has_prefix s (bytes "(") && has_suffix s (bytes ")") && not (has_suffix s (bytes "()"))

unfoldable pub strip_parens : ℕ → Text → Text
unfolding has_prefix has_suffix trim_space inside
strip_parens zero s = s
strip_parens (suc f) s =
    let rest = strip_parens f (trim_space (inside s)) in if is_wrapped s then rest else s

module _ (fl : Floats) where
  unfoldable pub format_float : fl.Float64 → Text
  unfolding format_int
  format_float f =
      if fl.eq f (fl.of_int (fl.to_int f)) then format_int (fl.to_int f) else fl.format_f f

  -- Both operands as numbers.
  unfoldable pub parse_both : Text → Text → Option (fl.Float64 × fl.Float64)
  parse_both left right = elim (fl.parse_float left) [
    | none ↦ none
    | some l ↦ Option.map (λ r. (l, r)) (fl.parse_float right)
  ]

  -- `none` is an operator outside the switch. Division by zero gives the empty text.
  unfoldable pub arithmetic : Text → fl.Float64 → fl.Float64 → Option Text
  unfolding format_float ◌==◌
  arithmetic op l r =
      if op == bytes "+"
      then some (format_float (fl.add l r))
      else if op == bytes "-"
      then some (format_float (fl.sub l r))
      else if op == bytes "*"
      then some (format_float (fl.mul l r))
      else if op == bytes "/"
      then some (if fl.eq r (fl.of_int (pos 0)) then [] else format_float (fl.div l r))
      else none

  -- Operands that are no numbers leave the text as it is.
  unfoldable pub eval_operands : Text → ℕ → Text → Text → Text
  unfolding parse_both arithmetic
  eval_operands expr op left right = elim (parse_both left right) [
    | none ↦ expr
    | some (l, r) ↦ elim (arithmetic (op ∷ []) l r) [ none ↦ expr | some t ↦ t ]
  ]

  -- The evaluation at the operator that was found.
  unfoldable pub eval_at : (Text → Text) → Text → Option (ℕ × ℕ) → Text
  unfolding trim_space eval_operands
  eval_at resolve expr none = expr
  eval_at resolve expr (some (i, op)) =
      eval_operands expr op (resolve (trim_space (take i expr)))
        (resolve (trim_space (drop (suc i) expr)))

  -- `resolve` is the call of resolveFuncArg on a shorter text.
  unfoldable pub eval_arithmetic_string : (Text → Text) → Text → Text
  unfolding strip_parens find_op eval_at
  eval_arithmetic_string resolve whole =
      let expr = strip_parens (length whole) (trim_space whole) in
      eval_at resolve expr (find_op expr)

  -- `fn.ScalarFn(args)`, if there is one.
  unfoldable pub call_scalar : Option FuncDef → List Text → Option Text
  call_scalar none args = none
  call_scalar (some fn) args = Option.map (λ scalar. scalar args) fn.scalar_fn

  module _ (builtins : Registry) where
    -- A call whose parenthesis is at a position.
    unfoldable pub nested_call_at : (Text → Text) → Text → Option ℕ → Option Text
    unfolding has_suffix trim_space split_func_args lookup_func call_scalar
    nested_call_at resolve arg none = none
    nested_call_at resolve arg (some idx) =
        if ltb 0 idx && has_suffix arg (bytes ")")
        then call_scalar (lookup_func builtins (trim_space (take idx arg))) (
            map resolve (split_func_args (trim_space (drop (suc idx) (take (length arg - 1) arg)))))
        else none

    -- `f(args)` with the arguments resolved, when the registry has a scalar function of the name.
    unfoldable pub nested_call : (Text → Text) → Text → Option Text
    unfolding index_byte nested_call_at
    nested_call resolve arg = nested_call_at resolve arg (index_byte b'(' arg)

    -- What is no column of the row: a call, arithmetic, or the text itself.
    unfoldable pub resolve_text : (Text → Text) → Text → Text
    unfolding nested_call contains_any eval_arithmetic_string
    resolve_text resolve arg =
        value_or
          (if contains_any arg (bytes "+-*/") then eval_arithmetic_string resolve arg else arg)
          (nested_call resolve arg)

    -- The exact key of the row, then the bare name.
    unfoldable pub resolve_step : (Text → Text) → Row → Text → Text
    unfolding lookup strip_col_alias resolve_text
    resolve_step resolve row arg =
        value_or (value_or (resolve_text resolve arg) (lookup (strip_col_alias arg) row))
          (lookup arg row)

    unfoldable pub resolve_fuel : ℕ → Row → Text → Text
    unfolding resolve_step
    resolve_fuel zero row arg = arg
    resolve_fuel (suc f) row arg = resolve_step (resolve_fuel f row) row arg

    unfoldable pub resolve_func_arg : Row → Text → Text
    unfolding resolve_fuel
    resolve_func_arg row arg = resolve_fuel (suc (length arg)) row arg
