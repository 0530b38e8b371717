-- ===== src/Parser/Progress/Expr.antt =====
-- Conditions and CAST.
use gsql.Common.{ℕ, zero, suc, ◌<◌, arith, Bool}
use gsql.Text.{Text}
use gsql.Parser.Token.{same_type}
use gsql.Parser.Ast.{Expression}
use gsql.Parser.Arithmetic.{Calls}
use gsql.Parser.Expr.{
  cast_operand, parse_cast_expr, null_check, compared_with, in_subquery, in_values, parse_in_expr,
  comparison_tail, parse_post_func_call, go_on, called, exists_subquery, column_comparison,
  parenthesised_condition, not_a_column, parse_comparison, logical_rest, parse_expression,
  calls_ahead, is_connective,
}
use gsql.Parser.Progress.{Free, Eats, Free-below, Free-pred, Passes, Free-Eats}
use gsql.Parser.Progress.Rules.{moving}
use gsql.Parser.Progress.Lists.{
  parse_dotted_identifier-Free, parse_dotted_identifier-Eats, is_literal-Passes, values_row-Eats,
}
use gsql.Parser.Progress.Arithmetic.{IsFree, IsFree-le, parse_arithmetic_expr-Free}

cast_operand-Free : (n f : ℕ) → n < f → Free (suc n) (cast_operand f)
unfolding cast_operand
cast_operand-Free n f h =
    search (moving, parse_dotted_identifier-Free, is_literal-Passes) depth 40 fits 20000

pub parse_cast_expr-Eats : (n f : ℕ) → n < f → Eats (suc n) (parse_cast_expr f)
unfolding parse_cast_expr
parse_cast_expr-Eats n f h =
    let operand : Free n (cast_operand f) = Free-pred (cast_operand-Free n f h) in
    search moving depth 40 fits 20000

null_check-Free : (n : ℕ) (column : Text) → Free n (null_check column)
unfolding null_check
null_check-Free n column = search moving depth 40 fits 20000

compared_with-Free :
    (n f : ℕ) (column op : Text) (e : Expression)
    → n < f
    → Free (suc n) (compared_with f column op e)
unfolding compared_with
compared_with-Free n f column op e h =
    search (moving, parse_dotted_identifier-Free, is_literal-Passes) depth 40 fits 20000

pub calls_ahead-Passes : Passes calls_ahead
unfolding same_type
calls_ahead-Passes = record { not_eof = λ t a e. rw e }

is_connective-Passes : Passes is_connective
unfolding same_type
is_connective-Passes = record { not_eof = λ t a e. rw e }

module _ (c : Calls) (n f : ℕ) (h : n < f) (s : IsFree n c) where
  in_subquery-Free : (column : Text) (negated : Bool) → Free n (in_subquery c column negated)
  unfolding in_subquery
  in_subquery-Free column negated =
      let query : Free n c.select_query = Free-Eats s.select_query in
      search moving depth 40 fits 20000

  in_values-Free : (column : Text) (negated : Bool) → Free n (in_values c f column negated)
  unfolding in_values
  in_values-Free column negated =
      let values = λ (text : Text). Free-pred (Free-Eats (values_row-Eats n f text h)) in
      search (moving, values) depth 40 fits 20000

  parse_in_expr-Free :
      (column : Text) (negated : Bool) → Free (suc n) (parse_in_expr c f column negated)
  unfolding parse_in_expr
  parse_in_expr-Free column negated =
      search (moving, in_subquery-Free, in_values-Free) depth 40 fits 20000

  comparison_tail-Free :
      (column : Text) (e : Expression) (text : Text)
      → Free (suc n) (comparison_tail c f column e text)
  unfolding comparison_tail
  comparison_tail-Free column e text =
      search (moving, parse_in_expr-Free, compared_with-Free, null_check-Free) depth 40 fits 20000

  go_on-Free : (e : Expression) → Free (suc n) (go_on c f e)
  unfolding go_on parse_post_func_call
  go_on-Free e = search (moving, comparison_tail-Free) depth 40 fits 20000

  called-Free : (name : Text) → Free n (called c f name)
  unfolding called
  called-Free name =
      let args : Free n c.func_args = s.func_args in
      let rest = λ (e : Expression). Free-pred (go_on-Free e) in
      search (moving, rest) depth 40 fits 20000

  exists_subquery-Free :
      (negated : Bool) (words : Text) → Free (suc n) (exists_subquery c negated words)
  unfolding exists_subquery
  exists_subquery-Free negated words =
      let query : Free n c.select_query = Free-Eats s.select_query in
      search moving depth 40 fits 20000

  column_comparison-Free : Free (suc n) (column_comparison c f)
  unfolding column_comparison
  column_comparison-Free =
      let arithmetic = λ (e : Expression). Free-pred (parse_arithmetic_expr-Free c n f e h s) in
      let rest = λ (column : Text) (e : Expression) (text : Text).
        Free-pred (comparison_tail-Free column e text) in
      search (moving, arithmetic, rest, parse_dotted_identifier-Eats) depth 40 fits 20000

  parenthesised_condition-Free : Free n (parenthesised_condition c)
  unfolding parenthesised_condition
  parenthesised_condition-Free =
      let inside : Free n c.expression = s.expression in search moving depth 40 fits 20000

  not_a_column-Free : Free (suc n) (not_a_column c)
  unfolding not_a_column
  not_a_column-Free = search moving depth 40 fits 20000

  pub parse_comparison-Free : Free (suc n) (parse_comparison c f)
  unfolding parse_comparison
  parse_comparison-Free =
      let rest = λ (e : Expression). Free-pred (go_on-Free e) in
      search
        (
          moving, exists_subquery-Free, called-Free, parse_cast_expr-Eats, rest,
          column_comparison-Free, parenthesised_condition-Free, not_a_column-Free,
          calls_ahead-Passes,
        )
        depth 40 fits 20000

module _ (c : Calls) where
  logical_rest-Free :
      (n f : ℕ) (e : Expression) → n < f → IsFree n c → Free (suc n) (logical_rest c f e)
  unfolding logical_rest
  logical_rest-Free n zero e h s = absurd (omega arith)
  logical_rest-Free n (suc f) e h s =
      let again = λ (d : Expression).
        Free-below {n = n}
          λ k b. logical_rest-Free k f d (omega arith) (IsFree-le k n c (omega arith) s) in
      let operand : Free n (parse_comparison c (suc f)) =
        Free-pred (parse_comparison-Free c n (suc f) h s) in
      search (moving, again, is_connective-Passes) depth 40 fits 20000

  pub parse_expression-Free : (n f : ℕ) → n < f → IsFree n c → Free (suc n) (parse_expression c f)
  unfolding parse_expression
  parse_expression-Free n f h s =
      search (moving, parse_comparison-Free, logical_rest-Free) depth 40 fits 20000
