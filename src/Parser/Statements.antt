-- ===== src/Parser/Statements.antt =====
pub mod Arithmetic
-- pkg/parser/parser.go: statements, and the loop of `Parse`.
use gsql.Common.{
  ℕ, zero, suc, Bool, true, false, Option, none, some, List, [], ◌∷◌, ◌++◌, length, if◌then◌else◌,
}
use gsql.Text.{Text, bytes}
use gsql.Parser.Ast.{Statement, SelectQuery, Expression, nil, no_query}
use gsql.Parser.Token.{TokenType, Token, same_type, token_name}
use gsql.Parser.Source.{remove_comments}
use gsql.Parser.State.{
  Parser, Outcome, P, ◌>>=◌, ◌>>◌, pure, fail, out_of_fuel, next_token, look, accept, accept_if,
  accept_peek, require, need, need_peek, message, new_parser,
}
use gsql.Parser.Arithmetic.{Calls}
use gsql.Parser.Lists.{
  equal_fold, dotted_rest, parse_dotted_identifier, parse_dotted_list, parse_direction,
  parse_order_by_list, is_literal, values_row, values_rows, parse_values_clause,
}
use gsql.Parser.CreateTable.{
  signed_default, default_of, parse_default_literal, optional_default, parse_column,
  parse_column_definitions, option_error, option_equal, parse_option, parse_with_options,
  partition_columns, partition_list, parse_partitioned_by, parse_create_table,
}
use gsql.Parser.Arithmetic.{
  expr_to_string, arithmetic_precedence, is_arithmetic_op, case_branches, parse_case_expr,
  parenthesised, parse_arithmetic_primary, raise_operand, parse_arithmetic_binary,
  parse_arithmetic_expr,
}
use gsql.Parser.Expr.{
  is_comparison_operator, differs_from_all, is_keyword, cast_operand, parse_cast_expr, null_check,
  compared_with, in_subquery, in_values, parse_in_expr, comparison_tail, parse_post_func_call,
  parse_post_aggregate_op, go_on, called, exists_subquery, column_comparison,
  parenthesised_condition, not_a_column, parse_comparison, logical_rest, parse_expression,
}
use gsql.Parser.WindowSpec.{
  nested_argument, column_argument, negative_argument, func_argument, func_arguments,
  parse_func_args, digits_value, in_int, atoi, bound_side, current_row_bound, number_bound,
  parse_window_frame_bound, parse_window_frame, dropped_error, frame_or_none, keyword_by,
  parse_frame, parse_window_features, window_name, parse_window_spec,
}
use gsql.Parser.SelectItems.{
  contains_column, key_from, unique_window_key, add_expr, set_last_expr, set_last, alias_here,
  optional_alias, alias_behind_as, alias_ahead, strip_key, case_item, cast_item, literal_arithmetic,
  literal_item, window_item, call_item, qualified_name, computed_item, column_item, select_item,
  select_items, parse_select_items,
}
use gsql.Parser.From.{
  optional_name, from_rows, names, value_columns, from_values, from_subquery, from_table,
  from_clause, join_words, join_on, join_clause, next_join, join_clauses, explode_name,
  more_columns, lateral_view, lateral_views,
}
use gsql.Parser.Select.{
  inherit, based_on, resolve_definition, referenced, resolve_reference, resolve_references,
  new_window_name, window_definition, window_definitions, window_clause, atoi_error, limit_value,
  limit_number, limit_clause, union_query, union_clause, parse_cte_list, group_clause, behind_items,
  select_core, parse_select_query,
}

-- The methods that call one another, to a depth.
unfoldable pub calls : ℕ → Calls
calls zero = record {
  expression = out_of_fuel;
  select_query = out_of_fuel;
  arithmetic_binary = λ left least. out_of_fuel;
  arithmetic_expr = out_of_fuel;
  func_args = out_of_fuel;
}
calls (suc f) = record {
  expression = parse_expression (calls f) (suc f);
  select_query = parse_select_query (calls f) (suc f);
  arithmetic_binary = λ left least. parse_arithmetic_binary (calls f) (suc f) left least;
  arithmetic_expr = parse_arithmetic_expr (calls f) (suc f) nil;
  func_args = parse_func_args (calls f) (suc f);
}

-- INTO appends, OVERWRITE does not.
unfoldable pub insert_mode : P Bool
insert_mode = accept_peek TokenType.into (pure true) (
    accept_peek TokenType.overwrite (pure false)
      (fail (bytes "expected INTO or OVERWRITE after INSERT")))

abbrev skip : P (Unit {0})
skip = pure tt

abbrev mode_name : Bool → Text
mode_name true = bytes "INTO"
mode_name false = bytes "OVERWRITE"

module _ (f : ℕ) where
  unfoldable pub insert_values : Text → Bool → P Statement
  insert_values table appending = do
    values ← parse_values_clause f
    pure (Statement.insert_overwrite table no_query (some values) appending)

  unfoldable pub insert_query : Text → Bool → P Statement
  insert_query table appending = do
    query ← (calls f).select_query
    pure (Statement.insert_overwrite table query none appending)

  unfoldable pub parse_insert_overwrite : P Statement
  parse_insert_overwrite = do
    appending ← insert_mode
    accept_peek TokenType.table skip skip
    need_peek TokenType.ident
        (message (bytes "expected target table name after INSERT " ++ mode_name appending))
    table ← look λ t _. next_token >> pure t.literal
    accept TokenType.values (insert_values table appending) (insert_query table appending)

  unfoldable pub explained : P Statement
  explained = do query ← (calls f).select_query; pure (Statement.explain query)

  unfoldable pub selected : P Statement
  selected = do query ← (calls f).select_query; pure (Statement.select query)

  unfoldable pub statement_of : TokenType → Text → P Statement
  statement_of TokenType.create word = parse_create_table f
  statement_of TokenType.insert word = parse_insert_overwrite
  statement_of TokenType.explain word = next_token >> explained
  statement_of TokenType.with word = selected
  statement_of TokenType.select word = selected
  statement_of type word = fail (bytes "unsupported statement: " ++ word)

  unfoldable pub parse_statement : P Statement
  parse_statement = look λ t _. statement_of t.type t.literal

-- The loop of `Parse`, with fuel for its rounds and for each statement.
unfoldable pub statements : ℕ → P (List Statement)
statements zero = out_of_fuel
statements (suc f) =
    let one = do
      statement ← parse_statement (suc f)
      _ ← accept TokenType.semicolon skip skip
      rest ← statements f
      pure (statement ∷ rest)
    in let more = accept TokenType.semicolon (statements f) one in
      look λ t _. if same_type t.type TokenType.eof then pure [] else more

unfoldable pub parse : Text → Outcome (List Statement)
unfolding ◌>>=◌ remove_comments new_parser equal_fold dotted_rest parse_dotted_identifier
    parse_dotted_list parse_direction parse_order_by_list is_literal values_row values_rows
    parse_values_clause signed_default default_of parse_default_literal optional_default
    parse_column parse_column_definitions option_error option_equal parse_option parse_with_options
    partition_columns partition_list parse_partitioned_by parse_create_table expr_to_string
    arithmetic_precedence is_arithmetic_op case_branches parse_case_expr parenthesised
    parse_arithmetic_primary raise_operand parse_arithmetic_binary parse_arithmetic_expr
    is_comparison_operator differs_from_all is_keyword cast_operand parse_cast_expr null_check
    compared_with in_subquery in_values parse_in_expr comparison_tail parse_post_func_call
    parse_post_aggregate_op go_on called exists_subquery column_comparison parenthesised_condition
    not_a_column parse_comparison logical_rest parse_expression nested_argument column_argument
    negative_argument func_argument func_arguments parse_func_args digits_value in_int atoi
    bound_side current_row_bound number_bound parse_window_frame_bound parse_window_frame
    dropped_error frame_or_none keyword_by parse_frame parse_window_features window_name
    parse_window_spec contains_column key_from unique_window_key add_expr set_last_expr set_last
    alias_here optional_alias alias_behind_as alias_ahead strip_key case_item cast_item
    literal_arithmetic literal_item window_item call_item qualified_name computed_item column_item
    select_item select_items parse_select_items optional_name from_rows names value_columns
    from_values from_subquery from_table from_clause join_words join_on join_clause next_join
    join_clauses explode_name more_columns lateral_view lateral_views inherit based_on
    resolve_definition referenced resolve_reference resolve_references new_window_name
    window_definition window_definitions window_clause atoi_error limit_value limit_number
    limit_clause union_query union_clause parse_cte_list group_clause behind_items select_core
    parse_select_query calls insert_mode insert_values insert_query parse_insert_overwrite explained
    selected statement_of parse_statement statements
parse sql = let p = new_parser (remove_comments sql) in statements (suc (length p.tokens)) p
