-- ===== src/Parser/Expr.antt =====
-- pkg/parser/parser.go: conditions, CAST and the arguments of functions.
use gsql.Common.{
  ℕ, zero, suc, Bool, true, false, not, ◌&&◌, ◌||◌, List, [], ◌∷◌, ◌++◌, ltb, if◌then◌else◌,
}
use gsql.Text.{Text, bytes, to_upper}
use gsql.Parser.Ast.{
  Expression, nil, comparison, logical, null_test, in_expr, exists_expr, column_ref, func_call,
  no_query,
}
use gsql.Parser.Token.{TokenType, Token, same_type, ord}
use gsql.Parser.State.{
  P, ◌>>=◌, ◌>>◌, pure, fail, out_of_fuel, next_token, look, accept, accept_if, need, need_any,
  wrap, got, message,
}
use gsql.Parser.Lists.{is_literal, parse_dotted_identifier, values_row}
use gsql.Parser.Arithmetic.{Calls, expr_to_string, is_arithmetic_op, parse_arithmetic_expr}

unfoldable pub is_comparison_operator : TokenType → Bool
is_comparison_operator TokenType.equal = true
is_comparison_operator TokenType.not_equal = true
is_comparison_operator TokenType.lt = true
is_comparison_operator TokenType.gt = true
is_comparison_operator TokenType.lte = true
is_comparison_operator TokenType.gte = true
is_comparison_operator TokenType.like = true
is_comparison_operator _ = false

abbrev symbols : List TokenType
symbols =
    TokenType.string ∷ TokenType.number ∷ TokenType.asterisk ∷ TokenType.comma ∷ TokenType.lparen
    ∷ TokenType.rparen ∷ TokenType.equal ∷ TokenType.not_equal ∷ TokenType.lt ∷ TokenType.gt
    ∷ TokenType.lte ∷ TokenType.gte ∷ TokenType.semicolon ∷ TokenType.pipepipe ∷ []

unfoldable pub differs_from_all : TokenType → List TokenType → Bool
unfolding same_type
differs_from_all t [] = true
differs_from_all t (s ∷ ss) = not (same_type t s) && differs_from_all t ss

unfoldable pub is_keyword : TokenType → Bool
unfolding differs_from_all ord
is_keyword t = ltb (ord TokenType.ident) (ord t) && differs_from_all t symbols

-- The inner expression of CAST.
unfoldable pub cast_operand : ℕ → P Text
cast_operand f = look λ t _.
    if same_type t.type TokenType.ident
    then wrap (bytes "inside CAST(): ") (parse_dotted_identifier f)
    else need_any is_literal (message (bytes "expected column name or literal inside CAST()"))

unfoldable pub parse_cast_expr : ℕ → P Expression
parse_cast_expr f = do
  _ ← need TokenType.cast_kw (message (bytes "expected CAST"))
  _ ← need TokenType.lparen (message (bytes "expected ( after CAST"))
  inner ← cast_operand f
  _ ← need TokenType.as_kw (message (bytes "expected AS after expression in CAST()"))
  type ← need TokenType.ident (message (bytes "expected type name after AS in CAST()"))
  _ ← need TokenType.rparen (message (bytes "expected ) after type in CAST()"))
  pure (func_call (bytes "CAST") (inner ∷ to_upper type ∷ []))

-- Behind IS.
unfoldable pub null_check : Text → P Expression
null_check column =
    let is_not = do
      _ ← need TokenType.null_keyword (message (bytes "expected NULL after IS NOT"))
      pure (null_test column false)
    in let is_null = do
      _ ← need TokenType.null_keyword (message (bytes "expected NULL after IS"))
      pure (null_test column true)
      in accept TokenType.not is_not is_null

-- Behind a comparison operator: a column, or a literal.
unfoldable pub compared_with : ℕ → Text → Text → Expression → P Expression
compared_with f column op e = look λ t _.
    let with_column =
      parse_dotted_identifier f >>= λ right. pure (comparison column op [] right e) in
    let with_value = do
      value ← need_any is_literal (got (bytes "expected literal on right side of expression"))
      pure (comparison column op value [] e)
    in if same_type t.type TokenType.ident then with_column else with_value

-- A name in front of a parenthesis.
abbrev pub calls_ahead : Token → Token → Bool
calls_ahead t ahead = same_type t.type TokenType.ident && same_type ahead.type TokenType.lparen

abbrev pub is_connective : Token → Token → Bool
is_connective t ahead = same_type t.type TokenType.and || same_type t.type TokenType.or

abbrev pub is_not_in : Token → Token → Bool
is_not_in t ahead = same_type t.type TokenType.not && same_type ahead.type TokenType.in_keyword

-- What makes an expression that a call or CAST begins go on.
abbrev pub goes_on : Token → Token → Bool
goes_on t ahead =
    is_comparison_operator t.type
    || (same_type t.type TokenType.is
        || (is_not_in t ahead || same_type t.type TokenType.in_keyword))

module _ (c : Calls) where
  unfoldable pub in_subquery : Text → Bool → P Expression
  in_subquery column negated = do
    query ← wrap (bytes "IN subquery: ") c.select_query
    _ ← need TokenType.rparen (message (bytes "expected ) after IN subquery"))
    pure (in_expr column negated [] query)

  unfoldable pub in_values : ℕ → Text → Bool → P Expression
  in_values f column negated = do
    values ← values_row f (bytes "IN list")
    _ ← need TokenType.rparen (message (bytes "expected ) after IN list"))
    pure (in_expr column negated values no_query)

  unfoldable pub parse_in_expr : ℕ → Text → Bool → P Expression
  parse_in_expr f column negated = do
    _ ← need TokenType.lparen (message (bytes "expected ( after IN"))
    look λ t _.
        if same_type t.type TokenType.select
        then in_subquery column negated
        else in_values f column negated

  -- What stands behind an operand: IS, IN, NOT IN or a comparison.
  unfoldable pub comparison_tail : ℕ → Text → Expression → Text → P Expression
  comparison_tail f column e text = look λ t ahead.
      let not_in = next_token >> (next_token >> parse_in_expr f column true) in
      let compared = next_token >> compared_with f column t.literal e in
      let others = if is_comparison_operator t.type then compared else fail (got text t.type) in
      let inside = accept TokenType.in_keyword (parse_in_expr f column false) others in
      accept TokenType.is (null_check column) (if is_not_in t ahead then not_in else inside)

  unfoldable pub parse_post_func_call : ℕ → Expression → P Expression
  parse_post_func_call f call =
      comparison_tail f (expr_to_string call) call
        (bytes "expected comparison operator after function")

  unfoldable pub parse_post_aggregate_op : ℕ → Text → P Expression
  parse_post_aggregate_op f left =
      comparison_tail f left nil (bytes "expected comparison operator after " ++ left)

  unfoldable pub go_on : ℕ → Expression → P Expression
  go_on f call = look λ t ahead. if goes_on t ahead then parse_post_func_call f call else pure call

  -- Behind the name and the parenthesis of a call.
  unfoldable pub called : ℕ → Text → P Expression
  called f name = do
    args ← wrap (bytes "inside " ++ (name ++ bytes "(): ")) c.func_args
    _ ←
        need TokenType.rparen
          (message (bytes "expected ) after argument in " ++ (name ++ bytes "()")))
    go_on f (func_call name args)

  -- Behind EXISTS; `words` are those of the messages.
  unfoldable pub exists_subquery : Bool → Text → P Expression
  exists_subquery negated words = do
    _ ← need TokenType.lparen (message (bytes "expected ( after " ++ words))
    query ← wrap (words ++ bytes " subquery: ") c.select_query
    _ ← need TokenType.rparen (message (bytes "expected ) after " ++ (words ++ bytes " subquery")))
    pure (exists_expr negated query)

  abbrev not_operator : Text → Text
  not_operator column = bytes "expected comparison operator after " ++ column

  -- A column, with the arithmetic that follows it.
  unfoldable pub column_comparison : ℕ → P Expression
  column_comparison f = do
    column ← parse_dotted_identifier f
    look λ t _.
        let computed = do
          e ← parse_arithmetic_expr c f (column_ref column)
          comparison_tail f (expr_to_string e) e (not_operator (expr_to_string e))
        in if is_arithmetic_op t.type
          then computed
          else comparison_tail f column nil (not_operator column)

  unfoldable pub parenthesised_condition : P Expression
  parenthesised_condition = do
    e ← c.expression
    _ ← need TokenType.rparen (message (bytes "expected ) to close parenthesized expression"))
    pure e

  unfoldable pub not_a_column : P Expression
  not_a_column = look λ t _. fail (got (bytes "expected column name in expression") t.type)

  unfoldable pub parse_comparison : ℕ → P Expression
  parse_comparison f =
      let call = λ (t : Token). next_token >> called f (to_upper t.literal) in
      let not_exists = next_token >> (next_token >> exists_subquery true (bytes "NOT EXISTS")) in
      let cast = parse_cast_expr f >>= λ e. go_on f e in
      let column = look λ t _.
        if same_type t.type TokenType.cast_kw
        then cast
        else if same_type t.type TokenType.ident
        then column_comparison f
        else not_a_column in
      let exists = accept TokenType.exists_kw (exists_subquery false (bytes "EXISTS")) column in
      let negated = look λ t ahead.
        if same_type t.type TokenType.not && same_type ahead.type TokenType.exists_kw
        then not_exists
        else exists in
      accept TokenType.lparen parenthesised_condition (accept_if calls_ahead call negated)

  -- The loop over AND and OR.
  unfoldable pub logical_rest : ℕ → Expression → P Expression
  logical_rest zero left = out_of_fuel
  logical_rest (suc f) left =
      let more = λ (t : Token). do
        right ← parse_comparison (suc f)
        logical_rest f (logical left (to_upper t.literal) right)
      in accept_if is_connective more (pure left)

  unfoldable pub parse_expression : ℕ → P Expression
  parse_expression f = do left ← parse_comparison f; logical_rest f left
