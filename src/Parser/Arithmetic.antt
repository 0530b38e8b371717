-- ===== src/Parser/Arithmetic.antt =====
pub mod Trees
-- pkg/parser/parser.go: arithmetic expressions by precedence climbing, and CASE.
use gsql.Common.{
  ℕ, zero, suc, Bool, true, false, not, ◌&&◌, ◌||◌, List, [], ◌∷◌, ◌++◌, ltb, if◌then◌else◌,
}
use gsql.Text.{Text, bytes, join}
use gsql.Parser.Ast.{
  Expression, Branches, SelectQuery, nil, comparison, binary, column_ref, case_expr, literal,
  func_call, no_branch, branch,
}
use gsql.Parser.Token.{TokenType, Token, same_type, token_name}
use gsql.Parser.State.{
  P, ◌>>=◌, ◌>>◌, pure, fail, out_of_fuel, next_token, look, accept, accept_if, accept_peek,
  require, need, need_any, wrap, got, message,
}
use gsql.Parser.Lists.{is_literal, parse_dotted_identifier}

-- The calls that a method makes behind a token it has passed: parseExpression, parseSelectQuery,
-- parseArithmeticBinary, parseArithmeticExpr(nil) and parseFuncArgs.
pub record Calls : Type 0 where
  pub expression : P Expression
  pub select_query : P SelectQuery
  pub arithmetic_binary : Expression → ℕ → P Expression
  pub arithmetic_expr : P Expression
  pub func_args : P (List Text)

unfoldable pub expr_to_string : Expression → Text
expr_to_string (column_ref name) = name
expr_to_string (binary left op right) =
    b'(' ∷ (expr_to_string left ++ (b' ' ∷ (op ++ (b' ' ∷ (expr_to_string right ++ bytes ")")))))
expr_to_string (comparison column op value [] e) = column ++ (b' ' ∷ (op ++ (b' ' ∷ value)))
expr_to_string (comparison column op value (r ∷ rs) e) =
    column ++ (b' ' ∷ (op ++ (b' ' ∷ (r ∷ rs))))
expr_to_string (literal value) = value
expr_to_string (func_call name args) = name ++ (b'(' ∷ (join (bytes ",") args ++ bytes ")"))
expr_to_string _ = []

abbrev pub prec_lowest : ℕ
prec_lowest = 0

abbrev pub prec_term : ℕ
prec_term = 1

abbrev pub prec_factor : ℕ
prec_factor = 2

unfoldable pub arithmetic_precedence : TokenType → ℕ
arithmetic_precedence TokenType.plus = prec_term
arithmetic_precedence TokenType.minus = prec_term
arithmetic_precedence TokenType.pipepipe = prec_term
arithmetic_precedence TokenType.asterisk = prec_factor
arithmetic_precedence TokenType.div = prec_factor
arithmetic_precedence _ = prec_lowest

unfoldable pub is_arithmetic_op : TokenType → Bool
is_arithmetic_op TokenType.plus = true
is_arithmetic_op TokenType.minus = true
is_arithmetic_op TokenType.asterisk = true
is_arithmetic_op TokenType.div = true
is_arithmetic_op TokenType.pipepipe = true
is_arithmetic_op _ = false

-- The operators of at least and of more than a precedence.
abbrev pub at_least : ℕ → TokenType → Bool
at_least least t = is_arithmetic_op t && not (ltb (arithmetic_precedence t) least)

abbrev pub above : ℕ → TokenType → Bool
above prec t = is_arithmetic_op t && ltb prec (arithmetic_precedence t)

module _ (c : Calls) where
  -- The WHEN branches.
  unfoldable pub case_branches : ℕ → P Branches
  case_branches zero = out_of_fuel
  case_branches (suc f) =
      let more = do
        condition ← wrap (bytes "CASE WHEN condition: ") c.expression
        _ ← need TokenType.then_kw (got (bytes "expected THEN after CASE WHEN condition"))
        result ← wrap (bytes "CASE THEN result: ") c.arithmetic_expr
        branches ← case_branches f
        pure (branch condition result branches)
      in accept TokenType.when_kw more (pure no_branch)

  -- Behind the CASE that each caller has seen.
  unfoldable pub parse_case_expr : ℕ → P Expression
  parse_case_expr f = do
    branches ← case_branches f
    otherwise ← accept TokenType.else_kw (wrap (bytes "CASE ELSE: ") c.arithmetic_expr) (pure nil)
    _ ← need TokenType.end_kw (got (bytes "expected END at end of CASE expression"))
    pure (case_expr branches otherwise)

  unfoldable pub parenthesised : P Expression
  parenthesised = do
    e ← c.arithmetic_expr
    _ ← need TokenType.rparen (message (bytes "expected ) after subexpression"))
    pure e

  unfoldable pub parse_arithmetic_primary : ℕ → P Expression
  parse_arithmetic_primary f = look λ t _.
      let value = need_any is_literal (message []) >>= λ text. pure (literal text) in
      let column = parse_dotted_identifier f >>= λ name. pure (column_ref name) in
      let others =
        accept TokenType.lparen parenthesised
          (fail (got (bytes "expected arithmetic operand") t.type)) in
      if is_literal t.type
      then value
      else if same_type t.type TokenType.ident
      then column
      else accept TokenType.case_kw (parse_case_expr f) others

  -- The loop that gives the operand to an operator of a higher precedence behind it.
  unfoldable pub raise_operand : ℕ → Expression → ℕ → P Expression
  raise_operand zero right prec = out_of_fuel
  raise_operand (suc f) right prec = look λ t _.
      let raised = do
        right' ← c.arithmetic_binary right (arithmetic_precedence t.type)
        raise_operand f right' prec
      in if above prec t.type then raised else pure right

  unfoldable pub parse_arithmetic_binary : ℕ → Expression → ℕ → P Expression
  parse_arithmetic_binary zero left least = out_of_fuel
  parse_arithmetic_binary (suc f) left least =
      let operation = λ (t : Token). do
        operand ← parse_arithmetic_primary (suc f)
        right ← raise_operand (suc f) operand (arithmetic_precedence t.type)
        parse_arithmetic_binary f (binary left t.literal right) least
      in accept_if (λ t _. at_least least t.type) operation (pure left)

  -- `nil` has the operand read first.
  unfoldable pub parse_arithmetic_expr : ℕ → Expression → P Expression
  parse_arithmetic_expr f nil = do
    left ← parse_arithmetic_primary f
    parse_arithmetic_binary f left prec_lowest
  parse_arithmetic_expr f left = parse_arithmetic_binary f left prec_lowest
