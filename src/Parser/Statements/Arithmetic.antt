-- ===== src/Parser/Statements/Arithmetic.antt =====
-- Arithmetic is read back as it is written: with all its parentheses, and without them by the
-- precedence of two operators.
use gsql.Common.{
  ℕ, zero, suc, ◌≤◌, ◌≡◌, refl, arith, List, ◌∷◌, ltb, if◌then◌else◌, ◌∙◌, Bool-cases, inl, inr,
}
use gsql.Text.{Text, bytes}
use gsql.Parser.Ast.{Expression, nil, binary}
use gsql.Parser.Token.{TokenType, Token, same_type}
use gsql.Parser.Lexer.{plain_token}
use gsql.Parser.State.{done, ◌>>=◌, plain_parser}
use gsql.Parser.Lists.{is_literal, parse_dotted_identifier, dotted_rest}
use gsql.Parser.Arithmetic.{
  is_arithmetic_op, arithmetic_precedence, parse_arithmetic_primary, parse_arithmetic_binary,
  parse_arithmetic_expr, parenthesised, prec_lowest, above,
}
use gsql.Parser.Arithmetic.Trees.{
  Operator, Tree, token_of, add, subtract, concat, multiply, divide, column, number, operation,
  expr_of, written, depth, NoDot, NoOperator, operator-NoDot, binary-written, binary-left,
  binary-right,
}
use gsql.Parser.Statements.{calls}

depth_pos : (t : Tree) → 1 ≤ depth t
depth_pos (column name) = omega arith
depth_pos (number value) = omega arith
depth_pos (operation l o r) = omega arith

-- An operand with all its parentheses is read as the tree that it was written from.
pub parse_arithmetic_primary-written :
    (t : Tree) (k f : ℕ) (input : Text) (rest : List Token)
    → depth t ≤ k
    → NoDot rest
    → parse_arithmetic_primary (calls k) (suc f) (plain_parser input (written t rest))
      ≡ done (expr_of t) (plain_parser input rest)
unfolding ◌>>=◌ parse_arithmetic_primary parenthesised is_literal parse_dotted_identifier
    dotted_rest calls parse_arithmetic_expr same_type is_arithmetic_op
parse_arithmetic_primary-written (column name) k f input rest h n = rw n
parse_arithmetic_primary-written (number value) k f input rest h n = refl
parse_arithmetic_primary-written (operation l o r) zero f input rest h n = absurd (omega arith)
parse_arithmetic_primary-written (operation l o r) (suc zero) f input rest h n =
    absurd (omega (arith, depth_pos l, depth_pos r))
parse_arithmetic_primary-written (operation l o r) (suc (suc k)) f input rest h n =
    let closed = plain_token TokenType.rparen (bytes ")") ∷ rest in
    let tail = written r closed in
    let left =
      parse_arithmetic_primary-written l (suc k) (suc k) input (token_of o ∷ tail)
        (omega (arith, depth_pos r)) (operator-NoDot o tail) in
    let right =
      parse_arithmetic_primary-written r (suc k) (suc k) input closed (omega (arith, depth_pos l))
        refl in
    let both =
      binary-written (calls (suc k)) k prec_lowest (expr_of l) (expr_of r) o input tail closed right
        refl (ground arith) in
    rw (left, both)

-- An operand in front of an operator.
operand :
    (t : Tree) (k f : ℕ) (o : Operator) (input : Text) (rest : List Token)
    → depth t ≤ k
    → parse_arithmetic_primary
        (calls k)
        (suc f)
        (plain_parser input (written t (token_of o ∷ rest)))
      ≡ done (expr_of t) (plain_parser input (token_of o ∷ rest))
operand t k f o input rest h =
    parse_arithmetic_primary-written t k f input (token_of o ∷ rest) h (operator-NoDot o rest)

-- How two operations without parentheses are grouped.
abbrev pub grouped : Expression → Operator → Expression → Operator → Expression → Expression
grouped a o b q c =
    if ltb (arithmetic_precedence (token_of o).type) (arithmetic_precedence (token_of q).type)
    then binary a (token_of o).literal (binary b (token_of q).literal c)
    else binary (binary a (token_of o).literal b) (token_of q).literal c

above-token :
    (prec : ℕ) (q : Operator)
    → above prec (token_of q).type ≡ ltb prec (arithmetic_precedence (token_of q).type)
unfolding is_arithmetic_op
above-token prec add = refl
above-token prec subtract = refl
above-token prec concat = refl
above-token prec multiply = refl
above-token prec divide = refl

module _ (a b c : Tree) (o q : Operator) (k f : ℕ) (input : Text) (rest : List Token)
    (ha : depth a ≤ suc (suc k)) (hb : depth b ≤ suc (suc k)) (hc : depth c ≤ suc k)
    (dot : NoDot rest) (op : NoOperator rest) where
  -- The binary loop behind the first operand.
  chain :
      parse_arithmetic_binary
        (calls (suc (suc k)))
        (suc (suc (suc f)))
        (expr_of a)
        prec_lowest
        (plain_parser input (token_of o ∷ written b (token_of q ∷ written c rest)))
      ≡ done (grouped (expr_of a) o (expr_of b) q (expr_of c)) (plain_parser input rest)
  unfolding calls
  chain =
      let p = arithmetic_precedence (token_of o).type in
      let next = token_of q ∷ written c rest in
      let read = operand b (suc (suc k)) (suc (suc f)) q input (written c rest) hb in
      elim (Bool-cases (ltb p (arithmetic_precedence (token_of q).type))) [
        | inl e ↦
            let last = parse_arithmetic_primary-written c (suc k) (suc k) input rest hc dot in
            let deep =
              binary-written (calls (suc k)) k (arithmetic_precedence (token_of q).type) (expr_of b)
                (expr_of c) q input (written c rest) rest last op (ground arith) in
            rw e (
              binary-right (calls (suc (suc k))) (suc f) prec_lowest (expr_of a) (expr_of b) input
                (written b next) next read o (binary (expr_of b) (token_of q).literal (expr_of c))
                rest (above-token p q ∙ e) deep op (ground arith))
        | inr e ↦
            let last =
              parse_arithmetic_primary-written c (suc (suc k)) (suc f) input rest (omega arith)
                dot in
            let first =
              binary-left (calls (suc (suc k))) (suc f) prec_lowest (expr_of a) (expr_of b) input
                (written b next) next read o (above-token p q ∙ e) (ground arith) in
            let second =
              binary-written (calls (suc (suc k))) f prec_lowest
                (binary (expr_of a) (token_of o).literal (expr_of b)) (expr_of c) q input
                (written c rest) rest last op (ground arith) in
            rw e (first ∙ second)
      ]

  -- Two operations without parentheses: * and / bind tighter than +, - and ||, and operators of
  -- one precedence group from the left.
  pub parse_arithmetic_expr-grouped :
      parse_arithmetic_expr
        (calls (suc (suc k)))
        (suc (suc (suc f)))
        nil
        (plain_parser input (written a (token_of o ∷ written b (token_of q ∷ written c rest))))
      ≡ done (grouped (expr_of a) o (expr_of b) q (expr_of c)) (plain_parser input rest)
  unfolding ◌>>=◌ parse_arithmetic_expr
  parse_arithmetic_expr-grouped =
      let tail = written b (token_of q ∷ written c rest) in
      rw (operand a (suc (suc k)) (suc (suc f)) o input tail ha, chain)
