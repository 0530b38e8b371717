-- ===== src/Parser/Arithmetic/Trees.antt =====
-- Arithmetic written with all its parentheses, as exprToString writes it.
use gsql.Common.{ℕ, suc, ◌+◌, ◌≡◌, refl, true, false, List, ◌∷◌, ltb}
use gsql.Text.{Text, bytes}
use gsql.Parser.Ast.{Expression, binary, column_ref, literal}
use gsql.Parser.Token.{TokenType, Token, same_type}
use gsql.Parser.Lexer.{plain_token}
use gsql.Parser.State.{done, ◌>>=◌, plain_parser, first_token, accept_if}
use gsql.Parser.Arithmetic.{
  Calls, is_arithmetic_op, arithmetic_precedence, parse_arithmetic_primary, parse_arithmetic_binary,
  raise_operand, above,
}

pub data Operator : Type 0 where
  add subtract concat multiply divide : Operator

abbrev pub token_of : Operator → Token
token_of add = plain_token TokenType.plus (bytes "+")
token_of subtract = plain_token TokenType.minus (bytes "-")
token_of concat = plain_token TokenType.pipepipe (bytes "||")
token_of multiply = plain_token TokenType.asterisk (bytes "*")
token_of divide = plain_token TokenType.div (bytes "/")

pub data Tree : Type 0 where
  column : Text → Tree
  number : Text → Tree
  operation : Tree → Operator → Tree → Tree

abbrev pub expr_of : Tree → Expression
expr_of (column name) = column_ref name
expr_of (number value) = literal value
expr_of (operation l o r) = binary (expr_of l) (token_of o).literal (expr_of r)

-- The tokens of a tree, in front of others.
abbrev pub written : Tree → List Token → List Token
written (column name) rest = plain_token TokenType.ident name ∷ rest
written (number value) rest = plain_token TokenType.number value ∷ rest
written (operation l o r) rest =
    plain_token TokenType.lparen (bytes "(")
    ∷ written l (token_of o ∷ written r (plain_token TokenType.rparen (bytes ")") ∷ rest))

-- The depth of parentheses, and one more.
abbrev pub depth : Tree → ℕ
depth (column name) = 1
depth (number value) = 1
depth (operation l o r) = suc (depth l + depth r)

-- A name is not continued by what follows it.
abbrev pub NoDot : List Token → Type 0
NoDot rest = same_type (first_token rest).type TokenType.dot ≡ false

-- Nor is an operand.
abbrev pub NoOperator : List Token → Type 0
NoOperator rest = is_arithmetic_op (first_token rest).type ≡ false

pub operator-NoDot : (o : Operator) (rest : List Token) → NoDot (token_of o ∷ rest)
unfolding same_type
operator-NoDot add rest = refl
operator-NoDot _ rest = refl

-- One operation, in front of no other.
pub binary-written :
    (c : Calls) (f least : ℕ) (e d : Expression) (o : Operator) (input : Text)
    (tail rest : List Token)
    → parse_arithmetic_primary c (suc (suc f)) (plain_parser input tail)
      ≡ done d (plain_parser input rest)
    → NoOperator rest
    → ltb (arithmetic_precedence (token_of o).type) least ≡ false
    → parse_arithmetic_binary c (suc (suc f)) e least (plain_parser input (token_of o ∷ tail))
      ≡ done (binary e (token_of o).literal d) (plain_parser input rest)
unfolding ◌>>=◌ parse_arithmetic_binary raise_operand is_arithmetic_op
binary-written c f least e d add input tail rest p h l = rw (l, p, h, accept_if, h)
binary-written c f least e d subtract input tail rest p h l = rw (l, p, h, accept_if, h)
binary-written c f least e d concat input tail rest p h l = rw (l, p, h, accept_if, h)
binary-written c f least e d multiply input tail rest p h l = rw (l, p, h, accept_if, h)
binary-written c f least e d divide input tail rest p h l = rw (l, p, h, accept_if, h)

module _ (c : Calls) (f least : ℕ) (e d : Expression) (input : Text) (tail next : List Token)
    (read : parse_arithmetic_primary c (suc (suc f)) (plain_parser input tail)
      ≡ done d (plain_parser input next)) where
  -- The operand is taken by its left operator, where none of a higher precedence follows.
  pub binary-left :
      (o : Operator)
      → above (arithmetic_precedence (token_of o).type) (first_token next).type ≡ false
      → ltb (arithmetic_precedence (token_of o).type) least ≡ false
      → parse_arithmetic_binary c (suc (suc f)) e least (plain_parser input (token_of o ∷ tail))
        ≡ parse_arithmetic_binary c
            (suc f)
            (binary e (token_of o).literal d)
            least
            (plain_parser input next)
  unfolding ◌>>=◌ parse_arithmetic_binary raise_operand is_arithmetic_op
  binary-left add s l = rw (l, read, s)
  binary-left subtract s l = rw (l, read, s)
  binary-left concat s l = rw (l, read, s)
  binary-left multiply s l = rw (l, read, s)
  binary-left divide s l = rw (l, read, s)

  -- And by the operator behind it, where that has a higher precedence.
  pub binary-right :
      (o : Operator) (d' : Expression) (rest : List Token)
      → above (arithmetic_precedence (token_of o).type) (first_token next).type ≡ true
      → c.arithmetic_binary d
          (arithmetic_precedence (first_token next).type)
          (plain_parser input next)
        ≡ done d' (plain_parser input rest)
      → NoOperator rest
      → ltb (arithmetic_precedence (token_of o).type) least ≡ false
      → parse_arithmetic_binary c (suc (suc f)) e least (plain_parser input (token_of o ∷ tail))
        ≡ done (binary e (token_of o).literal d') (plain_parser input rest)
  unfolding ◌>>=◌ parse_arithmetic_binary raise_operand is_arithmetic_op
  binary-right add d' rest s deep h l = rw (l, read, s, deep, h, accept_if, h)
  binary-right subtract d' rest s deep h l = rw (l, read, s, deep, h, accept_if, h)
  binary-right concat d' rest s deep h l = rw (l, read, s, deep, h, accept_if, h)
  binary-right multiply d' rest s deep h l = rw (l, read, s, deep, h, accept_if, h)
  binary-right divide d' rest s deep h l = rw (l, read, s, deep, h, accept_if, h)
