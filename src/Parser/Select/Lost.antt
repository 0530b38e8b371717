-- ===== src/Parser/Select/Lost.antt =====
-- An item that is computed and has no alias: the token behind it is lost.
use gsql.Common.{ℕ, suc, ◌≡◌, refl, true, List, ◌∷◌}
use gsql.Text.{Text, bytes}
use gsql.Parser.Token.{TokenType, Token}
use gsql.Parser.State.{failed, ◌>>=◌, plain_parser}
use gsql.Parser.Lexer.{plain_token}
use gsql.Parser.Arithmetic.{
  Calls, is_arithmetic_op, arithmetic_precedence, parse_arithmetic_expr, parse_arithmetic_binary,
  raise_operand, parse_arithmetic_primary,
}
use gsql.Parser.Lists.{is_literal, parse_dotted_identifier, dotted_rest}
use gsql.Parser.SelectItems.{
  parse_select_items, select_items, select_item, column_item, qualified_name, computed_item,
  alias_behind_as, alias_here,
}
use gsql.Parser.WindowSpec.{keyword_by}
use gsql.Parser.From.{from_clause, join_clauses, join_words, next_join, lateral_views}
use gsql.Parser.Select.{
  parse_select_query, select_core, behind_items, group_clause, window_clause, resolve_references,
  limit_clause, union_clause,
}

abbrev name : Text → Token
name s = plain_token TokenType.ident s

-- SELECT a op b FROM t …
abbrev pub unaliased : Token → Text → Text → Text → List Token → List Token
unaliased op a b t rest =
    plain_token TokenType.select (bytes "SELECT")
    ∷ name a
    ∷ op
    ∷ name b
    ∷ plain_token TokenType.from (bytes "FROM")
    ∷ name t
    ∷ rest

module _ (c : Calls) (f : ℕ) (input literal a b t : Text) (rest : List Token) where
  -- SELECT a op b FROM t, with an arithmetic operator and no alias, is refused whatever follows:
  -- FROM is passed over as if it were the last token of the list.
  pub parse_select_query-unaliased :
      (type : TokenType)
      → is_arithmetic_op type ≡ true
      → parse_select_query c
          (suc (suc f))
          (plain_parser input (unaliased (plain_token type literal) a b t rest))
        ≡ failed
            (bytes "unexpected token IDENT after SELECT query")
            (plain_parser input (name t ∷ rest))
  unfolding ◌>>=◌ parse_select_query select_core parse_select_items select_items select_item
      column_item qualified_name computed_item alias_behind_as alias_here behind_items from_clause
      join_clauses join_words next_join lateral_views group_clause window_clause resolve_references
      limit_clause union_clause keyword_by is_arithmetic_op arithmetic_precedence
      parse_arithmetic_expr parse_arithmetic_binary raise_operand parse_arithmetic_primary
      is_literal parse_dotted_identifier dotted_rest
  parse_select_query-unaliased TokenType.plus h = refl
  parse_select_query-unaliased TokenType.minus h = refl
  parse_select_query-unaliased TokenType.asterisk h = refl
  parse_select_query-unaliased TokenType.div h = refl
  parse_select_query-unaliased TokenType.pipepipe h = refl
  parse_select_query-unaliased _ h = absurd (cc)
