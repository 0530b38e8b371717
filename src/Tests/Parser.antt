-- ===== src/Tests/Parser.antt =====
-- Runs of the parser, and its theorems at inputs that meet their hypotheses.
use mathlib.Core.Option.{none, some}
use gsql.Common.{◌+◌, ◌≡◌, ◌≢◌, refl, arith, inl, true, false, List, [], ◌∷◌, ◌++◌, length}
use gsql.Common.Int.{pos}
use gsql.Text.{bytes, to_lower, join, split, trim_space}
use gsql.Map.{lookup}
use gsql.Parser.Ast.{
  Statement, SelectQuery, select_query, nil, column_ref, no_expr, no_cte, no_query,
  WindowFrameBound, WindowFrameType,
}
use gsql.Parser.Token.{TokenType, Token, same_type, keywords}
use gsql.Parser.Lexer.{
  plain_token, keyword_or, is_letter, is_digit, front, next_token, new_lexer, tokens_of,
}
use gsql.Parser.Lexer.Moves.{lexer_at}
use gsql.Parser.Lexer.Position.{eofs, tokens_of-eofs}
use gsql.Parser.Lexer.Spelled.{is_word, next_token-word, next_token-quoted}
use gsql.Parser.State.{Outcome, done, failed, exhausted, plain_parser, cur, ◌>>=◌, first_token}
use gsql.Parser.Arithmetic.{is_arithmetic_op, parse_arithmetic_primary, parse_arithmetic_expr}
use gsql.Parser.Arithmetic.Trees.{
  Tree, add, multiply, column, number, operation, token_of, expr_of, written,
}
use gsql.Parser.WindowSpec.{
  atoi, parse_frame, parse_window_frame, frame_between, digits_value, in_int,
}
use gsql.Parser.WindowSpec.Frames.{
  parse_frame-unbounded, parse_window_frame-words, words, word_token, bound_of,
}
use gsql.Parser.SelectItems.{parse_select_items}
use gsql.Parser.From.{
  from_clause, from_table, optional_name, join_clauses, join_words, next_join, lateral_views,
}
use gsql.Parser.WindowSpec.{keyword_by, window_name}
use gsql.Parser.Select.{
  parse_select_query, select_core, behind_items, group_clause, window_clause, resolve_references,
  limit_clause, union_clause, ends_query,
}
use gsql.Parser.Select.Ends.{parse_select_query-ends_query}
use gsql.Parser.Select.Lost.{parse_select_query-unaliased, unaliased}
use gsql.Parser.Statements.{calls, parse}
use gsql.Parser.Statements.Arithmetic.{
  parse_arithmetic_primary-written, parse_arithmetic_expr-grouped, grouped,
}
use gsql.Parser.Progress.Statements.{parse-ne-exhausted}

abbrev all_rows : SelectQuery
all_rows =
    select_query no_cte (bytes "*" ∷ []) no_expr false (bytes "t") [] no_query [] none [] [] nil []
      nil [] (pos 0) false [] [] [] no_query false []

-- What a parse returns, without the state.
abbrev result : Outcome (List Statement) → List Statement
result (done statements p) = statements
result (failed e p) = []
result exhausted = []

-- Statements in a row, with a comment.
two_statements_parse :
    result (parse (bytes "-- all\nSELECT * FROM t; SELECT * FROM t"))
    ≡ Statement.select all_rows ∷ Statement.select all_rows ∷ []
unfolding parse join split trim_space lookup
two_statements_parse = refl

parse-ne-exhausted_example : parse (bytes "SELECT ((") ≢ exhausted
parse-ne-exhausted_example = parse-ne-exhausted (bytes "SELECT ((")

abbrev star_tokens : List Token
star_tokens =
    word_token TokenType.select "SELECT"
    ∷ plain_token TokenType.asterisk (bytes "*")
    ∷ word_token TokenType.from "FROM"
    ∷ word_token TokenType.ident "t"
    ∷ []

star_parses :
    parse_select_query (calls 3) 3 (plain_parser [] star_tokens)
    ≡ done all_rows (plain_parser [] [])
unfolding ◌>>=◌ parse_select_query select_core parse_select_items behind_items from_clause
    from_table optional_name window_name join_clauses join_words next_join lateral_views
    group_clause window_clause resolve_references limit_clause union_clause keyword_by
star_parses = refl

parse_select_query-ends_query_example : ends_query (cur (plain_parser [] [])).type ≡ true
parse_select_query-ends_query_example =
    parse_select_query-ends_query (calls 3) 3 (plain_parser [] star_tokens) (plain_parser [] [])
      all_rows star_parses

plus_is_operator : is_arithmetic_op TokenType.plus ≡ true
unfolding is_arithmetic_op
plus_is_operator = refl

parse_select_query-unaliased_example :
    parse_select_query (calls 9) 9 (
      plain_parser []
        (unaliased (plain_token TokenType.plus (bytes "+")) (bytes "a") (bytes "b") (bytes "t") []))
    ≡ failed
        (bytes "unexpected token IDENT after SELECT query")
        (plain_parser [] (word_token TokenType.ident "t" ∷ []))
parse_select_query-unaliased_example =
    parse_select_query-unaliased (calls 9) 7 [] (bytes "+") (bytes "a") (bytes "b") (bytes "t") []
      TokenType.plus plus_is_operator

abbrev closing : Token
closing = plain_token TokenType.rparen (bytes ")")

closing_differs :
    (same_type closing.type TokenType.preceding_kw ≡ false)
    × (same_type closing.type TokenType.following_kw ≡ false)
unfolding same_type
closing_differs = (refl, refl)

parse_frame-unbounded_example :
    parse_frame none (
      plain_parser [] (
        word_token TokenType.rows_kw "ROWS"
        ∷ word_token TokenType.unbounded_kw "UNBOUNDED"
        ∷ closing
        ∷ []))
    ≡ done none (plain_parser [] (closing ∷ []))
parse_frame-unbounded_example =
    parse_frame-unbounded [] (bytes "UNBOUNDED") (bytes "ROWS") closing [] none closing_differs.0
      closing_differs.1

two_is_2 : atoi (bytes "2") ≡ some 2
unfolding atoi digits_value in_int is_digit
two_is_2 = refl

parse_window_frame-words_example :
    parse_window_frame WindowFrameType.frame_rows (
      plain_parser [] (
        word_token TokenType.between_kw "BETWEEN"
        ∷ (words WindowFrameBound.n_preceding (bytes "2")
            ++ word_token TokenType.and "AND"
              ∷ (words WindowFrameBound.current_row (bytes "2") ++ closing ∷ []))))
    ≡ done
        (frame_between WindowFrameType.frame_rows
          (bound_of WindowFrameBound.n_preceding 2)
          (bound_of WindowFrameBound.current_row 2))
        (plain_parser [] (closing ∷ []))
parse_window_frame-words_example =
    parse_window_frame-words WindowFrameType.frame_rows WindowFrameBound.n_preceding
      WindowFrameBound.current_row (bytes "2") (bytes "2") [] 2 2 (closing ∷ []) (λ e. cc) (λ e. cc)
      two_is_2 two_is_2

abbrev product : Tree
product =
    operation (column (bytes "a")) multiply
      (operation (number (bytes "2")) add (column (bytes "b")))

empty_stops :
    (same_type (first_token []).type TokenType.dot ≡ false)
    × (is_arithmetic_op (first_token []).type ≡ false)
unfolding same_type is_arithmetic_op
empty_stops = (refl, refl)

parse_arithmetic_primary-written_example :
    parse_arithmetic_primary (calls 9) 9 (plain_parser [] (written product []))
    ≡ done (expr_of product) (plain_parser [] [])
parse_arithmetic_primary-written_example =
    parse_arithmetic_primary-written product 9 8 [] [] (omega arith) empty_stops.0

parse_arithmetic_expr-grouped_example :
    parse_arithmetic_expr (calls 9) 9 nil (
      plain_parser [] (
        written
          (column (bytes "a"))
          (token_of add ∷ written product (token_of multiply ∷ written product []))))
    ≡ done
        (grouped (column_ref (bytes "a")) add (expr_of product) multiply (expr_of product))
        (plain_parser [] [])
parse_arithmetic_expr-grouped_example =
    parse_arithmetic_expr-grouped (column (bytes "a")) product product add multiply 7 6 [] []
      (omega arith) (omega arith) (omega arith) empty_stops.0 empty_stops.1

tokens_of-eofs_example :
    tokens_of (length (bytes "a ;") + 2) (new_lexer (bytes "a ;"))
    ≡ tokens_of (length (bytes "a ;")) (new_lexer (bytes "a ;")) ++ eofs 2
tokens_of-eofs_example = tokens_of-eofs (bytes "a ;") 2

word_facts :
    (is_letter b'u' ≡ true) × (is_letter b's' ≡ true) × (is_word (front (bytes " x")) ≡ false)
unfolding is_letter is_digit front
word_facts = (refl, refl, refl)

next_token-word_example : next_token (lexer_at (b'u' ∷ (bytes "s" ++ bytes " x")) 4) ≡ (
  keyword_or (b'u' ∷ bytes "s") (lookup (to_lower (b'u' ∷ bytes "s")) keywords),
  lexer_at (bytes " x") (4 + 2),
)
next_token-word_example =
    next_token-word b'u' 4 (bytes "s") (bytes " x") word_facts.0 (ground (arith, word_facts.1))
      word_facts.2

next_token-quoted_example :
    next_token (lexer_at (b'\'' ∷ (bytes "it\\'s" ++ b'\'' ∷ bytes ";")) 7) ≡ (
      record { type = TokenType.string; literal = bytes "it\\'s"; pos = 7 },
      lexer_at (bytes ";") (7 + length (bytes "it\\'s") + 2),
    )
next_token-quoted_example = next_token-quoted b'\'' 7 (bytes "it\\'s") (bytes ";") (inl refl) refl
