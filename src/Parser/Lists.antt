-- ===== src/Parser/Lists.antt =====
-- pkg/parser/parser.go: the lists and names that the clauses share. The fuel bounds the rounds of
-- each loop; every round passes a token.
use gsql.Common.{ℕ, zero, suc, Bool, true, false, ◌||◌, List, [], ◌∷◌, ◌++◌, if◌then◌else◌}
use gsql.Text.{Text, bytes, to_lower, ◌==◌}
use gsql.Parser.Ast.{SortOrder}
use gsql.Parser.Token.{TokenType, same_type}
use gsql.Parser.State.{
  P, ◌>>=◌, ◌>>◌, pure, out_of_fuel, next_token, look, accept, accept_peek, require, need, need_any,
  got, message,
}

-- strings.EqualFold on ASCII text
unfoldable pub equal_fold : Text → Text → Bool
unfolding ◌==◌ to_lower
equal_fold s t = to_lower s == to_lower t

-- The loop of parseDottedIdentifier.
unfoldable pub dotted_rest : ℕ → Text → P Text
dotted_rest zero name = out_of_fuel
dotted_rest (suc f) name =
    let more = do
      part ← need TokenType.ident (message (bytes "expected identifier after ."))
      dotted_rest f (name ++ b'.' ∷ part)
    in accept TokenType.dot more (pure name)

unfoldable pub parse_dotted_identifier : ℕ → P Text
parse_dotted_identifier f = do
  name ← need TokenType.ident (got (bytes "expected identifier"))
  dotted_rest f name

unfoldable pub parse_dotted_list : ℕ → P (List Text)
parse_dotted_list zero = out_of_fuel
parse_dotted_list (suc f) = do
  item ← parse_dotted_identifier (suc f)
  let more = parse_dotted_list f >>= λ items. pure (item ∷ items)
  accept TokenType.comma more (pure (item ∷ []))

-- The last name stays current.
unfoldable pub parse_identifier_list : ℕ → P (List Text)
parse_identifier_list zero = out_of_fuel
parse_identifier_list (suc f) = do
  item ← require (λ t. same_type t TokenType.ident) (got (bytes "expected identifier"))
  let more = next_token >> (parse_identifier_list f >>= λ items. pure (item ∷ items))
  accept_peek TokenType.comma more (pure (item ∷ []))

-- The names behind the first test for `*`; the last stays current.
unfoldable pub column_names : ℕ → P (List Text)
column_names zero = out_of_fuel
column_names (suc f) = do
  column ← require (λ t. same_type t TokenType.ident) (got (bytes "expected column name"))
  let more = next_token >> (column_names f >>= λ columns. pure (column ∷ columns))
  accept_peek TokenType.comma more (pure (column ∷ []))

unfoldable pub parse_column_list : ℕ → P (List Text)
parse_column_list f = accept TokenType.asterisk (pure (bytes "*" ∷ [])) (column_names f)

-- ASC or DESC behind a column.
unfoldable pub parse_direction : P Bool
parse_direction = look λ c _.
    if equal_fold c.literal (bytes "ASC")
    then (next_token >> pure false)
    else if equal_fold c.literal (bytes "DESC")
    then (next_token >> pure true)
    else pure false

unfoldable pub parse_order_by_list : ℕ → P (List SortOrder)
parse_order_by_list zero = out_of_fuel
parse_order_by_list (suc f) = do
  column ← parse_dotted_identifier (suc f)
  desc ← parse_direction
  let item : SortOrder = record { column = column; desc = desc }
  let more = parse_order_by_list f >>= λ items. pure (item ∷ items)
  accept TokenType.comma more (pure (item ∷ []))

unfoldable pub is_literal : TokenType → Bool
unfolding same_type
is_literal t = same_type t TokenType.string || same_type t TokenType.number

-- The values of one row, up to the token behind the last.
unfoldable pub values_row : ℕ → Text → P (List Text)
values_row zero where_found = out_of_fuel
values_row (suc f) where_found = do
  value ← need_any is_literal (got (bytes "expected value in " ++ where_found))
  let more = values_row f where_found >>= λ values. pure (value ∷ values)
  accept TokenType.comma more (pure (value ∷ []))

-- The rows of VALUES behind the first parenthesis.
unfoldable pub values_rows : ℕ → P (List (List Text))
values_rows zero = out_of_fuel
values_rows (suc f) = do
  row ← values_row (suc f) (bytes "VALUES clause")
  _ ← need TokenType.rparen (got (bytes "expected ')' after VALUES row"))
  let more = do
    _ ← need TokenType.lparen (got (bytes "expected '(' after ',' in VALUES clause"))
    rows ← values_rows f
    pure (row ∷ rows)
  accept TokenType.comma more (pure (row ∷ []))

unfoldable pub parse_values_clause : ℕ → P (List (List Text))
parse_values_clause f = do
  _ ← need TokenType.lparen (got (bytes "expected '(' after VALUES"))
  values_rows f
