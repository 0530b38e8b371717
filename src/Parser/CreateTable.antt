-- ===== src/Parser/CreateTable.antt =====
-- pkg/parser/parser.go: CREATE TABLE.
use gsql.Common.{ℕ, zero, suc, Bool, true, false, ◌&&◌, ◌||◌, List, [], ◌∷◌, ◌++◌, if◌then◌else◌}
use gsql.Text.{Text, bytes, to_lower, ◌==◌}
use gsql.Map.{Map, insert}
use gsql.Parser.Ast.{ColumnDef, Statement}
use gsql.Parser.Token.{TokenType, Token, same_type}
use gsql.Parser.Source.{format_error_pos}
use gsql.Parser.State.{
  Outcome, P, ◌>>=◌, ◌>>◌, pure, fail, out_of_fuel, done, failed, exhausted, next_token, look, peek,
  accept, accept_peek, require, need_any, need_peek, expect_peek, got, message,
}
use gsql.Parser.Lists.{equal_fold, parse_dotted_list}

-- `%q` of a text of printable ASCII bytes without quotes and backslashes
abbrev pub quote : Text → Text
quote s = b'"' ∷ (s ++ bytes "\"")

abbrev pub default_error : Text → TokenType → Text
default_error column type = bytes "expected value after DEFAULT for column " ++ got column type

abbrev pub sign_error : Text → Text → TokenType → Text
sign_error sign column type =
    bytes "expected number after "
    ++ (quote sign ++ (bytes " in DEFAULT for column " ++ got column type))

abbrev pub is_number : TokenType → Bool
is_number t = same_type t TokenType.number

unfoldable pub signed_default : Text → Token → P Text
signed_default column c = do
  next_token
  number ← require is_number (sign_error c.literal column)
  pure (c.literal ++ number)

unfoldable pub default_of : Text → Token → TokenType → P Text
default_of column c TokenType.null_keyword = pure []
default_of column c TokenType.string = pure c.literal
default_of column c TokenType.number = pure c.literal
default_of column c TokenType.ident = pure c.literal
default_of column c TokenType.minus = signed_default column c
default_of column c TokenType.plus = signed_default column c
default_of column c type = fail (default_error column type)

unfoldable pub parse_default_literal : Text → P Text
parse_default_literal column = look λ c _. default_of column c c.type

abbrev pub plain_column : Text → Text → ColumnDef
plain_column name type = record { name = name; type = type; default = []; has_default = false }

abbrev pub defaulted_column : Text → Text → Text → ColumnDef
defaulted_column name type value = record {
  name = name;
  type = type;
  default = value;
  has_default = true;
}

unfoldable pub optional_default : Text → Text → P ColumnDef
optional_default name type = look λ _ ahead.
    let with_default = do
      next_token
      next_token
      value ← parse_default_literal name
      pure (defaulted_column name type value)
    in if same_type ahead.type TokenType.ident && equal_fold ahead.literal (bytes "default")
      then with_default
      else pure (plain_column name type)

abbrev pub is_column_name : TokenType → Bool
is_column_name t = same_type t TokenType.ident || same_type t TokenType.string

abbrev pub is_ident : TokenType → Bool
is_ident t = same_type t TokenType.ident

unfoldable pub parse_column : P ColumnDef
parse_column = do
  name ← need_any is_column_name (got (bytes "expected column name"))
  type ← require is_ident (message (bytes "expected column type after " ++ name))
  optional_default name type

unfoldable pub parse_column_definitions : ℕ → P (List ColumnDef)
parse_column_definitions zero = out_of_fuel
parse_column_definitions (suc f) = do
  column ← parse_column
  let more = do next_token; columns ← parse_column_definitions f; pure (column ∷ columns)
  accept_peek TokenType.comma more (pure (column ∷ []))

unfoldable pub option_error : Text → Text → Token → Text
option_error key input ahead =
    bytes "expected = after WITH option "
    ++ (quote key
        ++ (bytes " (option names use underscore, not hyphen)\n"
            ++ format_error_pos input ahead.pos (bytes "here")))

-- `expectPeek(EQUAL)` with the message of its own.
unfoldable pub option_equal : Text → P (Unit {0})
option_equal key p = need_peek TokenType.equal (message (option_error key p.input (peek p))) p

abbrev pub is_option_value : TokenType → Bool
is_option_value t =
    same_type t TokenType.string || (same_type t TokenType.ident || same_type t TokenType.number)

unfoldable pub parse_option : P (Text × Text)
parse_option = do
  key ← require is_ident (got (bytes "expected WITH option key"))
  option_equal key
  next_token
  value ← require is_option_value (message (bytes "expected WITH option value for " ++ key))
  pure (key, value)

unfoldable pub parse_with_options : ℕ → Map Text → P (Map Text)
parse_with_options zero options = out_of_fuel
parse_with_options (suc f) options = do
  option ← parse_option
  let options' = insert option.0 option.1 options
  accept_peek TokenType.comma (next_token >> parse_with_options f options') (pure options')

-- An error of the list leaves no columns, and the tokens read so far are gone.
unfoldable pub partition_columns : Outcome (List Text) → Outcome (List Text)
partition_columns (done columns p) = accept TokenType.rparen (pure columns) (pure []) p
partition_columns (failed e p) = done [] p
partition_columns exhausted = exhausted

unfoldable pub partition_list : ℕ → P (List Text)
partition_list f p = partition_columns (parse_dotted_list f p)

unfoldable pub parse_partitioned_by : ℕ → P (List Text)
parse_partitioned_by f = look λ c _.
    let columns = do
      next_token
      accept TokenType.by (accept TokenType.lparen (partition_list f) (pure [])) (pure [])
    in if same_type c.type TokenType.ident && to_lower c.literal == bytes "partitioned"
      then columns
      else pure []

unfoldable pub parse_create_table : ℕ → P Statement
parse_create_table f = do
  external ← accept_peek TokenType.external (pure true) (pure false)
  expect_peek TokenType.table
  need_peek TokenType.ident (message (bytes "expected table name after CREATE TABLE"))
  name ← look λ c _. pure c.literal
  expect_peek TokenType.lparen
  next_token
  columns ← parse_column_definitions f
  expect_peek TokenType.rparen
  expect_peek TokenType.with
  expect_peek TokenType.lparen
  next_token
  options ← parse_with_options f []
  expect_peek TokenType.rparen
  next_token
  partition_by ← parse_partitioned_by f
  pure (
      Statement.create_table record {
        name = name;
        columns = columns;
        with_options = options;
        external = external;
        partition_by = partition_by;
      })
