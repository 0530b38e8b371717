-- ===== src/Parser/From.antt =====
-- pkg/parser/parser.go: the FROM clause, joins and lateral views of parseSelectQuery.
use gsql.Common.{ℕ, zero, suc, ◌||◌, Option, none, some, List, [], ◌∷◌, ◌++◌, if◌then◌else◌}
use gsql.Text.{Text, bytes, to_upper, ◌==◌}
use gsql.Parser.Ast.{SelectQuery, JoinClause, LateralView, no_query}
use gsql.Parser.Token.{TokenType, same_type}
use gsql.Parser.State.{
  P, ◌>>=◌, ◌>>◌, pure, fail, out_of_fuel, next_token, look, accept, need, need_peek, optional,
  wrap, got, message,
}
use gsql.Parser.Lists.{parse_dotted_identifier, values_row}
use gsql.Parser.Arithmetic.{Calls}
use gsql.Parser.WindowSpec.{window_name, parse_func_args}

-- The variables that the FROM clause sets.
pub record From : Type 0 where
  pub table : Text
  pub table_alias : Text
  pub subquery : SelectQuery
  pub alias : Text
  pub values : Option (List (List Text))
  pub values_cols : List Text

abbrev pub no_from : From
no_from = record {
  table = [];
  table_alias = [];
  subquery = no_query;
  alias = [];
  values = none;
  values_cols = [];
}

-- `if p.curIs(AS) { p.nextToken() }`, then a name if one stands here.
unfoldable pub optional_name : P Text
optional_name = optional TokenType.as_kw >> window_name

-- The rows of VALUES in a FROM clause.
unfoldable pub from_rows : ℕ → P (List (List Text))
from_rows zero = out_of_fuel
from_rows (suc f) = do
  _ ← need TokenType.lparen (message (bytes "expected ( after VALUES"))
  row ← values_row (suc f) (bytes "VALUES")
  _ ← need TokenType.rparen (message (bytes "expected ) after VALUES row"))
  let more = from_rows f >>= λ rows. pure (row ∷ rows)
  accept TokenType.comma more (pure (row ∷ []))

-- Names separated by commas.
unfoldable pub names : ℕ → Text → P (List Text)
names zero text = out_of_fuel
names (suc f) text = do
  name ← need TokenType.ident (message text)
  let more = names f text >>= λ rest. pure (name ∷ rest)
  accept TokenType.comma more (pure (name ∷ []))

unfoldable pub value_columns : ℕ → P (List Text)
value_columns f = do
  columns ← names f (bytes "expected column name in VALUES alias")
  _ ← need TokenType.rparen (message (bytes "expected ) after VALUES column aliases"))
  pure columns

unfoldable pub from_values : ℕ → P From
from_values f = do
  rows ← from_rows f
  _ ← need TokenType.rparen (message (bytes "expected ) after VALUES list"))
  _ ← optional TokenType.as_kw
  alias ← need TokenType.ident (message (bytes "expected alias for VALUES in FROM clause"))
  columns ← accept TokenType.lparen (value_columns f) (pure [])
  pure (record no_from {
    table_alias = alias;
    alias = alias;
    values = some rows;
    values_cols = columns;
  })

module _ (c : Calls) where
  unfoldable pub from_subquery : P From
  from_subquery = do
    query ← c.select_query
    _ ← need TokenType.rparen (message (bytes "expected ) after subquery in FROM clause"))
    _ ← optional TokenType.as_kw
    alias ← need TokenType.ident (message (bytes "expected alias for subquery in FROM clause"))
    pure (record no_from { table_alias = alias; alias = alias; subquery = query })

  -- A token that is no name may be passed, when a name follows it.
  unfoldable pub from_table : P From
  from_table = do
    look λ t _.
        if same_type t.type TokenType.ident
        then pure tt
        else need_peek TokenType.ident (message (bytes "expected table name after FROM"))
    table ← look λ t _. next_token >> pure t.literal
    alias ← optional_name
    pure (record no_from { table = table; table_alias = alias })

  unfoldable pub from_clause : ℕ → P From
  from_clause f =
      accept TokenType.from
        (accept TokenType.lparen (accept TokenType.values (from_values f) from_subquery) from_table)
        (pure no_from)

abbrev plain_join : Text → Text → Text → JoinClause
plain_join table alias type = record {
  right_table = table;
  right_alias = alias;
  left_column = [];
  right_column = [];
  join_type = type;
}

-- The words in front of JOIN: the type, `none` where no join begins.
unfoldable pub join_words : P (Option Text)
join_words =
    let outer = λ (type : Text). optional TokenType.outer_kw >> pure (some type) in
    accept TokenType.cross_kw (pure (some (bytes "CROSS"))) (
      accept TokenType.semi_kw (pure (some (bytes "SEMI"))) (
        accept TokenType.left_kw
          (accept TokenType.semi_kw (pure (some (bytes "SEMI"))) (outer (bytes "LEFT")))
          (accept TokenType.right_kw (outer (bytes "RIGHT")) (
            accept TokenType.full_kw (outer (bytes "FULL")) (
              look λ t _.
                if same_type t.type TokenType.join
                then pure (some (bytes "INNER"))
                else pure none)))))

-- The condition behind ON.
unfoldable pub join_on : ℕ → JoinClause → P JoinClause
join_on f j = do
  _ ← need TokenType.on (
      message
        (bytes "expected ON after " ++ (j.join_type ++ (bytes " JOIN table " ++ j.right_table))))
  left ← wrap (j.join_type ++ bytes " JOIN ON left side: ") (parse_dotted_identifier f)
  _ ←
      need TokenType.equal
        (message (bytes "expected = in " ++ (j.join_type ++ bytes " JOIN ON clause")))
  right ← wrap (j.join_type ++ bytes " JOIN ON right side: ") (parse_dotted_identifier f)
  pure (record j { left_column = left; right_column = right })

-- From the word JOIN on.
unfoldable pub join_clause : ℕ → Text → P JoinClause
join_clause f type = do
  _ ← need TokenType.join (got (bytes "expected JOIN"))
  table ←
      need TokenType.ident (message (bytes "expected table name after " ++ (type ++ bytes " JOIN")))
  alias ← optional_name
  if type == bytes "CROSS"
      then pure (plain_join table alias type)
      else join_on f (plain_join table alias type)

-- The rest of the loop, where a join begins.
unfoldable pub next_join : Option Text → (Text → P (List JoinClause)) → P (List JoinClause)
next_join none k = pure []
next_join (some type) k = k type

unfoldable pub join_clauses : ℕ → P (List JoinClause)
join_clauses zero = out_of_fuel
join_clauses (suc f) = do
  words ← join_words
  next_join words λ type. do
    clause ← join_clause (suc f) type
    clauses ← join_clauses f
    pure (clause ∷ clauses)

-- EXPLODE or POSEXPLODE
unfoldable pub explode_name : P Text
explode_name = do
  word ← need TokenType.ident (message (bytes "expected EXPLODE or POSEXPLODE in LATERAL VIEW"))
  let name = to_upper word
  if name == bytes "EXPLODE" || name == bytes "POSEXPLODE"
      then pure name
      else fail (bytes "expected EXPLODE or POSEXPLODE in LATERAL VIEW, got " ++ name)

-- The columns behind the first, each after a comma.
unfoldable pub more_columns : ℕ → P (List Text)
more_columns zero = out_of_fuel
more_columns (suc f) =
    let column = do
      name ←
          need TokenType.ident (message (bytes "expected column alias after comma in LATERAL VIEW"))
      rest ← more_columns f
      pure (name ∷ rest)
    in accept TokenType.comma column (pure [])

module _ (c : Calls) where
  -- Behind LATERAL.
  unfoldable pub lateral_view : ℕ → P LateralView
  lateral_view f = do
    _ ← need TokenType.view_kw (message (bytes "expected VIEW after LATERAL"))
    is_outer ← optional TokenType.outer_kw
    name ← explode_name
    _ ← need TokenType.lparen (message (bytes "expected ( after " ++ name))
    args ← wrap (bytes "in LATERAL VIEW " ++ (name ++ bytes "(): ")) (parse_func_args c f)
    _ ← need TokenType.rparen (message (bytes "expected ) after " ++ (name ++ bytes " arguments")))
    table ←
        need TokenType.ident
          (message (bytes "expected table alias after " ++ (name ++ bytes "() in LATERAL VIEW")))
    _ ← optional TokenType.as_kw
    column ← need TokenType.ident (message (bytes "expected column alias in LATERAL VIEW"))
    columns ← more_columns f
    pure record {
      is_outer = is_outer;
      func_name = name;
      args = args;
      table_name = table;
      col_names = column ∷ columns;
    }

  unfoldable pub lateral_views : ℕ → P (List LateralView)
  lateral_views zero = out_of_fuel
  lateral_views (suc f) =
      let more = do view ← lateral_view (suc f); views ← lateral_views f; pure (view ∷ views)
      in accept TokenType.lateral_kw more (pure [])
