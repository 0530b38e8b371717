-- ===== src/Parser/Select.antt =====
pub mod Lost
pub mod Ends
-- pkg/parser/parser.go: queries, their common table expressions, named windows and clauses.
use gsql.Common.{
  ℕ, zero, suc, Bool, true, false, not, ◌&&◌, ◌||◌, Option, none, some, List, [], ◌∷◌, ◌++◌, all,
  if◌then◌else◌,
}
use gsql.Common.Int.{ℤ, pos}
use gsql.Text.{Text, bytes, to_lower, ◌==◌}
use gsql.Map.{Map, lookup, insert}
use gsql.Parser.Ast.{
  Expression, Ctes, SelectQuery, SortOrder, WindowExpr, JoinClause, LateralView, nil, no_cte, cte,
  no_query, select_query,
}
use gsql.Parser.Token.{TokenType, Token, same_type, token_name}
use gsql.Parser.Lexer.{is_digit}
use gsql.Parser.State.{
  Parser, P, ◌>>=◌, ◌>>◌, pure, fail, out_of_fuel, next_token, look, accept, accept_if, accept_peek,
  require, need, optional, expect_peek, got, message,
}
use gsql.Parser.Lists.{parse_dotted_list, parse_order_by_list}
use gsql.Parser.CreateTable.{quote}
use gsql.Parser.Arithmetic.{Calls}
use gsql.Parser.WindowSpec.{atoi, keyword_by, parse_window_features, window_name, window_of}
use gsql.Parser.SelectItems.{Items, parse_select_items}
use gsql.Parser.From.{From, from_clause, join_clauses, lateral_views}

-- What a specification sets of its own comes before what it takes from the base.
abbrev or_list {ℓ} : {A : Type ℓ} → List A → List A → List A
or_list [] base = base
or_list (x ∷ xs) base = x ∷ xs

abbrev or_some {ℓ} : {A : Type ℓ} → Option A → Option A → Option A
or_some none base = base
or_some (some x) base = some x

-- `spec` on top of `base`, as the features of `w`.
unfoldable pub inherit : WindowExpr → WindowExpr → WindowExpr → WindowExpr
inherit spec base w = record w {
  partition_by = or_list spec.partition_by base.partition_by;
  order_by = or_list spec.order_by base.order_by;
  frame = or_some spec.frame base.frame;
}

abbrev missing_window : Text → Text
missing_window name = bytes "window " ++ (quote name ++ bytes " does not exist")

unfoldable pub based_on : WindowExpr → Option WindowExpr → P WindowExpr
based_on spec none = fail (missing_window spec.window_ref)
based_on spec (some base) = pure (inherit spec base base)

-- A definition that may extend a window defined before it.
unfoldable pub resolve_definition : Map WindowExpr → WindowExpr → P WindowExpr
resolve_definition windows spec =
    if spec.window_ref == []
    then pure spec
    else based_on spec (lookup (to_lower spec.window_ref) windows)

unfoldable pub referenced : WindowExpr → Option WindowExpr → P WindowExpr
referenced w none = fail (missing_window w.window_ref)
referenced w (some base) = pure (inherit w base w)

unfoldable pub resolve_reference : Map WindowExpr → WindowExpr → P WindowExpr
resolve_reference windows w =
    if w.window_ref == [] then pure w else referenced w (lookup (to_lower w.window_ref) windows)

-- `OVER (name)` takes what it does not set itself from the named window.
unfoldable pub resolve_references : Map WindowExpr → List WindowExpr → P (List WindowExpr)
resolve_references windows [] = pure []
resolve_references windows (w ∷ ws) = do
  w' ← resolve_reference windows w
  ws' ← resolve_references windows ws
  pure (w' ∷ ws')

unfoldable pub new_window_name : Map WindowExpr → Text → Option WindowExpr → P (Unit {0})
new_window_name windows name none = pure tt
new_window_name windows name (some w) =
    fail (bytes "window " ++ (name ++ bytes " is defined more than once"))

-- One definition of the WINDOW clause: its name in lower case, and the window.
unfoldable pub window_definition : ℕ → Map WindowExpr → P (Text × WindowExpr)
window_definition f windows = do
  word ←
      require (λ t. same_type t TokenType.ident)
        (got (bytes "expected window name in WINDOW clause"))
  let name = to_lower word
  new_window_name windows word (lookup name windows)
  next_token
  _ ← need TokenType.as_kw (message (bytes "expected AS after window name " ++ name))
  _ ← need TokenType.lparen (message (bytes "expected ( after AS for window " ++ name))
  ref ← window_name
  spec ← parse_window_features f (window_of [] [] ref)
  _ ← need TokenType.rparen (got (bytes "expected ) after definition of window " ++ name))
  spec' ← resolve_definition windows spec
  pure (name, spec')

unfoldable pub window_definitions : ℕ → Map WindowExpr → P (Map WindowExpr)
window_definitions zero windows = out_of_fuel
window_definitions (suc f) windows = do
  definition ← window_definition (suc f) windows
  let windows' = insert definition.0 definition.1 windows
  accept TokenType.comma (window_definitions f windows') (pure windows')

unfoldable pub window_clause : ℕ → P (Map WindowExpr)
window_clause f = accept TokenType.window_kw (window_definitions f []) (pure [])

-- The error of strconv.Atoi.
unfoldable pub atoi_error : Text → Text
unfolding is_digit ◌==◌
atoi_error s =
    bytes "strconv.Atoi: parsing "
    ++ (quote s
        ++ (if not (s == []) && all is_digit s
            then bytes ": value out of range"
            else bytes ": invalid syntax"))

unfoldable pub limit_value : Text → Option ℕ → P (Option ℕ)
limit_value s none = fail (bytes "invalid LIMIT value: " ++ atoi_error s)
limit_value s (some n) = next_token >> pure (some n)

unfoldable pub limit_number : P (Option ℕ)
limit_number = do
  s ← require (λ t. same_type t TokenType.number) (message (bytes "expected integer after LIMIT"))
  limit_value s (atoi s)

unfoldable pub limit_clause : P (Option ℕ)
limit_clause = accept TokenType.limit limit_number (pure none)

abbrev limit_of : Option ℕ → ℤ
limit_of none = pos 0
limit_of (some n) = pos n

abbrev is_set : Option ℕ → Bool
is_set none = false
is_set (some n) = true

abbrev pub ends_query : TokenType → Bool
ends_query t =
    same_type t TokenType.semicolon || (same_type t TokenType.eof || same_type t TokenType.rparen)

-- UNION, whether ALL follows, and the query behind it.
abbrev Union : Type 0
Union = SelectQuery × Bool

module _ (c : Calls) where
  unfoldable pub union_query : P Union
  union_query = do
    all_rows ← look λ t _.
        if same_type t.type TokenType.ident && to_lower t.literal == bytes "all"
        then (next_token >> pure true)
        else pure false
    query ← c.select_query
    pure (query, all_rows)

  unfoldable pub union_clause : P Union
  union_clause = accept TokenType.union union_query (pure (no_query, false))

  unfoldable pub parse_cte_list : ℕ → P Ctes
  parse_cte_list zero = out_of_fuel
  parse_cte_list (suc f) = do
    name ← require (λ t. same_type t TokenType.ident) (got (bytes "expected CTE name"))
    expect_peek TokenType.as_kw
    expect_peek TokenType.lparen
    next_token
    query ← c.select_query
    _ ←
        require (λ t. same_type t TokenType.rparen)
          (message (bytes "expected closing parenthesis for CTE " ++ name))
    let more = next_token >> (parse_cte_list f >>= λ ctes. pure (cte name query ctes))
    accept_peek TokenType.comma more (next_token >> pure (cte name query no_cte))

  abbrev Grouping : Type 0
  Grouping = List Text × Expression

  -- GROUP BY and HAVING.
  unfoldable pub group_clause : ℕ → P Grouping
  group_clause f = do
    group_by ← keyword_by TokenType.group (parse_dotted_list f) []
    having ← accept TokenType.having c.expression (pure nil)
    pure (group_by, having)

  -- `if !p.selectItemsConsumedNext { p.nextToken() }`
  unfoldable pub behind_items : P (Unit {0})
  behind_items p = (if p.select_items_consumed_next then pure tt else next_token) p

  -- From SELECT on.
  unfoldable pub select_core : ℕ → Ctes → P SelectQuery
  select_core f ctes = do
    _ ← need TokenType.select (got (bytes "expected SELECT"))
    distinct ← optional TokenType.distinct
    items ← parse_select_items c f
    behind_items
    from ← from_clause c f
    joins ← join_clauses f
    lateral ← lateral_views c f
    where_expr ← accept TokenType.where_kw c.expression (pure nil)
    grouping ← group_clause f
    windows ← window_clause f
    window_exprs ← resolve_references windows items.window_exprs
    order_by ← keyword_by TokenType.order (parse_order_by_list f) []
    limit ← limit_clause
    union ← union_clause
    _ ←
        require ends_query
          (λ t. bytes "unexpected token " ++ (token_name t ++ bytes " after SELECT query"))
    pure (
        select_query ctes items.columns items.column_exprs distinct from.table from.table_alias
          from.subquery from.alias from.values from.values_cols joins where_expr grouping.0
          grouping.1 order_by (limit_of limit) (is_set limit) items.aggregates window_exprs
          items.aliases union.0 union.1 lateral)

  unfoldable pub parse_select_query : ℕ → P SelectQuery
  parse_select_query f = do
    ctes ← accept TokenType.with (parse_cte_list f) (pure no_cte)
    select_core f ctes
