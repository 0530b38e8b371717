-- ===== src/Parser/SelectItems.antt =====
-- pkg/parser/parser.go: the items of a SELECT list.
use gsql.Common.{
  ℕ, zero, suc, ◌-◌, Bool, false, ◌&&◌, List, [], ◌∷◌, ◌++◌, any, length, take, drop, leb,
  if◌then◌else◌,
}
use gsql.Text.{Text, bytes, itoa, to_upper, ◌==◌, has_suffix, has_prefix}
use gsql.Map.{Map, insert}
use gsql.Parser.Ast.{
  Expression, Expressions, AggregateExpr, WindowExpr, nil, literal, column_ref, no_expr, expr,
}
use gsql.Parser.Token.{TokenType, same_type}
use gsql.Parser.State.{
  P, ◌>>=◌, ◌>>◌, pure, fail, out_of_fuel, next_token, look, accept, accept_peek, require, optional,
  wrap, got, message,
}
use gsql.Parser.Lists.{is_literal}
use gsql.Parser.Arithmetic.{
  Calls, expr_to_string, is_arithmetic_op, parse_arithmetic_expr, parse_case_expr,
}
use gsql.Parser.Expr.{parse_cast_expr}
use gsql.Parser.WindowSpec.{parse_window_spec, window_of}

-- What `parseSelectItems` returns.
pub record Items : Type 0 where
  pub columns : List Text
  pub column_exprs : Expressions
  pub aggregates : List AggregateExpr
  pub window_exprs : List WindowExpr
  pub aliases : Map Text

unfoldable pub contains_column : List Text → Text → Bool
unfolding ◌==◌
contains_column columns name = any (λ c. c == name) columns

-- The loop from `n` on, for as many rounds; one more than there are columns finds a free key.
unfoldable pub key_from : ℕ → ℕ → List Text → Text → Text
unfolding contains_column itoa
key_from zero n columns base = base ++ (b'#' ∷ itoa n)
key_from (suc f) n columns base =
    let candidate = base ++ (b'#' ∷ itoa n) in
    let later = key_from f (suc n) columns base in
    if contains_column columns candidate then later else candidate

unfoldable pub unique_window_key : List Text → Text → Text
unfolding key_from contains_column
unique_window_key columns base =
    if contains_column columns base then key_from (length columns) 2 columns base else base

-- `append` of one expression
unfoldable pub add_expr : Expressions → Expression → Expressions
add_expr no_expr e = expr e no_expr
add_expr (expr d ds) e = expr d (add_expr ds e)

-- `slice[len(slice)-1] = v`
unfoldable pub set_last_expr : Expressions → Expression → Expressions
set_last_expr no_expr e = no_expr
set_last_expr (expr d no_expr) e = expr e no_expr
set_last_expr (expr d (expr d' ds)) e = expr d (set_last_expr (expr d' ds) e)

unfoldable pub set_last : List Text → Text → List Text
set_last [] s = []
set_last (x ∷ []) s = s ∷ []
set_last (x ∷ y ∷ xs) s = x ∷ set_last (y ∷ xs) s

abbrev pub blank_aggregate : AggregateExpr
blank_aggregate = record { func_name = []; column = []; args = []; distinct = false }

abbrev pub append_column : Text → Expression → Items → Items
append_column key e items = record items {
  columns = items.columns ++ (key ∷ []);
  column_exprs = add_expr items.column_exprs e;
}

-- A computed item: an empty aggregate and an empty window go with it.
abbrev pub add_computed : Text → Expression → Items → Items
add_computed key e items = record (append_column key e items) {
  aggregates = items.aggregates ++ (blank_aggregate ∷ []);
  window_exprs = items.window_exprs ++ (window_of [] [] [] ∷ []);
}

abbrev pub add_aggregate : Text → AggregateExpr → Items → Items
add_aggregate key aggregate items = record (append_column key nil items) {
  aggregates = items.aggregates ++ (aggregate ∷ []);
}

abbrev pub add_window : Text → WindowExpr → Items → Items
add_window key w items = record (append_column key nil items) {
  window_exprs = items.window_exprs ++ (w ∷ []);
}

abbrev pub add_alias : Text → Text → Items → Items
add_alias alias key items = record items { aliases = insert alias key items.aliases }

-- `if p.cur.Type == IDENT { colAliases[p.cur.Literal] = key }`
unfoldable pub alias_here : Text → Items → P Items
alias_here key items = look λ t _.
    if same_type t.type TokenType.ident then pure (add_alias t.literal key items) else pure items

-- `if p.curIs(AS) { p.nextToken() }`, then an alias if a name stands here.
unfoldable pub optional_alias : Text → Items → P Items
optional_alias key items = optional TokenType.as_kw >> alias_here key items

-- `if p.curIs(AS) { p.nextToken(); … }`
unfoldable pub alias_behind_as : Text → Items → P Items
alias_behind_as key items = accept TokenType.as_kw (alias_here key items) (pure items)

-- `if p.peekIs(AS) { p.nextToken(); if p.peekIs(IDENT) { p.nextToken(); … } }`
unfoldable pub alias_ahead : Text → Items → P Items
alias_ahead key items =
    accept_peek TokenType.as_kw (accept_peek TokenType.ident (alias_here key items) (pure items))
      (pure items)

-- The key without its outer parentheses.
unfoldable pub strip_key : Text → Text
unfolding has_suffix has_prefix
strip_key key =
    if leb 2 (length key) && (has_prefix key (bytes "(") && has_suffix key (bytes ")"))
    then drop 1 (take (length key - 1) key)
    else key

abbrev call_key : Text → Bool → List Text → Text
call_key name distinct [] =
    name ++ (b'(' ∷ ((if distinct then bytes "DISTINCT " else []) ++ bytes ")"))
call_key name distinct (arg ∷ args) =
    name ++ (b'(' ∷ ((if distinct then bytes "DISTINCT " else []) ++ (arg ++ bytes ")")))

abbrev first_arg : List Text → Text
first_arg [] = []
first_arg (arg ∷ args) = arg

abbrev aggregate_of : Text → Bool → List Text → AggregateExpr
aggregate_of name distinct args = record {
  func_name = name;
  column = first_arg args;
  args = args;
  distinct = distinct;
}

abbrev keyed : Text → WindowExpr → WindowExpr
keyed key w = record w { result_key = key }

module _ (c : Calls) where
  unfoldable pub case_item : ℕ → Items → P Items
  case_item f items = do
    e ← parse_case_expr c f
    let key = bytes "CASE_" ++ itoa (length items.columns)
    optional_alias key (add_computed key e items)

  unfoldable pub cast_item : ℕ → Items → P Items
  cast_item f items = do
    e ← parse_cast_expr f
    optional_alias (expr_to_string e) (add_computed (expr_to_string e) e items)

  -- Arithmetic that begins with the literal; the token behind it is passed too.
  unfoldable pub literal_arithmetic : ℕ → Items → P Items
  literal_arithmetic f items = look λ t ahead.
      let computed = do
        next_token
        e ← parse_arithmetic_expr c f (literal t.literal)
        next_token
        pure (record items {
          columns = set_last items.columns (expr_to_string e);
          column_exprs = set_last_expr items.column_exprs e;
        })
      in if is_arithmetic_op ahead.type then computed else pure items

  unfoldable pub literal_item : ℕ → Items → P Items
  literal_item f items = look λ t _.
      let key = bytes "LITERAL_" ++ itoa (length items.columns) in
      let added = add_computed key (literal t.literal) items in
      accept_peek TokenType.as_kw (next_token >> alias_here key added) (pure added) >>= λ named.
      literal_arithmetic f named

  unfoldable pub window_item : ℕ → Text → Text → List Text → Items → P Items
  window_item f name key args items = do
    w ← parse_window_spec f name args
    let result_key = unique_window_key items.columns key
    alias_behind_as result_key (add_window result_key (keyed result_key w) items)

  -- Behind the name and the parenthesis of a call.
  unfoldable pub call_item : ℕ → Text → Items → P Items
  call_item f name items = do
    distinct ← optional TokenType.distinct
    args ← wrap (bytes "inside " ++ (name ++ bytes "(): ")) c.func_args
    _ ←
        require (λ t. same_type t TokenType.rparen)
          (message (bytes "expected ) after argument in " ++ (name ++ bytes "()")))
    let key = call_key name distinct args
    accept_peek TokenType.over (next_token >> window_item f name key args items)
        (alias_ahead key (add_aggregate key (aggregate_of name distinct args) items))

  -- The column behind a table's name and a dot; its token stays current.
  unfoldable pub qualified_name : Text → P Text
  qualified_name table =
      let column = do
        next_token
        name ←
            require (λ t. same_type t TokenType.ident)
              (message (bytes "expected column name after ."))
        pure (table ++ (b'.' ∷ name))
      in accept_peek TokenType.dot column (pure table)

  unfoldable pub computed_item : ℕ → Text → Items → P Items
  computed_item f name items = do
    next_token
    e ← parse_arithmetic_expr c f (column_ref name)
    let key = strip_key (expr_to_string e)
    alias_behind_as key (append_column key e items)

  unfoldable pub column_item : ℕ → Text → Items → P Items
  column_item f table items = do
    name ← qualified_name table
    look λ _ ahead.
        if is_arithmetic_op ahead.type
        then computed_item f name items
        else alias_ahead name (append_column name nil items)

  unfoldable pub select_item : ℕ → Items → P Items
  select_item f items = look λ t ahead.
      let call = next_token >> (next_token >> call_item f (to_upper t.literal) items) in
      let names =
        if same_type ahead.type TokenType.lparen then call else column_item f t.literal items in
      let others =
        if is_literal t.type
        then literal_item f items
        else fail (got (bytes "expected column name or aggregate function") t.type) in
      let rest = if same_type t.type TokenType.ident then names else others in
      accept TokenType.case_kw (case_item f items)
        (if same_type t.type TokenType.cast_kw then cast_item f items else rest)

  unfoldable pub select_items : ℕ → Items → P Items
  select_items zero items = out_of_fuel
  select_items (suc f) items = do
    items' ← select_item (suc f) items
    accept TokenType.comma (select_items f items')
        (accept_peek TokenType.comma (next_token >> select_items f items') (pure items'))

  abbrev no_items : Items
  no_items = record {
    columns = [];
    column_exprs = no_expr;
    aggregates = [];
    window_exprs = [];
    aliases = [];
  }

  -- `*` stays current.
  unfoldable pub parse_select_items : ℕ → P Items
  parse_select_items f = look λ t _.
      if same_type t.type TokenType.asterisk
      then pure (record no_items { columns = bytes "*" ∷ [] })
      else select_items f no_items
