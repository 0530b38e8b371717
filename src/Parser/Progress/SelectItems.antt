-- ===== src/Parser/Progress/SelectItems.antt =====
-- The items of a SELECT list. All of them are behind SELECT.
use gsql.Common.{ℕ, zero, suc, ◌<◌, arith, List}
use gsql.Text.{Text}
use gsql.Parser.Ast.{Expression}
use gsql.Parser.Arithmetic.{Calls, parse_arithmetic_expr, parse_case_expr}
use gsql.Parser.WindowSpec.{parse_window_spec}
use gsql.Parser.SelectItems.{
  Items, alias_here, optional_alias, alias_behind_as, alias_ahead, case_item, cast_item,
  literal_arithmetic, literal_item, window_item, call_item, qualified_name, computed_item,
  column_item, select_item, select_items, parse_select_items,
}
use gsql.Parser.Progress.{Free, Free-pred, Free-Eats}
use gsql.Parser.Progress.Rules.{moving}
use gsql.Parser.Progress.Arithmetic.{
  IsFree, IsFree-pred, parse_arithmetic_expr-Free, parse_case_expr-Free,
}
use gsql.Parser.Progress.Expr.{parse_cast_expr-Eats}
use gsql.Parser.Progress.WindowSpec.{parse_window_spec-Free}

alias_here-Free : (n : ℕ) (key : Text) (items : Items) → Free n (alias_here key items)
unfolding alias_here
alias_here-Free n key items = search moving depth 40 fits 20000

optional_alias-Free : (n : ℕ) (key : Text) (items : Items) → Free n (optional_alias key items)
unfolding optional_alias
optional_alias-Free n key items = search (moving, alias_here-Free) depth 40 fits 20000

alias_behind_as-Free : (n : ℕ) (key : Text) (items : Items) → Free n (alias_behind_as key items)
unfolding alias_behind_as
alias_behind_as-Free n key items = search (moving, alias_here-Free) depth 40 fits 20000

alias_ahead-Free : (n : ℕ) (key : Text) (items : Items) → Free n (alias_ahead key items)
unfolding alias_ahead
alias_ahead-Free n key items = search (moving, alias_here-Free) depth 40 fits 20000

module _ (c : Calls) (n f : ℕ) (h : n < f) (s : IsFree n c) where
  arithmetic_expr-Free : (e : Expression) → Free n (parse_arithmetic_expr c f e)
  arithmetic_expr-Free e = Free-pred (parse_arithmetic_expr-Free c n f e h s)

  case_item-Free : (items : Items) → Free n (case_item c f items)
  unfolding case_item
  case_item-Free items =
      let in_case : Free n (parse_case_expr c f) = parse_case_expr-Free c n f h s in
      search (moving, optional_alias-Free) depth 40 fits 20000

  cast_item-Free : (items : Items) → Free n (cast_item c f items)
  unfolding cast_item
  cast_item-Free items =
      let cast = Free-pred (Free-Eats (parse_cast_expr-Eats n f h)) in
      search (moving, optional_alias-Free, cast) depth 40 fits 20000

  literal_arithmetic-Free : (items : Items) → Free n (literal_arithmetic c f items)
  unfolding literal_arithmetic
  literal_arithmetic-Free items = search (moving, arithmetic_expr-Free) depth 40 fits 20000

  literal_item-Free : (items : Items) → Free n (literal_item c f items)
  unfolding literal_item
  literal_item-Free items =
      search (moving, alias_here-Free, literal_arithmetic-Free) depth 40 fits 20000

  window_item-Free :
      (name key : Text) (args : List Text) (items : Items)
      → Free n (window_item c f name key args items)
  unfolding window_item
  window_item-Free name key args items =
      let spec : Free n (parse_window_spec f name args) =
        Free-pred (parse_window_spec-Free n f name args h) in
      search (moving, alias_behind_as-Free) depth 40 fits 20000

  call_item-Free : (name : Text) (items : Items) → Free n (call_item c f name items)
  unfolding call_item
  call_item-Free name items =
      let args : Free n c.func_args = s.func_args in
      search (moving, window_item-Free, alias_ahead-Free) depth 40 fits 20000

  qualified_name-Free : (table : Text) → Free n (qualified_name c table)
  unfolding qualified_name
  qualified_name-Free table = search moving depth 40 fits 20000

  computed_item-Free : (name : Text) (items : Items) → Free n (computed_item c f name items)
  unfolding computed_item
  computed_item-Free name items =
      search (moving, arithmetic_expr-Free, alias_behind_as-Free) depth 40 fits 20000

  column_item-Free : (table : Text) (items : Items) → Free n (column_item c f table items)
  unfolding column_item
  column_item-Free table items =
      search (moving, qualified_name-Free, computed_item-Free, alias_ahead-Free) depth 40 fits 20000

  select_item-Free : (items : Items) → Free n (select_item c f items)
  unfolding select_item
  select_item-Free items =
      search
        (
          moving, case_item-Free, cast_item-Free, literal_item-Free, call_item-Free,
          column_item-Free,
        )
        depth 40 fits 20000

module _ (c : Calls) where
  select_items-Free :
      (n f : ℕ) (items : Items) → n < f → IsFree n c → Free n (select_items c f items)
  unfolding select_items
  select_items-Free n zero items h s = absurd (omega arith)
  select_items-Free zero (suc f) items h s = record { at = λ p b. absurd (omega arith) }
  select_items-Free (suc n) (suc f) items h s =
      let again = λ (i : Items). select_items-Free n f i (omega arith) (IsFree-pred n c s) in
      let item = λ (i : Items). select_item-Free c (suc n) (suc f) h s i in
      search (moving, again, item) depth 40 fits 20000

  pub parse_select_items-Free : (n f : ℕ) → n < f → IsFree n c → Free n (parse_select_items c f)
  unfolding parse_select_items
  parse_select_items-Free n f h s = search (moving, select_items-Free) depth 40 fits 20000
