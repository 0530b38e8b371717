-- ===== src/Parser/Progress/Select.antt =====
-- Queries.
use gsql.Common.{ℕ, zero, suc, ◌<◌, arith, Option, none, some, List, [], ◌∷◌}
use gsql.Text.{Text}
use gsql.Map.{Map}
use gsql.Parser.Ast.{Ctes, WindowExpr, nil}
use gsql.Parser.Token.{TokenType}
use gsql.Parser.Lists.{parse_dotted_list, parse_order_by_list}
use gsql.Parser.Arithmetic.{Calls}
use gsql.Parser.SelectItems.{parse_select_items}
use gsql.Parser.From.{from_clause, join_clauses, lateral_views}
use gsql.Parser.Select.{
  based_on, resolve_definition, referenced, resolve_reference, resolve_references, new_window_name,
  window_definition, window_definitions, window_clause, limit_value, limit_number, limit_clause,
  union_query, union_clause, parse_cte_list, group_clause, behind_items, select_core,
  parse_select_query,
}
use gsql.Parser.Progress.{Free, Eats, Free-pred, Free-Eats, Free-pure, Free-if}
use gsql.Parser.Progress.Accept.{Free-accept}
use gsql.Parser.Progress.Rules.{moving, Free-next, Eats-bind, Eats-need, Free-bind, Free-optional}
use gsql.Parser.Progress.Lists.{parse_dotted_list-Free, parse_order_by_list-Free}
use gsql.Parser.Progress.Arithmetic.{IsFree, IsFree-pred}
use gsql.Parser.Progress.WindowSpec.{keyword_by-Free, parse_window_features-Free, window_name-Free}
use gsql.Parser.Progress.SelectItems.{parse_select_items-Free}
use gsql.Parser.Progress.From.{from_clause-Free, join_clauses-Free, lateral_views-Free}

based_on-Free : (n : ℕ) (spec : WindowExpr) (base : Option WindowExpr) → Free n (based_on spec base)
unfolding based_on
based_on-Free n spec none = search moving
based_on-Free n spec (some base) = search moving

resolve_definition-Free :
    (n : ℕ) (windows : Map WindowExpr) (spec : WindowExpr)
    → Free n (resolve_definition windows spec)
unfolding resolve_definition
resolve_definition-Free n windows spec = search (moving, based_on-Free)

referenced-Free : (n : ℕ) (w : WindowExpr) (base : Option WindowExpr) → Free n (referenced w base)
unfolding referenced
referenced-Free n w none = search moving
referenced-Free n w (some base) = search moving

resolve_reference-Free :
    (n : ℕ) (windows : Map WindowExpr) (w : WindowExpr) → Free n (resolve_reference windows w)
unfolding resolve_reference
resolve_reference-Free n windows w = search (moving, referenced-Free)

resolve_references-Free :
    (n : ℕ) (windows : Map WindowExpr) (ws : List WindowExpr)
    → Free n (resolve_references windows ws)
unfolding resolve_references
resolve_references-Free n windows [] = search moving
resolve_references-Free n windows (w ∷ ws) =
    let rest : Free n (resolve_references windows ws) = resolve_references-Free n windows ws in
    search (moving, resolve_reference-Free)

new_window_name-Free :
    (n : ℕ) (windows : Map WindowExpr) (name : Text) (found : Option WindowExpr)
    → Free n (new_window_name windows name found)
unfolding new_window_name
new_window_name-Free n windows name none = search moving
new_window_name-Free n windows name (some w) = search moving

window_definition-Free :
    (n f : ℕ) (windows : Map WindowExpr) → n < f → Free n (window_definition f windows)
unfolding window_definition
window_definition-Free n f windows h =
    let features = λ (w : WindowExpr). Free-pred (parse_window_features-Free n f w h) in
    search (moving, features, new_window_name-Free, window_name-Free, resolve_definition-Free) depth
      60 fits 20000

window_definitions-Free :
    (n f : ℕ) (windows : Map WindowExpr) → n < f → Free n (window_definitions f windows)
unfolding window_definitions
window_definitions-Free n zero windows h = absurd (omega arith)
window_definitions-Free zero (suc f) windows h = record { at = λ p b. absurd (omega arith) }
window_definitions-Free (suc n) (suc f) windows h =
    let again = λ (w : Map WindowExpr). window_definitions-Free n f w (omega arith) in
    let definition : Free (suc n) (window_definition (suc f) windows) =
      window_definition-Free (suc n) (suc f) windows h in
    search (moving, again) depth 40 fits 20000

window_clause-Free : (n f : ℕ) → n < f → Free n (window_clause f)
unfolding window_clause
window_clause-Free n f h = search (moving, window_definitions-Free) depth 40 fits 20000

limit_value-Free : (n : ℕ) (s : Text) (o : Option ℕ) → Free n (limit_value s o)
unfolding limit_value
limit_value-Free n s none = search moving
limit_value-Free n s (some k) = search moving

limit_number-Free : (n : ℕ) → Free n limit_number
unfolding limit_number
limit_number-Free n = search (moving, limit_value-Free) depth 40 fits 20000

limit_clause-Free : (n : ℕ) → Free n limit_clause
unfolding limit_clause
limit_clause-Free n = search (moving, limit_number-Free) depth 40 fits 20000

behind_items-Free : (n : ℕ) (c : Calls) → Free n (behind_items c)
unfolding behind_items
behind_items-Free n c = record {
  at = λ p h.
      let step = Free-if {n = n} p.select_items_consumed_next (Free-pure tt) Free-next in
      step.at p h;
}

module _ (c : Calls) where
  union_query-Free : (n : ℕ) → IsFree n c → Free n (union_query c)
  unfolding union_query
  union_query-Free n s =
      let query : Free n c.select_query = Free-Eats s.select_query in
      search moving depth 40 fits 20000

  union_clause-Free : (n : ℕ) → IsFree n c → Free n (union_clause c)
  unfolding union_clause
  union_clause-Free n s = search (moving, union_query-Free) depth 40 fits 20000

  parse_cte_list-Free : (n f : ℕ) → n < f → IsFree n c → Free n (parse_cte_list c f)
  unfolding parse_cte_list
  parse_cte_list-Free n zero h s = absurd (omega arith)
  parse_cte_list-Free zero (suc f) h s = record { at = λ p b. absurd (omega arith) }
  parse_cte_list-Free (suc n) (suc f) h s =
      let query : Free n c.select_query = Free-pred (Free-Eats s.select_query) in
      let again : Free n (parse_cte_list c f) =
        parse_cte_list-Free n f (omega arith) (IsFree-pred n c s) in
      search moving depth 60 fits 20000

  group_clause-Free : (n f : ℕ) → n < f → IsFree n c → Free n (group_clause c f)
  unfolding group_clause
  group_clause-Free n f h s =
      let having : Free n c.expression = s.expression in
      let columns : Free n (parse_dotted_list f) = Free-pred (parse_dotted_list-Free n f h) in
      search (moving, keyword_by-Free) depth 40 fits 20000

  pub select_core-Eats :
      (n f : ℕ) (ctes : Ctes) → n < f → IsFree n c → Eats (suc n) (select_core c f ctes)
  unfolding select_core
  select_core-Eats n f ctes h s =
      let items : Free n (parse_select_items c f) = parse_select_items-Free c n f h s in
      let from : Free n (from_clause c f) = from_clause-Free n f h c s in
      let joins : Free n (join_clauses f) = Free-pred (join_clauses-Free n f h) in
      let lateral : Free n (lateral_views c f) = Free-pred (lateral_views-Free c n f h s) in
      let condition : Free n c.expression = s.expression in
      let grouping : Free n (group_clause c f) = group_clause-Free n f h s in
      let windows : Free n (window_clause f) = window_clause-Free n f h in
      let order : Free n (parse_order_by_list f) = Free-pred (parse_order_by_list-Free n f h) in
      let union : Free n (union_clause c) = union_clause-Free n s in
      Eats-bind (Eats-need TokenType.select _ tt) λ _.
        Free-bind (Free-optional TokenType.distinct) λ _. Free-bind items λ _.
          Free-bind (behind_items-Free n c) λ _. Free-bind from λ _. Free-bind joins λ _.
            Free-bind lateral λ _. Free-bind (Free-accept _ condition (Free-pure nil)) λ _.
              Free-bind grouping λ _. Free-bind windows λ _.
                Free-bind (resolve_references-Free n _ _) λ _.
                  Free-bind (keyword_by-Free n TokenType.order _ [] order)
                    λ _. Free-bind (limit_clause-Free n) λ _. Free-bind union λ _. search moving

  pub parse_select_query-Eats :
      (n f : ℕ) → n < f → IsFree n c → Eats (suc n) (parse_select_query c f)
  unfolding parse_select_query
  parse_select_query-Eats n f h s =
      let ctes : Free n (parse_cte_list c f) = parse_cte_list-Free n f h s in
      search (moving, select_core-Eats) depth 40 fits 20000
