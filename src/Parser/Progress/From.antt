-- ===== src/Parser/Progress/From.antt =====
-- The FROM clause, joins and lateral views.
use gsql.Common.{ℕ, zero, suc, ◌<◌, arith, Option, none, some, List, []}
use gsql.Text.{Text}
use gsql.Parser.Ast.{JoinClause}
use gsql.Parser.State.{P}
use gsql.Parser.Arithmetic.{Calls}
use gsql.Parser.WindowSpec.{parse_func_args}
use gsql.Parser.Lists.{parse_dotted_identifier}
use gsql.Parser.From.{
  optional_name, from_rows, names, value_columns, from_values, from_subquery, from_table,
  from_clause, join_words, join_on, join_clause, next_join, join_clauses, explode_name,
  more_columns, lateral_view, lateral_views,
}
use gsql.Parser.Progress.{Free, Eats, Free-below, Free-pred, Free-Eats, Free-pure}
use gsql.Parser.Progress.Rules.{moving}
use gsql.Parser.Progress.Lists.{parse_dotted_identifier-Free, values_row-Eats}
use gsql.Parser.Progress.Arithmetic.{IsFree, IsFree-le}
use gsql.Parser.Progress.WindowSpec.{window_name-Free, parse_func_args-Free}

optional_name-Free : (n : ℕ) → Free n optional_name
unfolding optional_name
optional_name-Free n = search (moving, window_name-Free) depth 40 fits 20000

from_rows-Free : (n f : ℕ) → n < f → Free (suc n) (from_rows f)
unfolding from_rows
from_rows-Free n zero h = absurd (omega arith)
from_rows-Free n (suc f) h =
    let again : Free n (from_rows f) = Free-below (λ k b. from_rows-Free k f (omega arith)) in
    let row = λ (text : Text). Free-pred (Free-Eats (values_row-Eats n (suc f) text h)) in
    search (moving, row) depth 40 fits 20000

names-Free : (n f : ℕ) (text : Text) → n < f → Free (suc n) (names f text)
unfolding names
names-Free n zero text h = absurd (omega arith)
names-Free n (suc f) text h =
    let again : Free n (names f text) = Free-below (λ k b. names-Free k f text (omega arith)) in
    search moving depth 40 fits 20000

module _ (n f : ℕ) (h : n < f) where
  value_columns-Free : Free n (value_columns f)
  unfolding value_columns
  value_columns-Free =
      let columns = λ (text : Text). Free-pred (names-Free n f text h) in
      search (moving, columns) depth 40 fits 20000

  from_values-Free : Free n (from_values f)
  unfolding from_values
  from_values-Free =
      let rows : Free n (from_rows f) = Free-pred (from_rows-Free n f h) in
      search (moving, value_columns-Free) depth 40 fits 20000

  module _ (c : Calls) (s : IsFree n c) where
    from_subquery-Free : Free n (from_subquery c)
    unfolding from_subquery
    from_subquery-Free =
        let query : Free n c.select_query = Free-Eats s.select_query in
        search moving depth 40 fits 20000

    from_table-Free : Free n (from_table c)
    unfolding from_table
    from_table-Free = search (moving, optional_name-Free) depth 40 fits 20000

    pub from_clause-Free : Free n (from_clause c f)
    unfolding from_clause
    from_clause-Free =
        search (moving, from_values-Free, from_subquery-Free, from_table-Free) depth 40 fits 20000

join_words-Free : (n : ℕ) → Free n join_words
unfolding join_words
join_words-Free n = search moving depth 40 fits 20000

join_on-Free : (n f : ℕ) (j : JoinClause) → n < f → Free (suc n) (join_on f j)
unfolding join_on
join_on-Free n f j h =
    let column : Free n (parse_dotted_identifier f) =
      Free-pred (parse_dotted_identifier-Free n f h) in
    search moving depth 40 fits 20000

join_clause-Eats : (n f : ℕ) (type : Text) → n < f → Eats (suc n) (join_clause f type)
unfolding join_clause
join_clause-Eats n f type h =
    let on = λ (j : JoinClause). Free-pred (join_on-Free n f j h) in
    search (moving, on, optional_name-Free) depth 40 fits 20000

next_join-Free :
    (n : ℕ) (words : Option Text) (k : Text → P (List JoinClause))
    → ((type : Text) → Free n (k type))
    → Free n (next_join words k)
unfolding next_join
next_join-Free n none k h = Free-pure []
next_join-Free n (some type) k h = h type

pub join_clauses-Free : (n f : ℕ) → n < f → Free (suc n) (join_clauses f)
unfolding join_clauses
join_clauses-Free n zero h = absurd (omega arith)
join_clauses-Free n (suc f) h =
    let again : Free n (join_clauses f) = Free-below (λ k b. join_clauses-Free k f (omega arith)) in
    search (moving, next_join-Free, join_words-Free, join_clause-Eats) depth 40 fits 20000

explode_name-Free : (n : ℕ) → Free n explode_name
unfolding explode_name
explode_name-Free n = search moving depth 40 fits 20000

more_columns-Free : (n f : ℕ) → n < f → Free (suc n) (more_columns f)
unfolding more_columns
more_columns-Free n zero h = absurd (omega arith)
more_columns-Free n (suc f) h =
    let again : Free n (more_columns f) = Free-below (λ k b. more_columns-Free k f (omega arith)) in
    search moving depth 40 fits 20000

module _ (c : Calls) where
  lateral_view-Free : (n f : ℕ) → n < f → IsFree n c → Free n (lateral_view c f)
  unfolding lateral_view
  lateral_view-Free n f h s =
      let args : Free n (parse_func_args c f) = Free-pred (parse_func_args-Free c n f h s) in
      let columns : Free n (more_columns f) = Free-pred (more_columns-Free n f h) in
      search (moving, explode_name-Free) depth 60 fits 20000

  pub lateral_views-Free : (n f : ℕ) → n < f → IsFree n c → Free (suc n) (lateral_views c f)
  unfolding lateral_views
  lateral_views-Free n zero h s = absurd (omega arith)
  lateral_views-Free n (suc f) h s =
      let again : Free n (lateral_views c f) =
        Free-below
          (λ k b. lateral_views-Free k f (omega arith) (IsFree-le k n c (omega arith) s)) in
      let view : Free n (lateral_view c (suc f)) = lateral_view-Free n (suc f) h s in
      search moving depth 40 fits 20000
