-- ===== src/Parser/Progress/Statements.antt =====
-- The depth and the rounds that `Parse` is given are enough for every input.
use gsql.Common.{ℕ, zero, suc, ◌<◌, ◌≢◌, arith, Bool, List, length}
use gsql.Text.{Text}
use gsql.Parser.Ast.{Statement, nil}
use gsql.Parser.Token.{TokenType}
use gsql.Parser.Source.{remove_comments}
use gsql.Parser.State.{Outcome, done, failed, exhausted, new_parser}
use gsql.Parser.Lists.{parse_values_clause}
use gsql.Parser.Statements.{
  calls, insert_mode, insert_values, insert_query, parse_insert_overwrite, explained, selected,
  statement_of, parse_statement, statements, parse,
}
use gsql.Parser.Progress.{Free, Eats, Within, Free-below, Free-pred, Free-Eats, Eats-le}
use gsql.Parser.Progress.Rules.{moving}
use gsql.Parser.Progress.Lists.{parse_values_clause-Free}
use gsql.Parser.Progress.CreateTable.{parse_create_table-Eats}
use gsql.Parser.Progress.Arithmetic.{
  IsFree, parse_arithmetic_binary-Free, parse_arithmetic_binary-operator,
  parse_arithmetic_expr-Free,
}
use gsql.Parser.Progress.Expr.{parse_expression-Free}
use gsql.Parser.Progress.WindowSpec.{parse_func_args-Free}
use gsql.Parser.Progress.Select.{parse_select_query-Eats}

-- With fewer than `n` tokens left, depth `n` is enough.
pub calls-IsFree : (n : ℕ) → IsFree n (calls n)
unfolding calls
calls-IsFree zero = record {
  expression = record { at = λ p h. absurd (omega arith) };
  select_query = record { at = λ p h. absurd (omega arith) };
  arithmetic_binary = λ e least. record { at = λ p h. absurd (omega arith) };
  arithmetic_expr = record { at = λ p h. absurd (omega arith) };
  func_args = record { at = λ p h. absurd (omega arith) };
  operator = λ e least p h t. absurd (omega arith);
}
calls-IsFree (suc n) =
    let s = calls-IsFree n in
    let h : n < suc n = omega arith in
    record {
      expression = parse_expression-Free (calls n) n (suc n) h s;
      select_query = parse_select_query-Eats (calls n) n (suc n) h s;
      arithmetic_binary = λ e least. parse_arithmetic_binary-Free (calls n) n (suc n) e least h s;
      arithmetic_expr = parse_arithmetic_expr-Free (calls n) n (suc n) nil h s;
      func_args = parse_func_args-Free (calls n) n (suc n) h s;
      operator =
          λ e least p b t. parse_arithmetic_binary-operator (calls n) n (suc n) e least p h s b t;
    }

insert_mode-Eats : (n : ℕ) → Eats (suc n) insert_mode
unfolding insert_mode
insert_mode-Eats n = search moving depth 40 fits 20000

module _ (n : ℕ) where
  select_query-Eats : Eats (suc n) (calls (suc n)).select_query
  select_query-Eats = (calls-IsFree (suc n)).select_query

  explained-Eats : Eats (suc n) (explained (suc n))
  unfolding explained
  explained-Eats = search (moving, select_query-Eats) depth 40 fits 20000

  selected-Eats : Eats (suc n) (selected (suc n))
  unfolding selected
  selected-Eats = search (moving, select_query-Eats) depth 40 fits 20000

  insert_values-Free :
      (table : Text) (appending : Bool) → Free n (insert_values (suc n) table appending)
  unfolding insert_values
  insert_values-Free table appending =
      let values : Free n (parse_values_clause (suc n)) =
        Free-pred (parse_values_clause-Free n (suc n) (omega arith)) in
      search moving depth 40 fits 20000

  insert_query-Free :
      (table : Text) (appending : Bool) → Free n (insert_query (suc n) table appending)
  unfolding insert_query
  insert_query-Free table appending =
      let query : Free n (calls (suc n)).select_query = Free-pred (Free-Eats select_query-Eats) in
      search moving depth 40 fits 20000

  parse_insert_overwrite-Eats : Eats (suc n) (parse_insert_overwrite (suc n))
  unfolding parse_insert_overwrite
  parse_insert_overwrite-Eats =
      search (moving, insert_mode-Eats, insert_values-Free, insert_query-Free) depth 40 fits 20000

  statement_of-Eats : (t : TokenType) (word : Text) → Eats (suc n) (statement_of (suc n) t word)
  unfolding statement_of
  statement_of-Eats TokenType.create word = parse_create_table-Eats n (suc n) (omega arith)
  statement_of-Eats TokenType.insert word = parse_insert_overwrite-Eats
  statement_of-Eats TokenType.explain word = search (moving, explained-Eats) depth 40 fits 20000
  statement_of-Eats TokenType.with word = selected-Eats
  statement_of-Eats TokenType.select word = selected-Eats
  statement_of-Eats _ word = search moving

  pub parse_statement-Eats : Eats (suc n) (parse_statement (suc n))
  unfolding parse_statement
  parse_statement-Eats = search (moving, statement_of-Eats)

statements-Free : (n f : ℕ) → n < f → Free (suc n) (statements f)
unfolding statements
statements-Free n zero h = absurd (omega arith)
statements-Free n (suc f) h =
    let again : Free n (statements f) = Free-below (λ k b. statements-Free k f (omega arith)) in
    let one : Eats (suc n) (parse_statement (suc f)) =
      Eats-le (suc n) (omega arith) (parse_statement-Eats f) in
    search moving depth 40 fits 20000

Within-ne-exhausted : (o : Outcome (List Statement)) (k : ℕ) → Within k o → o ≢ exhausted
Within-ne-exhausted (done a p) k w e = cc
Within-ne-exhausted (failed m p) k w e = cc
Within-ne-exhausted exhausted k w e = w

-- Parsing ends on every text: the rounds and the depth that `Parse` is given here, one more than
-- the text has tokens, never run out.
pub parse-ne-exhausted : (sql : Text) → parse sql ≢ exhausted
unfolding parse
parse-ne-exhausted sql =
    let p = new_parser (remove_comments sql) in
    let n = length p.tokens in
    Within-ne-exhausted _ n ((statements-Free n (suc n) (omega arith)).at p (omega arith))
