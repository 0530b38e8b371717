-- ===== src/Parser/Progress/Lists.antt =====
-- The lists and names that the clauses share.
use gsql.Common.{ℕ, zero, suc, ◌<◌, arith}
use gsql.Text.{Text}
use gsql.Parser.Token.{same_type}
use gsql.Parser.Lists.{
  dotted_rest, parse_dotted_identifier, parse_dotted_list, parse_direction, parse_order_by_list,
  values_row, values_rows, parse_values_clause, is_literal,
}
use gsql.Parser.Progress.{Free, Eats, Free-below, Free-pred, Passes, Free-Eats}
use gsql.Parser.Progress.Rules.{moving}

dotted_rest-Free : (n f : ℕ) (name : Text) → n < f → Free (suc n) (dotted_rest f name)
unfolding dotted_rest
dotted_rest-Free n zero name h = absurd (omega arith)
dotted_rest-Free n (suc f) name h =
    let again = λ (s : Text). Free-below {n = n} (λ k b. dotted_rest-Free k f s (omega arith)) in
    search (moving, again) depth 30

pub parse_dotted_identifier-Eats : (n f : ℕ) → n < f → Eats (suc n) (parse_dotted_identifier f)
unfolding parse_dotted_identifier
parse_dotted_identifier-Eats n f h = search (moving, Free-pred, dotted_rest-Free) depth 30

pub parse_dotted_identifier-Free : (n f : ℕ) → n < f → Free (suc n) (parse_dotted_identifier f)
parse_dotted_identifier-Free n f h = Free-Eats (parse_dotted_identifier-Eats n f h)

pub parse_dotted_list-Free : (n f : ℕ) → n < f → Free (suc n) (parse_dotted_list f)
unfolding parse_dotted_list
parse_dotted_list-Free n zero h = absurd (omega arith)
parse_dotted_list-Free n (suc f) h =
    let again : Free n (parse_dotted_list f) =
      Free-below (λ k b. parse_dotted_list-Free k f (omega arith)) in
    search (moving, parse_dotted_identifier-Eats) depth 30

parse_direction-Free : (n : ℕ) → Free n parse_direction
unfolding parse_direction
parse_direction-Free n = search moving depth 30

pub parse_order_by_list-Free : (n f : ℕ) → n < f → Free (suc n) (parse_order_by_list f)
unfolding parse_order_by_list
parse_order_by_list-Free n zero h = absurd (omega arith)
parse_order_by_list-Free n (suc f) h =
    let again : Free n (parse_order_by_list f) =
      Free-below (λ k b. parse_order_by_list-Free k f (omega arith)) in
    search (moving, parse_dotted_identifier-Eats, parse_direction-Free) depth 30

pub is_literal-Passes : Passes (λ t _. is_literal t.type)
unfolding is_literal same_type
is_literal-Passes = record { not_eof = λ t a e. rw e }

pub values_row-Eats : (n f : ℕ) (text : Text) → n < f → Eats (suc n) (values_row f text)
unfolding values_row
values_row-Eats n zero text h = absurd (omega arith)
values_row-Eats n (suc f) text h =
    let again : Free n (values_row f text) =
      Free-below (λ k b. Free-Eats (values_row-Eats k f text (omega arith))) in
    search (moving, is_literal-Passes) depth 30

values_rows-Free : (n f : ℕ) → n < f → Free (suc n) (values_rows f)
unfolding values_rows
values_rows-Free n zero h = absurd (omega arith)
values_rows-Free n (suc f) h =
    let again : Free n (values_rows f) = Free-below (λ k b. values_rows-Free k f (omega arith)) in
    search (moving, values_row-Eats) depth 30

pub parse_values_clause-Free : (n f : ℕ) → n < f → Free (suc n) (parse_values_clause f)
unfolding parse_values_clause
parse_values_clause-Free n f h = search (moving, Free-pred, values_rows-Free) depth 30
