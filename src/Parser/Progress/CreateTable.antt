-- ===== src/Parser/Progress/CreateTable.antt =====
-- CREATE TABLE.
use gsql.Common.{ℕ, zero, suc, ◌<◌, arith, List, []}
use gsql.Parser.Lists.{parse_dotted_list}
use gsql.Text.{Text}
use gsql.Map.{Map}
use gsql.Parser.Token.{TokenType, Token, same_type}
use gsql.Parser.State.{Outcome, done, failed, exhausted, peek, accept, pure}
use gsql.Parser.CreateTable.{
  signed_default, default_of, parse_default_literal, optional_default, parse_column,
  parse_column_definitions, option_equal, parse_option, parse_with_options, partition_columns,
  partition_list, parse_partitioned_by, parse_create_table, is_column_name, option_error,
}
use gsql.Parser.Progress.{
  Free, Eats, Within, Within-le, left, Free-below, Free-pred, Passes, Free-pure,
}
use gsql.Parser.Progress.Accept.{Free-accept}
use gsql.Parser.Progress.Rules.{moving, Eats-need_peek}
use gsql.Parser.Progress.Lists.{parse_dotted_list-Free}

signed_default-Free : (n : ℕ) (column : Text) (c : Token) → Free n (signed_default column c)
unfolding signed_default
signed_default-Free n column c = search moving depth 30

default_of-Free :
    (n : ℕ) (column : Text) (c : Token) (t : TokenType) → Free n (default_of column c t)
unfolding default_of
default_of-Free n column c TokenType.minus = signed_default-Free n column c
default_of-Free n column c TokenType.plus = signed_default-Free n column c
default_of-Free n column c _ = search moving depth 30

parse_default_literal-Free : (n : ℕ) (column : Text) → Free n (parse_default_literal column)
unfolding parse_default_literal
parse_default_literal-Free n column = search (moving, default_of-Free) depth 30

optional_default-Free : (n : ℕ) (name type : Text) → Free n (optional_default name type)
unfolding optional_default
optional_default-Free n name type = search (moving, parse_default_literal-Free) depth 30

is_column_name-Passes : Passes (λ t _. is_column_name t.type)
unfolding same_type
is_column_name-Passes = record { not_eof = λ t a e. rw e }

parse_column-Eats : (n : ℕ) → Eats (suc n) parse_column
unfolding parse_column
parse_column-Eats n = search (moving, is_column_name-Passes, optional_default-Free) depth 30

parse_column_definitions-Free : (n f : ℕ) → n < f → Free (suc n) (parse_column_definitions f)
unfolding parse_column_definitions
parse_column_definitions-Free n zero h = absurd (omega arith)
parse_column_definitions-Free n (suc f) h =
    let again : Free n (parse_column_definitions f) =
      Free-below (λ k b. parse_column_definitions-Free k f (omega arith)) in
    search (moving, parse_column-Eats) depth 30

option_equal-Eats : (n : ℕ) (key : Text) → Eats n (option_equal key)
unfolding option_equal
option_equal-Eats n key = record {
  at = λ p h. (Eats-need_peek TokenType.equal (λ _. option_error key p.input (peek p)) tt).at p h;
}

parse_option-Eats : (n : ℕ) → Eats (suc n) parse_option
unfolding parse_option
parse_option-Eats n = search (moving, option_equal-Eats) depth 30

parse_with_options-Free :
    (n f : ℕ) (options : Map Text) → n < f → Free (suc n) (parse_with_options f options)
unfolding parse_with_options
parse_with_options-Free n zero options h = absurd (omega arith)
parse_with_options-Free n (suc f) options h =
    let again =
      λ (o : Map Text). Free-below {n = n} (λ k b. parse_with_options-Free k f o (omega arith)) in
    search (moving, again, parse_option-Eats) depth 30

partition_columns-Within :
    (o : Outcome (List Text)) (k : ℕ) → Within k o → Within k (partition_columns o)
unfolding partition_columns
partition_columns-Within (done columns p) k w =
    let step = Free-accept {n = suc k} TokenType.rparen (Free-pure columns) (Free-pure []) in
    let closed = accept TokenType.rparen (pure columns) (pure []) p in
    Within-le closed (left p) k w (step.at p (omega arith))
partition_columns-Within (failed e p) k w = w
partition_columns-Within exhausted k w = w

partition_list-Free : (n f : ℕ) → n < f → Free (suc n) (partition_list f)
unfolding partition_list
partition_list-Free n f h = record {
  at = λ p b.
      partition_columns-Within (parse_dotted_list f p) (left p)
        ((parse_dotted_list-Free n f h).at p b);
}

parse_partitioned_by-Free : (n f : ℕ) → n < f → Free (suc n) (parse_partitioned_by f)
unfolding parse_partitioned_by
parse_partitioned_by-Free n f h = search (moving, Free-pred, partition_list-Free) depth 30

pub parse_create_table-Eats : (n f : ℕ) → n < f → Eats (suc n) (parse_create_table f)
unfolding parse_create_table
parse_create_table-Eats n f h =
    let columns : Free n (parse_column_definitions f) =
      Free-pred (parse_column_definitions-Free n f h) in
    let partitions : Free n (parse_partitioned_by f) =
      Free-pred (parse_partitioned_by-Free n f h) in
    let options : Free n (parse_with_options f []) = Free-pred (parse_with_options-Free n f [] h) in
    search moving depth 40 fits 20000
