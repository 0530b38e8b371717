-- ===== src/Parser/Progress/WindowSpec.antt =====
-- The arguments of functions, and window specifications.
use gsql.Common.{ℕ, zero, suc, ◌<◌, arith, Option, none, some, List}
use gsql.Text.{Text}
use gsql.Parser.Token.{TokenType}
use gsql.Parser.Ast.{Expression, WindowFrameType, WindowFrameBoundary, WindowFrame, WindowExpr}
use gsql.Parser.State.{Outcome, done, failed, exhausted, P}
use gsql.Parser.Arithmetic.{Calls}
use gsql.Parser.Expr.{is_keyword}
use gsql.Parser.WindowSpec.{
  nested_argument, column_argument, negative_argument, func_argument, func_arguments,
  parse_func_args, bound_side, current_row_bound, number_bound, parse_window_frame_bound,
  parse_window_frame, dropped_error, frame_or_none, keyword_by, parse_frame, parse_window_features,
  window_name, parse_window_spec,
}
use gsql.Parser.Progress.{Free, Eats, Within, left, Free-below, Free-pred, Passes}
use gsql.Parser.Progress.Rules.{moving}
use gsql.Parser.Progress.Lists.{
  parse_dotted_identifier-Eats, is_literal-Passes, parse_dotted_list-Free, parse_order_by_list-Free,
}
use gsql.Parser.Progress.Arithmetic.{IsFree, IsFree-le, parse_arithmetic_expr-Free}
use gsql.Parser.Progress.Expr.{calls_ahead-Passes}

is_keyword-Passes : Passes (λ t _. is_keyword t.type)
unfolding is_keyword
is_keyword-Passes = record { not_eof = λ t a e. rw e }

module _ (c : Calls) (n f : ℕ) (h : n < f) (s : IsFree n c) where
  nested_argument-Free : (name : Text) → Free n (nested_argument c name)
  unfolding nested_argument
  nested_argument-Free name =
      let args : Free n c.func_args = s.func_args in search moving depth 40 fits 20000

  column_argument-Eats : Eats (suc n) (column_argument c f)
  unfolding column_argument
  column_argument-Eats =
      let arithmetic = λ (e : Expression). Free-pred (parse_arithmetic_expr-Free c n f e h s) in
      search (moving, arithmetic, parse_dotted_identifier-Eats) depth 40 fits 20000

  negative_argument-Eats : Eats (suc n) (negative_argument c)
  unfolding negative_argument
  negative_argument-Eats = search moving depth 40 fits 20000

  func_argument-Eats : Eats (suc n) (func_argument c f)
  unfolding func_argument
  func_argument-Eats =
      search
        (
          moving, nested_argument-Free, column_argument-Eats, negative_argument-Eats,
          calls_ahead-Passes, is_literal-Passes, is_keyword-Passes,
        )
        depth 40 fits 20000

module _ (c : Calls) where
  func_arguments-Free : (n f : ℕ) → n < f → IsFree n c → Free (suc n) (func_arguments c f)
  unfolding func_arguments
  func_arguments-Free n zero h s = absurd (omega arith)
  func_arguments-Free n (suc f) h s =
      let again : Free n (func_arguments c f) =
        Free-below
          (λ k b. func_arguments-Free k f (omega arith) (IsFree-le k n c (omega arith) s)) in
      search (moving, func_argument-Eats) depth 40 fits 20000

  pub parse_func_args-Free : (n f : ℕ) → n < f → IsFree n c → Free (suc n) (parse_func_args c f)
  unfolding parse_func_args
  parse_func_args-Free n f h s = search (moving, func_arguments-Free) depth 40 fits 20000

bound_side-Free : (n : ℕ) (p f : WindowFrameBoundary) (text : Text) → Free n (bound_side p f text)
unfolding bound_side
bound_side-Free n p f text = search moving depth 40 fits 20000

current_row_bound-Free : (n : ℕ) → Free n current_row_bound
unfolding current_row_bound
current_row_bound-Free n = search moving depth 40 fits 20000

number_bound-Free : (n : ℕ) (o : Option ℕ) → Free n (number_bound o)
unfolding number_bound
number_bound-Free n none = search moving depth 40 fits 20000
number_bound-Free n (some k) = search (moving, bound_side-Free) depth 40 fits 20000

parse_window_frame_bound-Free : (n : ℕ) → Free n parse_window_frame_bound
unfolding parse_window_frame_bound
parse_window_frame_bound-Free n =
    search (moving, bound_side-Free, current_row_bound-Free, number_bound-Free) depth 40 fits 20000

parse_window_frame-Free : (n : ℕ) (type : WindowFrameType) → Free n (parse_window_frame type)
unfolding parse_window_frame
parse_window_frame-Free n type = search (moving, parse_window_frame_bound-Free) depth 40 fits 20000

dropped_error-Within : (o : Outcome WindowFrame) (k : ℕ) → Within k o → Within k (dropped_error o)
unfolding dropped_error
dropped_error-Within (done frame p) k w = w
dropped_error-Within (failed e p) k w = w
dropped_error-Within exhausted k w = w

frame_or_none-Free : (n : ℕ) (type : WindowFrameType) → Free n (frame_or_none type)
unfolding frame_or_none
frame_or_none-Free n type = record {
  at = λ p h.
      dropped_error-Within (parse_window_frame type p) (left p)
        ((parse_window_frame-Free n type).at p h);
}

parse_frame-Free : (n : ℕ) (default : Option WindowFrame) → Free n (parse_frame default)
unfolding parse_frame
parse_frame-Free n default = search (moving, frame_or_none-Free) depth 40 fits 20000

pub keyword_by-Free {ℓ} :
    {A : Type ℓ} (n : ℕ) (word : TokenType) (items : P A) (default : A)
    → Free n items
    → Free n (keyword_by word items default)
unfolding keyword_by
keyword_by-Free n word items default h = search moving depth 40 fits 20000

pub parse_window_features-Free :
    (n f : ℕ) (w : WindowExpr) → n < f → Free (suc n) (parse_window_features f w)
unfolding parse_window_features
parse_window_features-Free n f w h =
    search
      (moving, keyword_by-Free, parse_frame-Free, parse_dotted_list-Free, parse_order_by_list-Free)
      depth 40 fits 20000

pub window_name-Free : (n : ℕ) → Free n window_name
unfolding window_name
window_name-Free n = search moving depth 40 fits 20000

pub parse_window_spec-Free :
    (n f : ℕ) (name : Text) (args : List Text)
    → n < f
    → Free (suc n) (parse_window_spec f name args)
unfolding parse_window_spec
parse_window_spec-Free n f name args h =
    let features = λ (w : WindowExpr). Free-pred (parse_window_features-Free n f w h) in
    search (moving, features, window_name-Free) depth 40 fits 20000
