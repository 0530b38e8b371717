-- ===== src/Parser/WindowSpec.antt =====
pub mod Frames
-- pkg/parser/parser.go: the arguments of functions, and window specifications.
use gsql.Common.{
  ℕ, zero, suc, ◌+◌, ◌*◌, ◌-◌, Bool, true, false, not, ◌&&◌, ◌||◌, Option, none, some, List, [],
  ◌∷◌, ◌++◌, all, ltb, leb, if◌then◌else◌,
}
use gsql.Common.Int.{pos}
use gsql.Text.{Text, bytes, join, to_upper, ◌==◌}
use gsql.Parser.Ast.{
  Expression, SortOrder, column_ref, WindowFrameBound, WindowFrameType, WindowFrameBoundary,
  WindowFrame, WindowExpr,
}
use gsql.Parser.Token.{TokenType, Token, same_type, token_name}
use gsql.Parser.Lexer.{is_digit}
use gsql.Parser.State.{
  Parser, Outcome, done, failed, exhausted, P, ◌>>=◌, ◌>>◌, pure, fail, out_of_fuel, next_token,
  look, accept, accept_if, accept_peek, require, need, need_any, expect_peek, wrap, got, message,
}
use gsql.Parser.Lists.{is_literal, parse_dotted_identifier, parse_dotted_list, parse_order_by_list}
use gsql.Parser.Arithmetic.{Calls, expr_to_string, is_arithmetic_op, parse_arithmetic_expr}
use gsql.Parser.Expr.{is_keyword, calls_ahead}

module _ (c : Calls) where
  unfoldable pub nested_argument : Text → P Text
  nested_argument name = do
    args ← wrap (bytes "inside " ++ (name ++ bytes "(): ")) c.func_args
    _ ←
        need TokenType.rparen
          (message (bytes "expected ) after arguments in " ++ (name ++ bytes "()")))
    pure (name ++ (b'(' ∷ (join (bytes ",") args ++ bytes ")")))

  unfoldable pub column_argument : ℕ → P Text
  column_argument f = do
    column ← parse_dotted_identifier f
    look λ t _.
        let computed = do e ← parse_arithmetic_expr c f (column_ref column); pure (expr_to_string e)
        in if is_arithmetic_op t.type then computed else pure column

  unfoldable pub negative_argument : P Text
  negative_argument = do value ← need TokenType.number (message []); pure (b'-' ∷ value)

  unfoldable pub func_argument : ℕ → P Text
  func_argument f =
      let nested = λ (t : Token). next_token >> nested_argument (to_upper t.literal) in
      let negative = next_token >> negative_argument in
      let keyword = need_any is_keyword (got (bytes "expected argument in function call")) in
      let others = look λ t ahead.
        if same_type t.type TokenType.ident
        then column_argument f
        else if is_literal t.type
        then need_any is_literal (message [])
        else if same_type t.type TokenType.minus && same_type ahead.type TokenType.number
        then negative
        else keyword in
      accept_if calls_ahead nested others

  unfoldable pub func_arguments : ℕ → P (List Text)
  func_arguments zero = out_of_fuel
  func_arguments (suc f) = do
    arg ← func_argument (suc f)
    let more = func_arguments f >>= λ args. pure (arg ∷ args)
    look λ t _.
        if same_type t.type TokenType.rparen
        then pure (arg ∷ [])
        else accept TokenType.comma more more

  unfoldable pub parse_func_args : ℕ → P (List Text)
  parse_func_args f =
      let others =
        look λ t _. if same_type t.type TokenType.rparen then pure [] else func_arguments f in
      accept TokenType.asterisk (pure (bytes "*" ∷ [])) others

-- strconv.Atoi of a text without a sign: digits, and less than 2^63.
unfoldable pub digits_value : ℕ → Text → Option ℕ
unfolding is_digit
digits_value acc [] = some acc
digits_value acc (d ∷ ds) = if is_digit d then digits_value (acc * 10 + (d - b'0')) ds else none

unfoldable pub in_int : Option ℕ → Option ℕ
in_int none = none
in_int (some n) = if ltb n 0x8000000000000000 then some n else none

unfoldable pub atoi : Text → Option ℕ
unfolding digits_value in_int
atoi [] = none
atoi (d ∷ ds) = in_int (digits_value 0 (d ∷ ds))

abbrev pub boundary : WindowFrameBound → ℕ → WindowFrameBoundary
boundary bound n = record { bound_type = bound; n = pos n }

-- PRECEDING or FOLLOWING.
unfoldable pub bound_side : WindowFrameBoundary → WindowFrameBoundary → Text → P WindowFrameBoundary
bound_side preceding following text =
    accept TokenType.preceding_kw (pure preceding)
      (accept TokenType.following_kw (pure following) (fail text))

unfoldable pub current_row_bound : P WindowFrameBoundary
current_row_bound = look λ t _.
    if same_type t.type TokenType.ident && to_upper t.literal == bytes "ROW"
    then (next_token >> pure (boundary WindowFrameBound.current_row 0))
    else fail (bytes "expected ROW after CURRENT")

unfoldable pub number_bound : Option ℕ → P WindowFrameBoundary
number_bound none = fail (bytes "invalid number in window frame bound")
number_bound (some n) = do
  next_token
  bound_side (boundary WindowFrameBound.n_preceding n) (boundary WindowFrameBound.n_following n)
      (bytes "expected PRECEDING or FOLLOWING after number in window frame")

unfoldable pub parse_window_frame_bound : P WindowFrameBoundary
parse_window_frame_bound =
    let unbounded =
      bound_side (boundary WindowFrameBound.unbounded_preceding 0)
        (boundary WindowFrameBound.unbounded_following 0)
        (bytes "expected PRECEDING or FOLLOWING after UNBOUNDED") in
    let others = look λ t _.
      if same_type t.type TokenType.number
      then number_bound (atoi t.literal)
      else fail
          (got (bytes "expected UNBOUNDED, CURRENT ROW, or number in window frame bound") t.type) in
    accept TokenType.unbounded_kw unbounded (accept TokenType.current_kw current_row_bound others)

abbrev pub frame_between : WindowFrameType → WindowFrameBoundary → WindowFrameBoundary → WindowFrame
frame_between type start end = record { frame_type = type; start = start; end = end; order_by = [] }

unfoldable pub parse_window_frame : WindowFrameType → P WindowFrame
parse_window_frame type =
    let between = do
      start ← parse_window_frame_bound
      _ ← need TokenType.and (message (bytes "expected AND after window frame start"))
      end ← parse_window_frame_bound
      pure (frame_between type start end)
    in let shorthand = do
      start ← parse_window_frame_bound
      pure (frame_between type start (boundary WindowFrameBound.current_row 0))
      in accept TokenType.between_kw between shorthand

-- `frame, _ := …`: an error is dropped, and the frame is nil.
unfoldable pub dropped_error : Outcome WindowFrame → Outcome (Option WindowFrame)
dropped_error (done frame p) = done (some frame) p
dropped_error (failed e p) = done none p
dropped_error exhausted = exhausted

unfoldable pub frame_or_none : WindowFrameType → P (Option WindowFrame)
frame_or_none type p = dropped_error (parse_window_frame type p)

-- `expectPeek(BY); nextToken()` and a list, when `p.cur` is the keyword.
unfoldable pub keyword_by {ℓ} : {A : Type ℓ} → TokenType → P A → A → P A
keyword_by {A} word items default = look λ t _.
    let list = expect_peek TokenType.by >> (next_token >> items) in
    if same_type t.type word then list else pure default

unfoldable pub parse_frame : Option WindowFrame → P (Option WindowFrame)
parse_frame default =
    accept TokenType.rows_kw (frame_or_none WindowFrameType.frame_rows)
      (accept TokenType.range_kw (frame_or_none WindowFrameType.frame_range) (pure default))

unfoldable pub parse_window_features : ℕ → WindowExpr → P WindowExpr
parse_window_features f we = do
  partition_by ← keyword_by TokenType.partition (parse_dotted_list f) we.partition_by
  order_by ← keyword_by TokenType.order (parse_order_by_list f) we.order_by
  frame ← parse_frame we.frame
  pure (record we { partition_by = partition_by; order_by = order_by; frame = frame })

abbrev pub window_of : Text → List Text → Text → WindowExpr
window_of name args ref = record {
  func_name = name;
  args = args;
  partition_by = [];
  order_by = [];
  frame = none;
  window_ref = ref;
  result_key = [];
}

-- The name of a window in front of the features.
unfoldable pub window_name : P Text
window_name = look λ t _.
    let named = next_token >> pure t.literal in
    if same_type t.type TokenType.ident then named else pure []

unfoldable pub parse_window_spec : ℕ → Text → List Text → P WindowExpr
parse_window_spec f name args =
    let bare = look λ t _. next_token >> pure (window_of name args t.literal) in
    let specified = do
      _ ← need TokenType.lparen (message (bytes "expected ( after OVER"))
      ref ← window_name
      we ← parse_window_features f (window_of name args ref)
      _ ← need TokenType.rparen (got (bytes "expected ) after window specification"))
      pure we
    in look λ t _. if same_type t.type TokenType.ident then bare else specified
