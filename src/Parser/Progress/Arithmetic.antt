-- ===== src/Parser/Progress/Arithmetic.antt =====
-- Arithmetic and CASE, from what is known of the calls to a greater depth.
use gsql.Common.{subst, ℕ, zero, suc, ◌<◌, ◌≤◌, ◌≡◌, arith, inl, inr, true, false, ltb, Bool-cases}
use gsql.Parser.Token.{TokenType}
use gsql.Parser.State.{Parser, cur, look, ◌>>=◌}
use gsql.Parser.Ast.{Expression, nil}
use gsql.Parser.Arithmetic.{
  Calls, case_branches, parse_case_expr, parenthesised, parse_arithmetic_primary, raise_operand,
  parse_arithmetic_binary, parse_arithmetic_expr, is_arithmetic_op, arithmetic_precedence, at_least,
  above, prec_lowest,
}
use gsql.Parser.Progress.{Free, Eats, Below, left, Free-below, Free-pred, Passes, Eats-pred}
use gsql.Parser.Progress.Accept.{accept_if-Below}
use gsql.Parser.Progress.Rules.{moving, bind-Eats-Within}
use gsql.Parser.Progress.Lists.{parse_dotted_identifier-Free, is_literal-Passes}

-- The calls have fuel enough where fewer than `n` tokens are left.
pub record IsFree (n : ℕ) (c : Calls) : Type 0 where
  pub expression : Free n c.expression
  pub select_query : Eats n c.select_query
  pub arithmetic_binary : (e : Expression) (least : ℕ) → Free n (c.arithmetic_binary e least)
  pub arithmetic_expr : Free n c.arithmetic_expr
  pub func_args : Free n c.func_args
  -- An operator of the precedence asked for is passed.
  pub operator :
      (e : Expression) (least : ℕ) (p : Parser)
      → left p < n
      → at_least least (cur p).type ≡ true
      → Below (left p) (c.arithmetic_binary e least p)

pub IsFree-pred : (n : ℕ) (c : Calls) → IsFree (suc n) c → IsFree n c
IsFree-pred n c s = record {
  expression = Free-pred s.expression;
  select_query = Eats-pred s.select_query;
  arithmetic_binary = λ e least. Free-pred (s.arithmetic_binary e least);
  arithmetic_expr = Free-pred s.arithmetic_expr;
  func_args = Free-pred s.func_args;
  operator = λ e least p h t. s.operator e least p (omega arith) t;
}

pub IsFree-le : (m n : ℕ) (c : Calls) → m ≤ n → IsFree n c → IsFree m c
IsFree-le m zero c h s = subst (λ k. IsFree k c) (omega arith) s
IsFree-le m (suc n) c h s = elim (Bool-cases (ltb n m)) [
  | inl e ↦ subst (λ k. IsFree k c) (ground arith) s
  | inr e ↦ IsFree-le m n c (ground arith) (IsFree-pred n c s)
]

is_arithmetic_op-eof : (t : TokenType) → t ≡ TokenType.eof → is_arithmetic_op t ≡ false
unfolding is_arithmetic_op
is_arithmetic_op-eof t e = rw e

pub at_least-Passes : (least : ℕ) → Passes (λ t _. at_least least t.type)
at_least-Passes least = record { not_eof = λ t a e. rw (is_arithmetic_op-eof t.type e) }

above-at_least :
    (prec : ℕ) (t : TokenType) → above prec t ≡ true → at_least (arithmetic_precedence t) t ≡ true
above-at_least prec t h = ground arith

module _ (c : Calls) where
  case_branches-Free : (n f : ℕ) → n < f → IsFree n c → Free (suc n) (case_branches c f)
  unfolding case_branches
  case_branches-Free n zero h s = absurd (omega arith)
  case_branches-Free n (suc f) h s =
      let again : Free n (case_branches c f) =
        Free-below
          (λ k b. case_branches-Free k f (omega arith) (IsFree-le k n c (omega arith) s)) in
      let condition : Free n c.expression = s.expression in
      let result : Free n c.arithmetic_expr = s.arithmetic_expr in search moving depth 40 fits 20000

  -- Behind CASE.
  pub parse_case_expr-Free : (n f : ℕ) → n < f → IsFree n c → Free n (parse_case_expr c f)
  unfolding parse_case_expr
  parse_case_expr-Free n f h s =
      let branches : Free n (case_branches c f) = Free-pred (case_branches-Free n f h s) in
      let otherwise : Free n c.arithmetic_expr = s.arithmetic_expr in
      search moving depth 40 fits 20000

  parenthesised-Free : (n : ℕ) → IsFree n c → Free n (parenthesised c)
  unfolding parenthesised
  parenthesised-Free n s =
      let inside : Free n c.arithmetic_expr = s.arithmetic_expr in search moving depth 40 fits 20000

  pub parse_arithmetic_primary-Free :
      (n f : ℕ) → n < f → IsFree n c → Free (suc n) (parse_arithmetic_primary c f)
  unfolding parse_arithmetic_primary
  parse_arithmetic_primary-Free n f h s =
      let in_case : Free n (parse_case_expr c f) = parse_case_expr-Free n f h s in
      let inside : Free n (parenthesised c) = parenthesised-Free n s in
      search (moving, parse_dotted_identifier-Free, is_literal-Passes) depth 40 fits 20000

  raise_operand-Free :
      (n f : ℕ) (e : Expression) (prec : ℕ) → n < f → IsFree n c → Free n (raise_operand c f e prec)
  unfolding raise_operand look ◌>>=◌
  raise_operand-Free n zero e prec h s = absurd (omega arith)
  raise_operand-Free zero (suc f) e prec h s = record { at = λ p b. absurd (omega arith) }
  raise_operand-Free (suc n) (suc f) e prec h s = record {
    at = λ p b.
        let k = arithmetic_precedence (cur p).type in
        let deeper =
          λ (d : Expression). raise_operand-Free n f d prec (omega arith) (IsFree-pred n c s) in
        elim (Bool-cases (above prec (cur p).type)) [
          | inl t ↦ rw t (
              bind-Eats-Within (c.arithmetic_binary e k p) (λ d. raise_operand c f d prec) n
                (left p) b (s.operator e k p b (above-at_least prec (cur p).type t)) deeper)
          | inr t ↦ rw t (omega arith)
        ];
  }

  pub parse_arithmetic_binary-Free :
      (n f : ℕ) (e : Expression) (least : ℕ)
      → n < f
      → IsFree n c
      → Free (suc n) (parse_arithmetic_binary c f e least)
  unfolding parse_arithmetic_binary
  parse_arithmetic_binary-Free n zero e least h s = absurd (omega arith)
  parse_arithmetic_binary-Free n (suc f) e least h s =
      let again = λ (d : Expression). Free-below {n = n} λ k b.
        parse_arithmetic_binary-Free k f d least (omega arith) (IsFree-le k n c (omega arith) s) in
      let primary : Free n (parse_arithmetic_primary c (suc f)) =
        Free-pred (parse_arithmetic_primary-Free n (suc f) h s) in
      let raised = λ (d : Expression) (prec : ℕ). raise_operand-Free n (suc f) d prec h s in
      search (moving, at_least-Passes, again, raised) depth 40 fits 20000

  pub parse_arithmetic_expr-Free :
      (n f : ℕ) (e : Expression) → n < f → IsFree n c → Free (suc n) (parse_arithmetic_expr c f e)
  unfolding parse_arithmetic_expr
  parse_arithmetic_expr-Free n f nil h s =
      search (moving, parse_arithmetic_primary-Free, parse_arithmetic_binary-Free) depth 40 fits
        20000
  parse_arithmetic_expr-Free n f _ h s = parse_arithmetic_binary-Free n f _ prec_lowest h s

  -- An operator of the precedence asked for is passed.
  pub parse_arithmetic_binary-operator :
      (n f : ℕ) (e : Expression) (least : ℕ) (p : Parser)
      → n < f
      → IsFree n c
      → left p < suc n
      → at_least least (cur p).type ≡ true
      → Below (left p) (parse_arithmetic_binary c f e least p)
  unfolding parse_arithmetic_binary
  parse_arithmetic_binary-operator n zero e least p h s b t = absurd (omega arith)
  parse_arithmetic_binary-operator n (suc f) e least p h s b t =
      let again = λ (d : Expression). Free-below {n = n} λ k l.
        parse_arithmetic_binary-Free k f d least (omega arith) (IsFree-le k n c (omega arith) s) in
      let primary : Free n (parse_arithmetic_primary c (suc f)) =
        Free-pred (parse_arithmetic_primary-Free n (suc f) h s) in
      let raised = λ (d : Expression) (prec : ℕ). raise_operand-Free n (suc f) d prec h s in
      accept_if-Below (λ c _. at_least least c.type) _ _ p b (at_least-Passes least) t
        (λ o. search (moving, again, raised) depth 40 fits 20000)
