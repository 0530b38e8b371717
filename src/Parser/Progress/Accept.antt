-- ===== src/Parser/Progress/Accept.antt =====
-- The rules for a token that is passed if it stands ahead.
use gsql.Common.{ℕ, suc, ◌<◌, ◌≡◌, inl, inr, Bool, true, arith, Bool-cases}
use gsql.Parser.Token.{TokenType, Token, same_type}
use gsql.Parser.State.{Parser, P, accept, accept_if, accept_peek, cur, peek, advance}
use gsql.Parser.Progress.{
  Below, Below-Within, Eats, Free, NotEof, Passes, Within, Within-Below, Within-le, advance-le,
  is-Passes, left, passed_ahead, passed_token,
}

module _ {ℓ} {A : Type ℓ} {n : ℕ} where
  after : (m : P A) (p : Parser) → left p < n → Free n m → Within (left p) (m (advance p))
  after m p h f =
      let less = advance-le p in
      Within-le (m (advance p)) (left (advance p)) (left p) less (f.at (advance p) (omega arith))

  pub Free-accept : (t : TokenType) {m k : P A} → Free n m → Free n k → Free n (accept t m k)
  unfolding accept
  Free-accept t {m} {k} f g = record {
    at = λ p h. elim (Bool-cases (same_type (cur p).type t)) [
      | inl e ↦ rw e (after m p h f)
      | inr e ↦ rw e (g.at p h)
    ];
  }

  pub Free-accept_peek :
      (t : TokenType) {m k : P A} → Free n m → Free n k → Free n (accept_peek t m k)
  unfolding accept_peek
  Free-accept_peek t {m} {k} f g = record {
    at = λ p h. elim (Bool-cases (same_type (peek p).type t)) [
      | inl e ↦ rw e (after m p h f)
      | inr e ↦ rw e (g.at p h)
    ];
  }

  -- Behind a token that has been passed, one token less may be left.
  behind :
      (m : P A) (p : Parser)
      → left p < suc n
      → left (advance p) < left p
      → Free n m
      → Below (left p) (m (advance p))
  behind m p h less f =
      Within-Below (m (advance p)) (left (advance p)) (left p) less (f.at (advance p) (omega arith))

  pub Free-accept_strict :
      (t : TokenType) {m k : P A}
      → NotEof t
      → Free n m
      → Free (suc n) k
      → Free (suc n) (accept t m k)
  unfolding accept
  Free-accept_strict t {m} {k} not_eof f g = record {
    at = λ p h. elim (Bool-cases (same_type (cur p).type t)) [
      | inl e ↦ rw e (
          Below-Within (m (advance p)) (left p) (
            behind m p h (passed_token p.tokens (λ c _. same_type c.type t) (is-Passes t not_eof) e)
              f))
      | inr e ↦ rw e (g.at p h)
    ];
  }

  pub Eats-accept :
      (t : TokenType) {m k : P A}
      → NotEof t
      → Free n m
      → Eats (suc n) k
      → Eats (suc n) (accept t m k)
  unfolding accept
  Eats-accept t {m} {k} not_eof f g = record {
    at = λ p h. elim (Bool-cases (same_type (cur p).type t)) [
      | inl e ↦ rw e (
          behind m p h (passed_token p.tokens (λ c _. same_type c.type t) (is-Passes t not_eof) e)
            f)
      | inr e ↦ rw e (g.at p h)
    ];
  }

  pub Free-accept_peek_strict :
      (t : TokenType) {m k : P A}
      → NotEof t
      → Free n m
      → Free (suc n) k
      → Free (suc n) (accept_peek t m k)
  unfolding accept_peek
  Free-accept_peek_strict t {m} {k} not_eof f g = record {
    at = λ p h. elim (Bool-cases (same_type (peek p).type t)) [
      | inl e ↦ rw e (
          Below-Within (m (advance p)) (left p)
            (behind m p h (passed_ahead p.tokens t not_eof e) f))
      | inr e ↦ rw e (g.at p h)
    ];
  }

  pub Eats-accept_peek :
      (t : TokenType) {m k : P A}
      → NotEof t
      → Free n m
      → Eats (suc n) k
      → Eats (suc n) (accept_peek t m k)
  unfolding accept_peek
  Eats-accept_peek t {m} {k} not_eof f g = record {
    at = λ p h. elim (Bool-cases (same_type (peek p).type t)) [
      | inl e ↦ rw e (behind m p h (passed_ahead p.tokens t not_eof e) f)
      | inr e ↦ rw e (g.at p h)
    ];
  }

  pub Free-accept_if :
      {test : Token → Token → Bool} {m : Token → P A} {k : P A}
      → Passes test
      → ((t : Token) → Free n (m t))
      → Free (suc n) k
      → Free (suc n) (accept_if test m k)
  unfolding accept_if
  Free-accept_if {test} {m} {k} passes f g = record {
    at = λ p h. elim (Bool-cases (test (cur p) (peek p))) [
      | inl e ↦ rw e (
          Below-Within (m (cur p) (advance p)) (left p)
            (behind (m (cur p)) p h (passed_token p.tokens test passes e) (f (cur p))))
      | inr e ↦ rw e (g.at p h)
    ];
  }

  pub Eats-accept_if :
      {test : Token → Token → Bool} {m : Token → P A} {k : P A}
      → Passes test
      → ((t : Token) → Free n (m t))
      → Eats (suc n) k
      → Eats (suc n) (accept_if test m k)
  unfolding accept_if
  Eats-accept_if {test} {m} {k} passes f g = record {
    at = λ p h. elim (Bool-cases (test (cur p) (peek p))) [
      | inl e ↦ rw e (behind (m (cur p)) p h (passed_token p.tokens test passes e) (f (cur p)))
      | inr e ↦ rw e (g.at p h)
    ];
  }

  -- The branch that is taken where the test is known to hold.
  pub accept_if-Below :
      (test : Token → Token → Bool) (m : Token → P A) (k : P A) (p : Parser)
      → left p < suc n
      → Passes test
      → test (cur p) (peek p) ≡ true
      → ((t : Token) → Free n (m t))
      → Below (left p) (accept_if test m k p)
  unfolding accept_if
  accept_if-Below test m k p h passes e f =
      rw e (behind (m (cur p)) p h (passed_token p.tokens test passes e) (f (cur p)))
