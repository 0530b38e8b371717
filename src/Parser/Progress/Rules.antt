-- ===== src/Parser/Progress/Rules.antt =====
-- The rules for the steps that a method is made of, and for their sequence.
use gsql.Common.{ℕ, suc, ◌<◌, inl, inr, Bool, arith, Bool-cases}
use gsql.Text.{Text}
use gsql.Parser.Token.{TokenType, same_type}
use gsql.Parser.State.{
  Outcome, done, failed, exhausted, P, ◌>>=◌, next_token, require, need, need_any, optional,
  need_peek, expect_peek, expected_next, cur, peek, bind,
}
use gsql.Parser.Progress.{
  left, Within, Below, Free, Eats, NotEof, Passes, Within-le, Below-le, Below-Within, Within-Below,
  advance-le, passed_token, passed_ahead, is-Passes, Free-pure, Free-fail, Eats-fail, Free-look,
  Eats-look, Free-if, Eats-if, Free-wrap, Eats-wrap, Free-Eats,
}
use gsql.Parser.Progress.Accept.{
  Free-accept, Free-accept_peek, Free-accept_strict, Eats-accept, Free-accept_peek_strict,
  Eats-accept_peek, Free-accept_if, Eats-accept_if,
}

module _ {n : ℕ} where
  pub Free-next : Free n next_token
  unfolding next_token
  Free-next = record { at = λ p h. advance-le p }

  pub Free-require :
      (test : TokenType → Bool) (text : TokenType → Text) → Free n (require test text)
  unfolding require
  Free-require test text = record {
    at = λ p h. elim (Bool-cases (test (cur p).type)) [
      | inl e ↦ rw e (omega arith)
      | inr e ↦ rw e (omega arith)
    ];
  }

  pub Free-optional : (t : TokenType) → Free n (optional t)
  unfolding optional
  Free-optional t = record {
    at = λ p h. elim (Bool-cases (same_type (cur p).type t)) [
      | inl e ↦ rw e (advance-le p)
      | inr e ↦ rw e (omega arith)
    ];
  }

  pub Eats-need_any :
      (test : TokenType → Bool) (text : TokenType → Text)
      → Passes (λ t _. test t.type)
      → Eats n (need_any test text)
  unfolding need_any
  Eats-need_any test text passes = record {
    at = λ p h. elim (Bool-cases (test (cur p).type)) [
      | inl e ↦ rw e (passed_token p.tokens (λ t _. test t.type) passes e)
      | inr e ↦ rw e (omega arith)
    ];
  }

  pub Eats-need : (t : TokenType) (text : TokenType → Text) → NotEof t → Eats n (need t text)
  unfolding need
  Eats-need t text not_eof = record {
    at = λ p h. elim (Bool-cases (same_type (cur p).type t)) [
      | inl e ↦ rw e (passed_token p.tokens (λ c _. same_type c.type t) (is-Passes t not_eof) e)
      | inr e ↦ rw e (omega arith)
    ];
  }

  pub Eats-need_peek :
      (t : TokenType) (text : TokenType → Text) → NotEof t → Eats n (need_peek t text)
  unfolding need_peek
  Eats-need_peek t text not_eof = record {
    at = λ p h. elim (Bool-cases (same_type (peek p).type t)) [
      | inl e ↦ rw e (passed_ahead p.tokens t not_eof e)
      | inr e ↦ rw e (omega arith)
    ];
  }

  pub Eats-expect_peek : (t : TokenType) → NotEof t → Eats n (expect_peek t)
  unfolding expect_peek
  Eats-expect_peek t not_eof = Eats-need_peek t (expected_next t) not_eof

  pub Free-need_any :
      (test : TokenType → Bool) (text : TokenType → Text)
      → Passes (λ t _. test t.type)
      → Free n (need_any test text)
  Free-need_any test text passes = Free-Eats (Eats-need_any test text passes)

  pub Free-need : (t : TokenType) (text : TokenType → Text) → NotEof t → Free n (need t text)
  Free-need t text not_eof = Free-Eats (Eats-need t text not_eof)

  pub Free-need_peek :
      (t : TokenType) (text : TokenType → Text) → NotEof t → Free n (need_peek t text)
  Free-need_peek t text not_eof = Free-Eats (Eats-need_peek t text not_eof)

  pub Free-expect_peek : (t : TokenType) → NotEof t → Free n (expect_peek t)
  Free-expect_peek t not_eof = Free-Eats (Eats-expect_peek t not_eof)

module _ {ℓ κ} {A : Type ℓ} {B : Type κ} where
  bind-Within :
      (o : Outcome A) (f : A → P B) (n k : ℕ)
      → k < n
      → Within k o
      → ((a : A) → Free n (f a))
      → Within k (bind o f)
  bind-Within (done a p) f n k h w g = Within-le (f a p) (left p) k w ((g a).at p (omega arith))
  bind-Within (failed e p) f n k h w g = w
  bind-Within exhausted f n k h w g = w

  pub bind-Below :
      (o : Outcome A) (f : A → P B) (n k : ℕ)
      → k < suc n
      → Below k o
      → ((a : A) → Free n (f a))
      → Below k (bind o f)
  bind-Below (done a p) f n k h w g = Within-Below (f a p) (left p) k w ((g a).at p (omega arith))
  bind-Below (failed e p) f n k h w g = w
  bind-Below exhausted f n k h w g = w

  pub bind-Eats-Within :
      (o : Outcome A) (f : A → P B) (n k : ℕ)
      → k < suc n
      → Below k o
      → ((a : A) → Free n (f a))
      → Within k (bind o f)
  bind-Eats-Within o f n k h w g = Below-Within (bind o f) k (bind-Below o f n k h w g)

  bind-Below_later :
      (o : Outcome A) (f : A → P B) (n k : ℕ)
      → k < n
      → Within k o
      → ((a : A) → Eats n (f a))
      → Below k (bind o f)
  bind-Below_later (done a p) f n k h w g = Below-le (f a p) (left p) k w ((g a).at p (omega arith))
  bind-Below_later (failed e p) f n k h w g = w
  bind-Below_later exhausted f n k h w g = w

  module _ {n : ℕ} {m : P A} {f : A → P B} where
    -- What follows a step that passes a token has one token less.
    pub Eats-bind : Eats (suc n) m → ((a : A) → Free n (f a)) → Eats (suc n) (m >>= f)
    unfolding ◌>>=◌
    Eats-bind e g = record { at = λ p h. bind-Below (m p) f n (left p) h (e.at p h) g }

    pub Free-bind-Eats : Eats (suc n) m → ((a : A) → Free n (f a)) → Free (suc n) (m >>= f)
    unfolding ◌>>=◌
    Free-bind-Eats e g = record { at = λ p h. bind-Eats-Within (m p) f n (left p) h (e.at p h) g }

    pub Free-bind : Free n m → ((a : A) → Free n (f a)) → Free n (m >>= f)
    unfolding ◌>>=◌
    Free-bind e g = record { at = λ p h. bind-Within (m p) f n (left p) h (e.at p h) g }

    pub Eats-bind_later : Free n m → ((a : A) → Eats n (f a)) → Eats n (m >>= f)
    unfolding ◌>>=◌
    Eats-bind_later e g = record { at = λ p h. bind-Below_later (m p) f n (left p) h (e.at p h) g }

-- Rules that pass a token come before those that may not.
pub ruleset eating = (
  Eats-need, Eats-need_any, Eats-need_peek, Eats-expect_peek, Eats-fail, Eats-look, Eats-if,
  Eats-wrap, Eats-accept, Eats-accept_peek, Eats-accept_if, Eats-bind, Eats-bind_later, is-Passes,
)

pub ruleset moving = (
  eating, Free-pure, Free-fail, Free-next, Free-require, Free-optional, Free-look, Free-if,
  Free-wrap, Free-accept_strict, Free-accept_peek_strict, Free-accept_if, Free-bind-Eats,
  Free-accept, Free-accept_peek, Free-bind, Free-need_any, Free-need, Free-need_peek,
  Free-expect_peek,
)
