-- ===== src/Parser/Progress.antt =====
-- Why the recursion of the parser ends: no method gives tokens back, and each round of a loop and
-- each call to a greater depth is behind a token that has been passed.
pub mod Accept
pub mod Rules
pub mod Lists
pub mod CreateTable
pub mod Arithmetic
pub mod Expr
pub mod WindowSpec
pub mod SelectItems
pub mod From
pub mod Select
pub mod Statements
use gsql.Common.{
  ℕ, zero, suc, ◌+◌, ◌-◌, ◌<◌, ◌≤◌, ◌≡◌, refl, ◌⊎◌, inl, inr, Bool, true, false, List, [], ◌∷◌,
  arith, length, if◌then◌else◌, Bool-cases,
}
use gsql.Text.{Text}
use gsql.Parser.Token.{TokenType, Token, same_type}
use gsql.Parser.State.{
  Parser, Outcome, done, failed, exhausted, P, ◌>>=◌, pure, fail, next_token, look, accept,
  accept_if, accept_peek, require, need, need_any, optional, need_peek, expect_peek, wrap, cur,
  peek, advance, first_token, other_tokens, eof_token, bind, wrap_outcome,
}

abbrev pub left : Parser → ℕ
left p = length p.tokens

-- Not out of fuel, and with at most `k` tokens left; with fewer than `k`, if it is no error.
abbrev pub Within {ℓ} : {A : Type ℓ} → ℕ → Outcome A → Type 0
Within k (done a p) = left p ≤ k
Within k (failed e p) = left p ≤ k
Within k exhausted = ⊥

abbrev pub Below {ℓ} : {A : Type ℓ} → ℕ → Outcome A → Type 0
Below k (done a p) = left p < k
Below k (failed e p) = left p ≤ k
Below k exhausted = ⊥

-- With fewer than `n` tokens, `m` has fuel enough and gives none back; it passes one, if it
-- succeeds.
pub record Free {ℓ} {A : Type ℓ} (n : ℕ) (m : P A) : Type ℓ where
  pub at : (p : Parser) → left p < n → Within (left p) (m p)

pub record Eats {ℓ} {A : Type ℓ} (n : ℕ) (m : P A) : Type ℓ where
  pub at : (p : Parser) → left p < n → Below (left p) (m p)

pub Within-le {ℓ} : {A : Type ℓ} (o : Outcome A) (j k : ℕ) → j ≤ k → Within j o → Within k o
Within-le (done a p) j k h w = omega arith
Within-le (failed e p) j k h w = omega arith
Within-le exhausted j k h w = w

pub Below-le {ℓ} : {A : Type ℓ} (o : Outcome A) (j k : ℕ) → j ≤ k → Below j o → Below k o
Below-le (done a p) j k h w = omega arith
Below-le (failed e p) j k h w = omega arith
Below-le exhausted j k h w = w

pub Below-Within {ℓ} : {A : Type ℓ} (o : Outcome A) (k : ℕ) → Below k o → Within k o
Below-Within (done a p) k w = omega arith
Below-Within (failed e p) k w = omega arith
Below-Within exhausted k w = w

-- Fewer tokens after a step.
pub Within-Below {ℓ} : {A : Type ℓ} (o : Outcome A) (j k : ℕ) → j < k → Within j o → Below k o
Within-Below (done a p) j k h w = omega arith
Within-Below (failed e p) j k h w = omega arith
Within-Below exhausted j k h w = w

abbrev pub NotEof : TokenType → Type 0
NotEof TokenType.eof = ⊥
NotEof _ = Unit {0}

pub advance-le : (p : Parser) → left (advance p) ≤ left p
advance-le p = tokens-le p.tokens
  where
    tokens-le : (ts : List Token) → length (other_tokens ts) ≤ length ts
    tokens-le [] = omega arith
    tokens-le (t ∷ ts) = omega arith

differs_from_eof : (t : TokenType) → NotEof t → same_type TokenType.eof t ≡ false
unfolding same_type
differs_from_eof TokenType.eof h = absurd h
differs_from_eof _ h = refl

-- A test that EOF does not pass.
pub record Passes (test : Token → Token → Bool) : Type 0 where
  pub not_eof : (t ahead : Token) → t.type ≡ TokenType.eof → test t ahead ≡ false

pub passed_token :
    (ts : List Token)
    → (test : Token → Token → Bool) → Passes test
    → test (first_token ts) (first_token (other_tokens ts)) ≡ true
    → length (other_tokens ts) < length ts
passed_token [] test passes h = absurd (cc (passes.not_eof eof_token eof_token refl))
passed_token (t ∷ ts) test passes h = omega arith

pub is-Passes : (t : TokenType) → NotEof t → Passes (λ c _. same_type c.type t)
is-Passes t h = record { not_eof = λ c ahead e. rw e (differs_from_eof t h) }

pub passed_ahead :
    (ts : List Token) (t : TokenType)
    → NotEof t
    → same_type (first_token (other_tokens ts)).type t ≡ true
    → length (other_tokens ts) < length ts
passed_ahead [] t n h = absurd (cc (differs_from_eof t n))
passed_ahead (c ∷ ts) t n h = omega arith

wrap_outcome-Within {ℓ} :
    {A : Type ℓ} (e : Text) (o : Outcome A) (k : ℕ) → Within k o → Within k (wrap_outcome e o)
unfolding wrap_outcome
wrap_outcome-Within e (done a p) k w = w
wrap_outcome-Within e (failed x p) k w = w
wrap_outcome-Within e exhausted k w = w

wrap_outcome-Below {ℓ} :
    {A : Type ℓ} (e : Text) (o : Outcome A) (k : ℕ) → Below k o → Below k (wrap_outcome e o)
unfolding wrap_outcome
wrap_outcome-Below e (done a p) k w = w
wrap_outcome-Below e (failed x p) k w = w
wrap_outcome-Below e exhausted k w = w

module _ {ℓ} {A : Type ℓ} {n : ℕ} where
  pub Free-pure : (a : A) → Free n (pure a)
  unfolding pure
  Free-pure a = record { at = λ p h. omega arith }

  pub Free-fail : (e : Text) → Free n (fail {A = A} e)
  unfolding fail
  Free-fail e = record { at = λ p h. omega arith }

  pub Eats-fail : (e : Text) → Eats n (fail {A = A} e)
  unfolding fail
  Eats-fail e = record { at = λ p h. omega arith }

  pub Free-Eats : {m : P A} → Eats n m → Free n m
  Free-Eats {m} e = record { at = λ p h. Below-Within (m p) (left p) (e.at p h) }

  -- It is enough to look at each number of tokens below `n`.
  pub Free-below : {m : P A} → ((k : ℕ) → k < n → Free (suc k) m) → Free n m
  Free-below f = record { at = λ p h. (f (left p) h).at p (omega arith) }

  pub Free-pred : {m : P A} → Free (suc n) m → Free n m
  Free-pred f = record { at = λ p h. f.at p (omega arith) }

  pub Eats-pred : {m : P A} → Eats (suc n) m → Eats n m
  Eats-pred f = record { at = λ p h. f.at p (omega arith) }

  pub Eats-le : {m : P A} (k : ℕ) → k ≤ n → Eats n m → Eats k m
  Eats-le k h f = record { at = λ p b. f.at p (omega arith) }

  pub Free-look : {f : Token → Token → P A} → ((t a : Token) → Free n (f t a)) → Free n (look f)
  unfolding look
  Free-look f = record { at = λ p h. (f (cur p) (peek p)).at p h }

  pub Eats-look : {f : Token → Token → P A} → ((t a : Token) → Eats n (f t a)) → Eats n (look f)
  unfolding look
  Eats-look f = record { at = λ p h. (f (cur p) (peek p)).at p h }

  pub Free-if : (b : Bool) {m k : P A} → Free n m → Free n k → Free n (if b then m else k)
  Free-if true f g = f
  Free-if false f g = g

  pub Eats-if : (b : Bool) {m k : P A} → Eats n m → Eats n k → Eats n (if b then m else k)
  Eats-if true f g = f
  Eats-if false f g = g

  pub Free-wrap : (e : Text) {m : P A} → Free n m → Free n (wrap e m)
  unfolding wrap
  Free-wrap e {m} f = record { at = λ p h. wrap_outcome-Within e (m p) (left p) (f.at p h) }

  pub Eats-wrap : (e : Text) {m : P A} → Eats n m → Eats n (wrap e m)
  unfolding wrap
  Eats-wrap e {m} f = record { at = λ p h. wrap_outcome-Below e (m p) (left p) (f.at p h) }
