-- ===== src/Parser/Select/Ends.antt =====
-- Where a query ends: nothing behind it is passed over in silence.
use gsql.Common.{ℕ, ◌≡◌, ◌∙◌, refl, sym, subst, inl, inr, Bool, true, Bool-cases}
use gsql.Text.{Text}
use gsql.Parser.Ast.{SelectQuery, Ctes}
use gsql.Parser.Token.{TokenType}
use gsql.Parser.State.{Parser, Outcome, done, failed, exhausted, P, ◌>>=◌, bind, cur, require, pure}
use gsql.Parser.Arithmetic.{Calls}
use gsql.Parser.Select.{select_core, parse_select_query, ends_query}

-- Where `m` succeeds, the token behind it passes the test.
record StopsAt {ℓ} {A : Type ℓ} (test : TokenType → Bool) (m : P A) : Type ℓ where
  at : (p q : Parser) (a : A) → m p ≡ done a q → test (cur q).type ≡ true

module _ {ℓ κ} {A : Type ℓ} {B : Type κ} (test : TokenType → Bool) where
  bind-StopsAt :
      (o : Outcome A) (f : A → P B)
      → ((a : A) → StopsAt test (f a))
      → (q : Parser) (b : B) → bind o f ≡ done b q
      → test (cur q).type ≡ true
  bind-StopsAt (done a p) f g q b e = (g a).at p q b e
  bind-StopsAt (failed m p) f g q b e = absurd (cc)
  bind-StopsAt exhausted f g q b e = absurd (cc)

  StopsAt-bind : (m : P A) {f : A → P B} → ((a : A) → StopsAt test (f a)) → StopsAt test (m >>= f)
  unfolding ◌>>=◌
  StopsAt-bind m {f} g = record { at = λ p q b e. bind-StopsAt (m p) f g q b e }

module _ {ℓ} {B : Type ℓ} (test : TokenType → Bool) where
  require-StopsAt :
      (text : TokenType → Text) (b : B) → StopsAt test (require test text >>= λ _. pure b)
  unfolding ◌>>=◌
  require-StopsAt text b = record {
    at = λ p q a e. elim (Bool-cases (test (cur p).type)) [
      | inl t ↦
          let same : done b p ≡ done a q = sym (rw t refl) ∙ e in
          let state : p ≡ q = cc in subst (λ r. test (cur r).type ≡ true) state t
      | inr t ↦
          let none_left : failed (text (cur p).type) p ≡ done a q = sym (rw t refl) ∙ e in
          absurd (cc)
    ];
  }

module _ (c : Calls) where
  select_core-StopsAt : (f : ℕ) (ctes : Ctes) → StopsAt ends_query (select_core c f ctes)
  unfolding select_core
  select_core-StopsAt f ctes = search (StopsAt-bind, require-StopsAt) depth 40 fits 20000

-- A query that parses ends in front of `;`, of `)` or of the end of the input.
pub parse_select_query-ends_query :
    (c : Calls) (f : ℕ) (p q : Parser) (query : SelectQuery)
    → parse_select_query c f p ≡ done query q
    → ends_query (cur q).type ≡ true
unfolding parse_select_query
parse_select_query-ends_query c f p q query e =
    (StopsAt-bind ends_query _ (λ ctes. select_core-StopsAt c f ctes)).at p q query e
