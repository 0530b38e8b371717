-- ===== src/Parser/State.antt =====
-- pkg/parser/parser.go: the parser's state and the steps that all its methods are made of. The
-- lexer does not depend on the parser, so the state holds the tokens still to come, `cur` and
-- `peek` first; behind them the lexer returns EOF for ever.
use gsql.Common.{suc, Bool, true, false, List, [], ◌∷◌, ◌++◌, length, if◌then◌else◌}
use gsql.Text.{Text, bytes}
use gsql.Parser.Token.{TokenType, Token, same_type, token_name}
use gsql.Parser.Lexer.{tokens_of, new_lexer, plain_token}

pub record Parser : Type 0 where
  -- `l.input`
  pub input : Text
  pub tokens : List Token
  pub select_items_consumed_next : Bool

-- The parser in front of tokens, `cur` and `peek` the first two.
abbrev pub plain_parser : Text → List Token → Parser
plain_parser input tokens = record {
  input = input;
  tokens = tokens;
  select_items_consumed_next = false;
}

-- What a method returns: a value or an error, and the state behind it. `exhausted` means that the
-- fuel of the model ran out.
pub data Outcome {ℓ} (A : Type ℓ) : Type ℓ where
  done : A → Parser → Outcome A
  failed : Text → Parser → Outcome A
  exhausted : Outcome A

abbrev pub P {ℓ} : Type ℓ → Type ℓ
P A = Parser → Outcome A

abbrev pub bind {ℓ κ} : {A : Type ℓ} {B : Type κ} → Outcome A → (A → P B) → Outcome B
bind (done a p) f = f a p
bind (failed e p) f = failed e p
bind exhausted f = exhausted

unfoldable pub pure {ℓ} : {A : Type ℓ} → A → P A
pure a p = done a p

unfoldable pub fail {ℓ} : {A : Type ℓ} → Text → P A
fail e p = failed e p

unfoldable pub out_of_fuel {ℓ} : {A : Type ℓ} → P A
out_of_fuel p = exhausted

abbrev pub eof_token : Token
eof_token = plain_token TokenType.eof []

abbrev pub first_token : List Token → Token
first_token [] = eof_token
first_token (t ∷ ts) = t

abbrev pub other_tokens : List Token → List Token
other_tokens [] = []
other_tokens (t ∷ ts) = ts

abbrev pub cur : Parser → Token
cur p = first_token p.tokens

abbrev pub peek : Parser → Token
peek p = first_token (other_tokens p.tokens)

-- `nextToken`
abbrev pub advance : Parser → Parser
advance p = record p { tokens = other_tokens p.tokens }

unfoldable pub next_token : P (Unit {0})
next_token p = done tt (advance p)

abbrev pub cur_is : TokenType → Parser → Bool
cur_is t p = same_type (cur p).type t

abbrev pub peek_is : TokenType → Parser → Bool
peek_is t p = same_type (peek p).type t

-- A branch on the current and the next token.
unfoldable pub look {ℓ} : {A : Type ℓ} → (Token → Token → P A) → P A
look f p = f (cur p) (peek p) p

-- `if p.cur.Type == t { p.nextToken(); m } else { k }`
unfoldable pub accept {ℓ} : {A : Type ℓ} → TokenType → P A → P A → P A
accept t m k p = if cur_is t p then m (advance p) else k p

-- The same for a test of `p.cur` and `p.peek`; the branch has the token that is passed.
unfoldable pub accept_if {ℓ} : {A : Type ℓ} → (Token → Token → Bool) → (Token → P A) → P A → P A
accept_if test m k p = if test (cur p) (peek p) then m (cur p) (advance p) else k p

-- `if p.peekIs(t) { p.nextToken(); m } else { k }`
unfoldable pub accept_peek {ℓ} : {A : Type ℓ} → TokenType → P A → P A → P A
accept_peek t m k p = if peek_is t p then m (advance p) else k p

-- `if !test(p.cur.Type) { return err }`, with the literal of the token, which stays current.
unfoldable pub require : (TokenType → Bool) → (TokenType → Text) → P Text
require test message p =
    if test (cur p).type then done (cur p).literal p else failed (message (cur p).type) p

-- `if p.cur.Type != t { return err }`, then the token's literal is taken and passed.
unfoldable pub need : TokenType → (TokenType → Text) → P Text
need t message p =
    if cur_is t p then done (cur p).literal (advance p) else failed (message (cur p).type) p

-- The same for a token of one of several types.
unfoldable pub need_any : (TokenType → Bool) → (TokenType → Text) → P Text
need_any test message p =
    if test (cur p).type then done (cur p).literal (advance p) else failed (message (cur p).type) p

-- `if p.cur.Type == t { found = true; p.nextToken() }`
unfoldable pub optional : TokenType → P Bool
optional t p = if cur_is t p then done true (advance p) else done false p

unfoldable pub expected_next : TokenType → TokenType → Text
expected_next t got =
    bytes "expected next token " ++ (token_name t ++ (bytes ", got " ++ token_name got))

-- `if !p.peekIs(t) { return err }; p.nextToken()`
unfoldable pub need_peek : TokenType → (TokenType → Text) → P (Unit {0})
need_peek t message p =
    if peek_is t p then done tt (advance p) else failed (message (peek p).type) p

unfoldable pub expect_peek : TokenType → P (Unit {0})
unfolding need_peek expected_next
expect_peek t = need_peek t (expected_next t)

unfoldable pub wrap_outcome {ℓ} : {A : Type ℓ} → Text → Outcome A → Outcome A
wrap_outcome prefix (done a p) = done a p
wrap_outcome prefix (failed e p) = failed (prefix ++ e) p
wrap_outcome prefix exhausted = exhausted

-- `fmt.Errorf("prefix%w", err)` on an error of `m`
unfoldable pub wrap {ℓ} : {A : Type ℓ} → Text → P A → P A
unfolding wrap_outcome
wrap prefix m p = wrap_outcome prefix (m p)

infixl 1 ◌>>=◌ ◌>>◌
-- Opening this opens the steps above.
unfoldable pub ◌>>=◌ {ℓ κ} : {A : Type ℓ} {B : Type κ} → P A → (A → P B) → P B
unfolding pure fail out_of_fuel next_token look accept accept_if accept_peek require need need_any
    optional need_peek expect_peek wrap same_type token_name
◌>>=◌ m f p = bind (m p) f

abbrev pub ◌>>◌ {ℓ κ} : {A : Type ℓ} {B : Type κ} → P A → P B → P B
m >> k = m >>= λ _. k

-- The message `text`, then the name of the token that stands there.
abbrev pub got : Text → TokenType → Text
got text t = text ++ (bytes ", got " ++ token_name t)

abbrev pub message : Text → TokenType → Text
message text t = text

-- `newLexer` and the two calls of `nextToken` that fill `cur` and `peek`: with as many tokens as
-- bytes and one more, the lexer is at the end.
unfoldable pub new_parser : Text → Parser
unfolding tokens_of new_lexer
new_parser input = plain_parser input (tokens_of (suc (length input)) (new_lexer input))
