-- ===== src/Parser/Lexer/Position.antt =====
-- The end of the tokens.
use gsql.Common.{ℕ, zero, suc, ◌+◌, ◌-◌, ◌≤◌, ◌≡◌, refl, ap, arith, List, [], ◌∷◌, ◌++◌, length}
use gsql.Text.{Text}
use gsql.Parser.Token.{TokenType, Token}
use gsql.Parser.Lexer.{
  Lexer, after, read_char, next_token, tokens_of, new_lexer, plain_token, skip_whitespace,
  scan_token, behind, switch_byte, switch_operator, first_of, ch, front,
}
use gsql.Parser.Lexer.Moves.{Moves, stay, step, lexer_at, next_token-Moves_on}

length-after : (s : Text) → length (after s) ≡ length s - 1
unfolding after
length-after [] = omega arith
length-after (c ∷ s) = omega arith

Moves-length : {l m : Lexer} → Moves l m → length m.rest ≤ length l.rest
unfolding read_char
Moves-length stay = omega arith
Moves-length (step {m} k) = omega (arith, length-after m.rest, Moves-length k)

next_token-length : (l : Lexer) → length (next_token l).1.rest ≤ length l.rest - 1
unfolding read_char
next_token-length l =
    let (m, spaces, on) = next_token-Moves_on l in
    omega (arith, length-after m.rest, Moves-length spaces, Moves-length on)

abbrev eof : Token
eof = plain_token TokenType.eof []

abbrev pub eofs : ℕ → List Token
eofs zero = []
eofs (suc k) = eof ∷ eofs k

tokens_of-empty : (k n : ℕ) → tokens_of k (lexer_at [] n) ≡ eofs k
unfolding tokens_of next_token skip_whitespace scan_token behind switch_byte switch_operator
    first_of ch front read_char after
tokens_of-empty zero n = refl
tokens_of-empty (suc k) n = ap (◌∷◌ eof) (tokens_of-empty k (n + 1))

tokens_of-rest :
    (n k p : ℕ) (s : Text)
    → length s ≤ n
    → tokens_of (n + k) (lexer_at s p) ≡ tokens_of n (lexer_at s p) ++ eofs k
unfolding tokens_of
tokens_of-rest zero k p [] h = let e : 0 + k ≡ k = omega arith in rw e (tokens_of-empty k p)
tokens_of-rest zero k p (c ∷ s) h = absurd (omega arith)
tokens_of-rest (suc n) k p s h =
    let scanned = next_token (lexer_at s p) in
    let shorter = next_token-length (lexer_at s p) in
    let e : suc n + k ≡ suc (n + k) = omega arith in
    rw e (ap (◌∷◌ scanned.0) (tokens_of-rest n k scanned.1.position scanned.1.rest (omega arith)))

-- Behind as many tokens as the input has bytes, `nextToken` returns EOF for ever: the tokens that
-- the parser's state begins with are all there are.
pub tokens_of-eofs :
    (input : Text) (k : ℕ)
    → tokens_of (length input + k) (new_lexer input)
      ≡ tokens_of (length input) (new_lexer input) ++ eofs k
unfolding new_lexer
tokens_of-eofs input k = tokens_of-rest (length input) k 0 input (omega arith)
