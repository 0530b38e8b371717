-- ===== src/Parser/Lexer/Spelled.antt =====
-- Words and quoted strings are read back as they are written.
use mathlib.Core.Option.{none}
use gsql.Common.{
  ℕ, ◌+◌, ◌≤◌, ◌≡◌, ◌≢◌, ◌∙◌, ◌⊎◌, refl, inl, inr, arith, Bool, true, false, not, ◌&&◌, ◌||◌, [],
  ◌∷◌, ◌++◌, all, eqb, length, if◌then◌else◌, Bool-cases,
}
use gsql.Text.{Text, to_lower}
use gsql.Map.{lookup}
use gsql.Parser.Token.{TokenType, keywords}
use gsql.Parser.Lexer.{
  Lexer, front, after, ch, read_char, passed, behind, is_space, is_letter, is_digit,
  skip_whitespace, read_identifier, read_string, string_body, string_escaped, quoted, word,
  keyword_or, prepend, other_token, scan_token, switch_byte, switch_operator, first_of, next_token,
}
use gsql.Parser.Lexer.Moves.{lexer_at}

abbrev pub is_word : ℕ → Bool
is_word c = is_letter c || is_digit c

passed-append :
    (test : ℕ → Bool) (s rest : Text)
    → all test s ≡ true
    → test (front rest) ≡ false
    → passed test (s ++ rest) ≡ s
unfolding passed front
passed-append test [] [] h e = refl
passed-append test [] (c ∷ rest) h e = rw e
passed-append test (c ∷ s) rest h e = ground (arith, passed-append test s rest)

behind-append :
    (test : ℕ → Bool) (s rest : Text) (n : ℕ)
    → all test s ≡ true
    → test (front rest) ≡ false
    → behind test (s ++ rest) n ≡ lexer_at rest (n + length s)
unfolding behind front
behind-append test [] [] n h e = ground arith
behind-append test [] (c ∷ rest) n h e = ground arith
behind-append test (c ∷ s) rest n h e = ground (arith, behind-append test s rest (n + 1))

-- A byte that begins a word begins nothing else.
record BeginsWord (c : ℕ) : Type 0 where
  large : 65 ≤ c
  bar : c ≢ 124
  tick : c ≢ 96
  next_line : c ≢ 0x85
  no_break : c ≢ 0xA0

letter-BeginsWord : (c : ℕ) → is_letter c ≡ true → BeginsWord c
unfolding is_letter
letter-BeginsWord c h = record {
  large = ground arith;
  bar = λ e. ground arith;
  tick = λ e. ground arith;
  next_line = λ e. ground arith;
  no_break = λ e. ground arith;
}

switch-letter : (c : ℕ) (l : Lexer) → BeginsWord c → switch_byte c l ≡ none
unfolding switch_byte
switch-letter c l b = ground arith

operator-letter : (c : ℕ) (l : Lexer) → BeginsWord c → switch_operator c l ≡ none
unfolding switch_operator
operator-letter c l b = ground arith

space-letter : (c : ℕ) → BeginsWord c → is_space c ≡ false
unfolding is_space
space-letter c b = ground arith

-- The bytes after which `nextToken` looks no further for spaces.
unspaced :
    (c n : ℕ) (s : Text)
    → is_space c ≡ false
    → skip_whitespace (lexer_at (c ∷ s) n) ≡ lexer_at (c ∷ s) n
unfolding skip_whitespace behind
unspaced c n s h = ground (arith, h)

word-append :
    (c n : ℕ) (s rest : Text)
    → is_letter c ≡ true
    → all is_word s ≡ true
    → is_word (front rest) ≡ false
    → word (lexer_at (c ∷ (s ++ rest)) n) ≡ (
      keyword_or (c ∷ s) (lookup (to_lower (c ∷ s)) keywords),
      lexer_at rest (n + length (c ∷ s)),
    )
unfolding word read_identifier
word-append c n s rest h w e =
    let whole : all is_word (c ∷ s) ≡ true = ground (arith, h, w) in
    rw (passed-append is_word (c ∷ s) rest whole e, behind-append is_word (c ∷ s) rest n whole e)

scan-letter :
    (c n : ℕ) (s : Text)
    → is_letter c ≡ true
    → scan_token (lexer_at (c ∷ s) n) ≡ word (lexer_at (c ∷ s) n)
unfolding scan_token first_of other_token ch front
scan-letter c n s h =
    let b = letter-BeginsWord c h in
    let l = lexer_at (c ∷ s) n in rw (switch-letter c l b, operator-letter c l b, h)

-- A word in front of a byte that is no part of it is one token: a keyword in capitals, or a name
-- as it stands.
pub next_token-word :
    (c n : ℕ) (s rest : Text)
    → is_letter c ≡ true
    → all is_word s ≡ true
    → is_word (front rest) ≡ false
    → next_token (lexer_at (c ∷ (s ++ rest)) n) ≡ (
      keyword_or (c ∷ s) (lookup (to_lower (c ∷ s)) keywords),
      lexer_at rest (n + length (c ∷ s)),
    )
unfolding next_token
next_token-word c n s rest h w e =
    rw (unspaced c n (s ++ rest) (space-letter c (letter-BeginsWord c h)))
      (scan-letter c n (s ++ rest) h ∙ word-append c n s rest h w e)

-- The body of a string as it stands between its quotes: no zero byte, and no quote and no
-- backslash that is not behind a backslash.
abbrev pub is_body : ℕ → Text → Bool
is_body q [] = true
is_body q (c ∷ []) = not (eqb c 0 || (eqb c q || eqb c b'\\'))
is_body q (c ∷ d ∷ s) =
    not (eqb c 0 || eqb c q)
    && (if eqb c b'\\' then not (eqb d 0) && is_body q s else is_body q (d ∷ s))

module _ (q c n : ℕ) (s : Text) where
  body_plain :
      (eqb c 0 || eqb c q) ≡ false
      → eqb c b'\\' ≡ false
      → string_body q (c ∷ s) n ≡ prepend c (string_body q s (n + 1))
  unfolding string_body
  body_plain h k = rw (h, k)

  body_escaped :
      (d : ℕ)
      → (eqb c 0 || eqb c q) ≡ false
      → eqb c b'\\' ≡ true
      → eqb d 0 ≡ false
      → string_body q (c ∷ d ∷ s) n ≡ prepend c (prepend d (string_body q s (n + 1 + 1)))
  unfolding string_body string_escaped
  body_escaped d h k e = rw (h, k, e)

body_end : (q n : ℕ) (rest : Text) → string_body q (q ∷ rest) n ≡ ([], lexer_at (q ∷ rest) n)
unfolding string_body
body_end q n rest = ground arith

string_body-append :
    (q n : ℕ) (s rest : Text)
    → is_body q s ≡ true
    → string_body q (s ++ q ∷ rest) n ≡ (s, lexer_at (q ∷ rest) (n + length s))
string_body-append q n [] rest b = let e : n + 0 ≡ n = omega arith in rw e (body_end q n rest)
string_body-append q n (c ∷ []) rest b =
    rw (body_plain q c n (q ∷ rest) (ground arith) (ground arith), body_end q (n + 1) rest)
string_body-append q n (c ∷ d ∷ s) rest b = elim (Bool-cases (eqb c b'\\')) [
  | inl k ↦
      let ih = string_body-append q (n + 1 + 1) s rest (ground arith) in
      let e : n + 1 + 1 + length s ≡ n + length (c ∷ d ∷ s) = omega arith in
      rw (body_escaped q c n (s ++ q ∷ rest) d (ground arith) k (ground arith), ih, e)
  | inr k ↦
      let ih = string_body-append q (n + 1) (d ∷ s) rest (ground arith) in
      let e : n + 1 + length (d ∷ s) ≡ n + length (c ∷ d ∷ s) = omega arith in
      rw (body_plain q c n (d ∷ (s ++ q ∷ rest)) (ground arith) k, ih, e)
]

abbrev pub IsQuote : ℕ → Type 0
IsQuote q = (q ≡ b'\'') ⊎ ((q ≡ b'"') ⊎ (q ≡ b'`'))

scan-quote :
    (q n : ℕ) (s : Text) → IsQuote q → next_token (lexer_at (q ∷ s) n) ≡ quoted (lexer_at (q ∷ s) n)
unfolding next_token skip_whitespace behind is_space scan_token switch_byte switch_operator first_of
    ch front
scan-quote q n s (inl e) = rw e refl
scan-quote q n s (inr (inl e)) = rw e refl
scan-quote q n s (inr (inr e)) = rw e refl

quoted-append :
    (q n : ℕ) (s rest : Text)
    → is_body q s ≡ true
    → quoted (lexer_at (q ∷ (s ++ q ∷ rest)) n)
      ≡ (record { type = TokenType.string; literal = s; pos = n }, lexer_at rest (n + length s + 2))
unfolding quoted read_string ch front read_char after
quoted-append q n s rest b =
    let e : n + 1 + length s + 1 ≡ n + length s + 2 = omega arith in
    rw (string_body-append q (n + 1) s rest b, e)

-- A quoted string is one token: the literal is what stands between the quotes, escapes included,
-- and the position is that of the opening quote.
pub next_token-quoted :
    (q n : ℕ) (s rest : Text)
    → IsQuote q
    → is_body q s ≡ true
    → next_token (lexer_at (q ∷ (s ++ q ∷ rest)) n)
      ≡ (record { type = TokenType.string; literal = s; pos = n }, lexer_at rest (n + length s + 2))
next_token-quoted q n s rest h b = scan-quote q n (s ++ q ∷ rest) h ∙ quoted-append q n s rest b
