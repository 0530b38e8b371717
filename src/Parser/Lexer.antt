-- ===== src/Parser/Lexer.antt =====
pub mod Spelled
pub mod Position
pub mod Moves
-- pkg/parser/parser.go: the lexer. The state keeps the input from `position` on, `rest`, in place
-- of the whole input: `ch` is its first byte, and a slice that the source takes between two
-- positions is what a scan has passed over. `readPosition` is always `position + 1`.
use gsql.Common.{
  ℕ, zero, suc, ◌+◌, ◌-◌, ◌*◌, ◌/◌, ◌%◌, ◌≡◌, refl, Bool, true, false, ◌&&◌, ◌||◌, Option, none,
  some, List, [], ◌∷◌, ◌++◌, arith, ltb, leb, eqb, length, if◌then◌else◌,
}
use gsql.Text.{Text, bytes, to_lower, to_upper}
use gsql.Map.{lookup}
use gsql.Parser.Token.{TokenType, Token, keywords}

pub record Lexer : Type 0 where
  pub rest : Text
  pub position : ℕ

-- The byte at the front of a text, 0 at its end.
unfoldable pub front : Text → ℕ
front [] = 0
front (c ∷ s) = c

unfoldable pub after : Text → Text
after [] = []
after (c ∷ s) = s

-- `l.ch`
unfoldable pub ch : Lexer → ℕ
unfolding front
ch l = front l.rest

unfoldable pub peek_char : Lexer → ℕ
unfolding front after
peek_char l = front (after l.rest)

-- The position moves on at the end of the input too.
unfoldable pub read_char : Lexer → Lexer
unfolding after
read_char l = record { rest = after l.rest; position = l.position + 1 }

-- unicode.IsSpace and unicode.IsLetter on a byte taken as a code point
unfoldable pub is_space : ℕ → Bool
is_space c = leb 9 c && leb c 13 || (eqb c 32 || (eqb c 0x85 || eqb c 0xA0))

unfoldable pub is_unicode_letter : ℕ → Bool
is_unicode_letter c =
    leb b'a' c && leb c b'z'
    || (leb b'A' c && leb c b'Z'
        || (eqb c 0xAA
            || (eqb c 0xB5
                || (eqb c 0xBA
                    || (leb 0xC0 c && leb c 0xD6
                        || (leb 0xD8 c && leb c 0xF6 || leb 0xF8 c && leb c 0xFF))))))

unfoldable pub is_letter : ℕ → Bool
unfolding is_unicode_letter
is_letter c = is_unicode_letter c || eqb c b'_'

unfoldable pub is_digit : ℕ → Bool
is_digit c = leb b'0' c && leb c b'9'

-- `string(ch)`, in UTF-8
unfoldable pub string_of_rune : ℕ → Text
string_of_rune c = if ltb c 128 then c ∷ [] else (0xC0 + c / 64) ∷ (0x80 + c % 64) ∷ []

-- A loop `for test(l.ch) { l.readChar() }` over the input from `position` on: the bytes passed over,
-- and the lexer behind them.
unfoldable pub passed : (ℕ → Bool) → Text → Text
passed test [] = []
passed test (c ∷ s) = if test c then c ∷ passed test s else []

unfoldable pub behind : (ℕ → Bool) → Text → ℕ → Lexer
behind test [] n = record { rest = []; position = n }
behind test (c ∷ s) n =
    if test c then behind test s (n + 1) else record { rest = c ∷ s; position = n }

unfoldable pub skip_whitespace : Lexer → Lexer
unfolding behind is_space
skip_whitespace l = behind (λ c. ltb 0 c && is_space c) l.rest l.position

unfoldable pub read_identifier : Lexer → Text × Lexer
unfolding passed behind is_letter is_digit
read_identifier l =
    let test = λ (c : ℕ). is_letter c || is_digit c in
    (passed test l.rest, behind test l.rest l.position)

-- The digits behind a point, when it is followed by one.
unfoldable pub read_fraction : Text → Lexer → Text × Lexer
unfolding passed behind is_digit ch peek_char read_char
read_fraction whole l =
    let point = read_char l in
    if eqb (ch l) b'.' && is_digit (peek_char l)
    then (whole ++ b'.' ∷ passed is_digit point.rest, behind is_digit point.rest point.position)
    else (whole, l)

unfoldable pub read_number : Lexer → Text × Lexer
unfolding passed behind is_digit read_fraction
read_number l = read_fraction (passed is_digit l.rest) (behind is_digit l.rest l.position)

-- Puts a byte at the front of what a scan has passed over.
abbrev pub prepend : ℕ → Text × Lexer → Text × Lexer
prepend c scanned = (c ∷ scanned.0, scanned.1)

-- The loop of `readString`: up to the closing quote, a zero byte or the end. A byte behind a
-- backslash is passed over, unless it is zero.
unfoldable mutual
  pub string_body : ℕ → Text → ℕ → Text × Lexer
  string_body quote [] n = ([], record { rest = []; position = n })
  string_body quote (c ∷ s) n =
      let stopped : Text × Lexer = ([], record { rest = c ∷ s; position = n }) in
      let escaped : Text × Lexer = prepend c (string_escaped quote s (n + 1)) in
      let plain : Text × Lexer = prepend c (string_body quote s (n + 1)) in
      if eqb c 0 || eqb c quote then stopped else if eqb c b'\\' then escaped else plain

  pub string_escaped : ℕ → Text → ℕ → Text × Lexer
  string_escaped quote [] n = ([], record { rest = []; position = n })
  string_escaped quote (c ∷ s) n =
      let stopped : Text × Lexer = ([], record { rest = c ∷ s; position = n }) in
      let plain : Text × Lexer = prepend c (string_body quote s (n + 1)) in
      if eqb c 0 then stopped else plain

unfoldable pub read_string : ℕ → Lexer → Text × Lexer
unfolding read_char string_body string_escaped
read_string quote l = let opened = read_char l in string_body quote opened.rest opened.position

-- A token whose position stays 0: the source overwrites the one that it has set.
abbrev pub plain_token : TokenType → Text → Token
plain_token type literal = record { type = type; literal = literal; pos = 0 }

-- A token of one byte, and of two.
abbrev pub one_byte : TokenType → Text → Lexer → Token × Lexer
one_byte type literal l = (plain_token type literal, read_char l)

abbrev pub two_bytes : TokenType → Text → Lexer → Token × Lexer
two_bytes type literal l = (plain_token type literal, read_char (read_char l))

unfoldable pub quoted : Lexer → Token × Lexer
unfolding ch read_string read_char
quoted l =
    let (body, end) = read_string (ch l) l in
    (record { type = TokenType.string; literal = body; pos = l.position }, read_char end)

unfoldable pub keyword_or : Text → Option TokenType → Token
keyword_or literal none = plain_token TokenType.ident literal
keyword_or literal (some type) = plain_token type (to_upper literal)

unfoldable pub word : Lexer → Token × Lexer
unfolding read_identifier keyword_or
word l =
    let (literal, end) = read_identifier l in
    (keyword_or literal (lookup (to_lower literal) keywords), end)

unfoldable pub numeral : Lexer → Token × Lexer
unfolding read_number
numeral l = let (literal, end) = read_number l in (plain_token TokenType.number literal, end)

-- The default case of the switch.
unfoldable pub other_token : Lexer → Token × Lexer
unfolding ch is_letter is_digit word numeral string_of_rune read_char
other_token l =
    if is_letter (ch l)
    then word l
    else if is_digit (ch l)
    then numeral l
    else one_byte TokenType.illegal (string_of_rune (ch l)) l

less_token : Lexer → Token × Lexer
less_token l =
    if eqb (peek_char l) b'='
    then two_bytes TokenType.lte (bytes "<=") l
    else if eqb (peek_char l) b'>'
    then two_bytes TokenType.not_equal (bytes "!=") l
    else one_byte TokenType.lt (bytes "<") l

-- `if l.peekChar() == second { … }`, else a token of one byte.
abbrev doubled : ℕ → TokenType → Text → TokenType → Text → Lexer → Token × Lexer
doubled second type literal short_type short l =
    if eqb (peek_char l) second then two_bytes type literal l else one_byte short_type short l

-- The tokens that one byte begins, up to the two-byte operators.
switch_byte : ℕ → Lexer → Option (Token × Lexer)
switch_byte c l =
    if eqb c b'*'
    then some (one_byte TokenType.asterisk (bytes "*") l)
    else if eqb c b','
    then some (one_byte TokenType.comma (bytes ",") l)
    else if eqb c b'('
    then some (one_byte TokenType.lparen (bytes "(") l)
    else if eqb c b')'
    then some (one_byte TokenType.rparen (bytes ")") l)
    else if eqb c b'='
    then some (one_byte TokenType.equal (bytes "=") l)
    else if eqb c b'+'
    then some (one_byte TokenType.plus (bytes "+") l)
    else if eqb c b'-'
    then some (one_byte TokenType.minus (bytes "-") l)
    else if eqb c b'/'
    then some (one_byte TokenType.div (bytes "/") l)
    else if eqb c b'.'
    then some (one_byte TokenType.dot (bytes ".") l)
    else if eqb c b';'
    then some (one_byte TokenType.semicolon (bytes ";") l)
    else if eqb c 0
    then some (one_byte TokenType.eof [] l)
    else none

switch_operator : ℕ → Lexer → Option (Token × Lexer)
unfolding less_token
switch_operator c l =
    if eqb c b'!'
    then some (doubled b'=' TokenType.not_equal (bytes "!=") TokenType.illegal (string_of_rune c) l)
    else if eqb c b'<'
    then some (less_token l)
    else if eqb c b'>'
    then some (doubled b'=' TokenType.gte (bytes ">=") TokenType.gt (bytes ">") l)
    else if eqb c b'|'
    then some (doubled b'|' TokenType.pipepipe (bytes "||") TokenType.illegal (bytes "|") l)
    else if eqb c b'\'' || (eqb c b'"' || eqb c b'`')
    then some (quoted l)
    else none

first_of : Option (Token × Lexer) → Option (Token × Lexer) → Token × Lexer → Token × Lexer
first_of (some scanned) second default = scanned
first_of none (some scanned) default = scanned
first_of none none default = default

unfoldable pub scan_token : Lexer → Token × Lexer
unfolding switch_byte switch_operator first_of other_token quoted ch string_of_rune peek_char
    read_char
scan_token l = first_of (switch_byte (ch l) l) (switch_operator (ch l) l) (other_token l)

unfoldable pub next_token : Lexer → Token × Lexer
unfolding scan_token skip_whitespace
next_token l = scan_token (skip_whitespace l)

unfoldable pub new_lexer : Text → Lexer
new_lexer input = record { rest = input; position = 0 }

-- The tokens that calls of `nextToken` return, as many as asked for.
unfoldable pub tokens_of : ℕ → Lexer → List Token
unfolding next_token
tokens_of zero l = []
tokens_of (suc n) l = let (token, l') = next_token l in token ∷ tokens_of n l'
