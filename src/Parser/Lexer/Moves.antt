-- ===== src/Parser/Lexer/Moves.antt =====
-- The lexer moves by `readChar` alone, and each call of `nextToken` moves it on.
use mathlib.Core.Option.{none, some}
use gsql.Common.{
  ℕ, ◌+◌, ◌≡◌, refl, inl, inr, Bool, true, false, ◌&&◌, ◌||◌, Option, [], ◌∷◌, eqb, if◌then◌else◌,
  Bool-cases,
}
use gsql.Text.{Text}
use gsql.Parser.Token.{TokenType, Token}
use gsql.Parser.Lexer.{
  Lexer, front, after, ch, read_char, behind, skip_whitespace, is_letter, is_digit, read_identifier,
  read_number, read_fraction, string_body, string_escaped, read_string, quoted, word, numeral,
  other_token, less_token, switch_byte, switch_operator, first_of, scan_token, next_token,
  peek_char, one_byte, two_bytes,
}

pub data Moves (l : Lexer) : Lexer → Type 0 where
  stay : Moves l l
  step : {m : Lexer} → Moves l m → Moves l (read_char m)

pub Moves-trans : {l m n : Lexer} → Moves l m → Moves m n → Moves l n
Moves-trans h stay = h
Moves-trans h (step k) = step (Moves-trans h k)

abbrev pub lexer_at : Text → ℕ → Lexer
lexer_at s n = record { rest = s; position = n }

-- One byte, and then more.
from_next :
    {l : Lexer} {c : ℕ} {s : Text} {n : ℕ}
    → Moves (lexer_at s (n + 1)) l
    → Moves (lexer_at (c ∷ s) n) l
unfolding read_char after
from_next {c} {s} {n} h = Moves-trans (step {m = lexer_at (c ∷ s) n} stay) h

behind-Moves : (test : ℕ → Bool) (s : Text) (n : ℕ) → Moves (lexer_at s n) (behind test s n)
unfolding behind
behind-Moves test [] n = stay
behind-Moves test (c ∷ s) n = elim (Bool-cases (test c)) [
  | inl e ↦ rw e (from_next (behind-Moves test s (n + 1)))
  | inr e ↦ rw e stay
]

-- A scan whose test the first byte passes.
behind-Moves_on :
    (test : ℕ → Bool) (s : Text) (n : ℕ)
    → test (front s) ≡ true
    → test 0 ≡ false
    → Moves (read_char (lexer_at s n)) (behind test s n)
unfolding behind read_char front after
behind-Moves_on test [] n e z = absurd (cc)
behind-Moves_on test (c ∷ s) n e z = rw e (behind-Moves test s (n + 1))

mutual
  unfolding string_body string_escaped

  string_body-Moves : (q : ℕ) (s : Text) (n : ℕ) → Moves (lexer_at s n) (string_body q s n).1
  string_body-Moves q [] n = stay
  string_body-Moves q (c ∷ s) n = elim (Bool-cases (eqb c 0 || eqb c q)) [
    | inl e ↦ rw e stay
    | inr e ↦ elim (Bool-cases (eqb c b'\\')) [
      | inl b ↦ rw (e, b) (from_next (string_escaped-Moves q s (n + 1)))
      | inr b ↦ rw (e, b) (from_next (string_body-Moves q s (n + 1)))
    ]
  ]

  string_escaped-Moves : (q : ℕ) (s : Text) (n : ℕ) → Moves (lexer_at s n) (string_escaped q s n).1
  string_escaped-Moves q [] n = stay
  string_escaped-Moves q (c ∷ s) n = elim (Bool-cases (eqb c 0)) [
    | inl e ↦ rw e stay
    | inr e ↦ rw e (from_next (string_body-Moves q s (n + 1)))
  ]

-- What a scan returns lies behind the byte that it began at.
record Ahead (l : Lexer) (scanned : Token × Lexer) : Type 0 where
  moves : Moves (read_char l) scanned.1

quoted-Ahead : (l : Lexer) → Ahead l (quoted l)
unfolding quoted read_string
quoted-Ahead l =
    let opened = read_char l in
    record { moves = step (string_body-Moves (ch l) opened.rest opened.position) }

word-Ahead : (l : Lexer) → is_letter (ch l) ≡ true → Ahead l (word l)
unfolding word read_identifier ch
word-Ahead l h =
    let test = λ (c : ℕ). is_letter c || is_digit c in
    record { moves = behind-Moves_on test l.rest l.position (rw h) refl }

read_fraction-Moves : (whole : Text) (l : Lexer) → Moves l (read_fraction whole l).1
unfolding read_fraction
read_fraction-Moves whole l =
    let point = read_char l in
    elim (Bool-cases (eqb (ch l) b'.' && is_digit (peek_char l))) [
      | inl e ↦ rw e (Moves-trans (step stay) (behind-Moves is_digit point.rest point.position))
      | inr e ↦ rw e stay
    ]

numeral-Ahead : (l : Lexer) → is_digit (ch l) ≡ true → Ahead l (numeral l)
unfolding numeral read_number ch
numeral-Ahead l h = record {
  moves = Moves-trans (behind-Moves_on is_digit l.rest l.position h refl) (read_fraction-Moves _ _);
}

one_byte-Ahead : (t : TokenType) (text : Text) (l : Lexer) → Ahead l (one_byte t text l)
one_byte-Ahead t text l = record { moves = stay }

two_bytes-Ahead : (t : TokenType) (text : Text) (l : Lexer) → Ahead l (two_bytes t text l)
two_bytes-Ahead t text l = record { moves = step stay }

other_token-Ahead : (l : Lexer) → Ahead l (other_token l)
unfolding other_token
other_token-Ahead l = elim (Bool-cases (is_letter (ch l))) [
  | inl e ↦ rw e (word-Ahead l e)
  | inr e ↦ elim (Bool-cases (is_digit (ch l))) [
    | inl d ↦ rw (e, d) (numeral-Ahead l d)
    | inr d ↦ rw (e, d) (one_byte-Ahead _ _ l)
  ]
]

-- What the switch finds, if it finds something.
data Found (l : Lexer) : Option (Token × Lexer) → Type 0 where
  nothing : Found l none
  found : {scanned : Token × Lexer} → Ahead l scanned → Found l (some scanned)

Found-if :
    (l : Lexer) (b : Bool) (o p : Option (Token × Lexer))
    → Found l o
    → Found l p
    → Found l (if b then o else p)
Found-if l true o p h k = h
Found-if l false o p h k = k

Ahead-if :
    (l : Lexer) (b : Bool) (s t : Token × Lexer)
    → Ahead l s
    → Ahead l t
    → Ahead l (if b then s else t)
Ahead-if l true s t h k = h
Ahead-if l false s t h k = k

ruleset switching =
    (Found-if, found, nothing, Ahead-if, one_byte-Ahead, two_bytes-Ahead, quoted-Ahead)

switch_byte-Found : (l : Lexer) (c : ℕ) → Found l (switch_byte c l)
unfolding switch_byte
switch_byte-Found l c = search switching depth 40 fits 20000

less_token-Ahead : (l : Lexer) → Ahead l (less_token l)
unfolding less_token
less_token-Ahead l = search switching depth 40 fits 20000

switch_operator-Found : (l : Lexer) (c : ℕ) → Found l (switch_operator c l)
unfolding switch_operator
switch_operator-Found l c = search (switching, less_token-Ahead) depth 40 fits 20000

first_of-Ahead :
    {l : Lexer} {o p : Option (Token × Lexer)} {d : Token × Lexer}
    → Found l o
    → Found l p
    → Ahead l d
    → Ahead l (first_of o p d)
unfolding first_of
first_of-Ahead (found h) k a = h
first_of-Ahead nothing (found h) a = h
first_of-Ahead nothing nothing a = a

scan_token-Ahead : (l : Lexer) → Ahead l (scan_token l)
unfolding scan_token
scan_token-Ahead l =
    first_of-Ahead (switch_byte-Found l (ch l)) (switch_operator-Found l (ch l))
      (other_token-Ahead l)

-- Whitespace, then one byte at least.
pub next_token-Moves_on :
    (l : Lexer) → (m : Lexer) × Moves l m × Moves (read_char m) (next_token l).1
unfolding next_token skip_whitespace
next_token-Moves_on l = (
  skip_whitespace l,
  behind-Moves _ l.rest l.position,
  (scan_token-Ahead (skip_whitespace l)).moves,
)
