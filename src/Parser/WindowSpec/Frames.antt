-- ===== src/Parser/WindowSpec/Frames.antt =====
-- Window frames, printed and read.
use gsql.Common.{String, ℕ, ◌≡◌, ◌≢◌, refl, false, Option, none, some, List, [], ◌∷◌, ◌++◌}
use gsql.Text.{Text, bytes, to_upper, upper_byte, ◌==◌}
use gsql.Parser.Ast.{WindowFrameBound, WindowFrameType, WindowFrameBoundary, WindowFrame}
use gsql.Parser.Token.{TokenType, Token, same_type}
use gsql.Parser.Lexer.{plain_token}
use gsql.Parser.State.{done, ◌>>=◌, plain_parser}
use gsql.Parser.WindowSpec.{
  parse_frame, frame_or_none, dropped_error, parse_window_frame, parse_window_frame_bound,
  bound_side, number_bound, current_row_bound, atoi, boundary, frame_between,
}

-- ROWS UNBOUNDED without PRECEDING or FOLLOWING is no error: the words are passed over, and the
-- window has no frame.
pub parse_frame-unbounded :
    (input word rows : Text) (t : Token) (rest : List Token) (default : Option WindowFrame)
    → same_type t.type TokenType.preceding_kw ≡ false
    → same_type t.type TokenType.following_kw ≡ false
    → parse_frame default (
        plain_parser input
          (plain_token TokenType.rows_kw rows ∷ plain_token TokenType.unbounded_kw word ∷ t ∷ rest))
      ≡ done none (plain_parser input (t ∷ rest))
unfolding ◌>>=◌ parse_frame frame_or_none dropped_error parse_window_frame parse_window_frame_bound
    bound_side
parse_frame-unbounded input word rows t rest default h g = rw (h, g)

abbrev pub word_token : TokenType → String → Token
word_token type text = plain_token type (bytes text)

-- The words of a bound; `s` is the number of rows.
abbrev pub words : WindowFrameBound → Text → List Token
words WindowFrameBound.unset s = []
words WindowFrameBound.unbounded_preceding s =
    word_token TokenType.unbounded_kw "UNBOUNDED"
    ∷ word_token TokenType.preceding_kw "PRECEDING"
    ∷ []
words WindowFrameBound.n_preceding s =
    plain_token TokenType.number s ∷ word_token TokenType.preceding_kw "PRECEDING" ∷ []
words WindowFrameBound.current_row s =
    word_token TokenType.current_kw "CURRENT" ∷ word_token TokenType.ident "ROW" ∷ []
words WindowFrameBound.n_following s =
    plain_token TokenType.number s ∷ word_token TokenType.following_kw "FOLLOWING" ∷ []
words WindowFrameBound.unbounded_following s =
    word_token TokenType.unbounded_kw "UNBOUNDED"
    ∷ word_token TokenType.following_kw "FOLLOWING"
    ∷ []

-- The boundary that a bound stands for; only two of them have a number.
abbrev pub bound_of : WindowFrameBound → ℕ → WindowFrameBoundary
bound_of WindowFrameBound.n_preceding n = boundary WindowFrameBound.n_preceding n
bound_of WindowFrameBound.n_following n = boundary WindowFrameBound.n_following n
bound_of bound n = boundary bound 0

bound-words :
    (bound : WindowFrameBound) (s input : Text) (n : ℕ) (rest : List Token)
    → bound ≢ WindowFrameBound.unset
    → atoi s ≡ some n
    → parse_window_frame_bound (plain_parser input (words bound s ++ rest))
      ≡ done (bound_of bound n) (plain_parser input rest)
unfolding ◌>>=◌ parse_window_frame_bound bound_side current_row_bound number_bound to_upper
    upper_byte ◌==◌
bound-words WindowFrameBound.unset s input n rest h a = absurd (h refl)
bound-words WindowFrameBound.unbounded_preceding s input n rest h a = refl
bound-words WindowFrameBound.n_preceding s input n rest h a = rw a
bound-words WindowFrameBound.current_row s input n rest h a = refl
bound-words WindowFrameBound.n_following s input n rest h a = rw a
bound-words WindowFrameBound.unbounded_following s input n rest h a = refl

-- A frame with two bounds is read back as it is written, up to what follows.
pub parse_window_frame-words :
    (type : WindowFrameType) (start end : WindowFrameBound) (s t input : Text) (n m : ℕ)
    (rest : List Token)
    → start ≢ WindowFrameBound.unset
    → end ≢ WindowFrameBound.unset
    → atoi s ≡ some n
    → atoi t ≡ some m
    → parse_window_frame type (
        plain_parser input (
          word_token TokenType.between_kw "BETWEEN"
          ∷ (words start s ++ word_token TokenType.and "AND" ∷ (words end t ++ rest))))
      ≡ done (frame_between type (bound_of start n) (bound_of end m)) (plain_parser input rest)
unfolding ◌>>=◌ parse_window_frame
parse_window_frame-words type start end s t input n m rest hs he first last =
    let tail = word_token TokenType.and "AND" ∷ (words end t ++ rest) in
    rw (bound-words start s input n tail hs first, bound-words end t input m rest he last)
