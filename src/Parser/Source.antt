-- ===== src/Parser/Source.antt =====
-- pkg/parser/parser.go: what is done with the text of the statements outside the lexer, the removal
-- of comments and the excerpt that an error message shows.
use gsql.Common.{
  ℕ, zero, suc, ◌+◌, ◌-◌, Bool, ◌||◌, Option, none, some, List, [], ◌∷◌, ◌++◌, map, ltb, leb, eqb,
  length, take, drop, if◌then◌else◌,
}
use gsql.Text.{Text, bytes, split, join, trim_space, has_prefix}

unfoldable pub is_quote : ℕ → Bool
is_quote c = eqb c b'\'' || (eqb c b'"' || eqb c b'`')

-- The inner loop over `j`: what follows the quote that closes the string, `none` when the line
-- holds no such quote. A backslash before the last byte of the line passes the next byte.
unfoldable mutual
  pub behind_quote : ℕ → Text → Option Text
  behind_quote quote [] = none
  behind_quote quote (c ∷ s) =
      let escaped = past_escape quote s in
      let later = behind_quote quote s in
      if eqb c b'\\' then escaped else if eqb c quote then some s else later

  pub past_escape : ℕ → Text → Option Text
  past_escape quote [] = none
  past_escape quote (c ∷ s) = behind_quote quote s

-- Whether two dashes stand here.
unfoldable pub is_comment : Text → Bool
unfolding has_prefix
is_comment s = has_prefix s (bytes "--")

-- The loop over `i` that cuts the line at its first comment outside strings: the count of bytes
-- that are kept. The fuel bounds the bytes of the line.
unfoldable pub kept_bytes : ℕ → Text → ℕ
unfolding is_quote behind_quote is_comment
kept_bytes zero s = length s
kept_bytes (suc f) [] = 0
kept_bytes (suc f) (c ∷ s) =
    let from_string : ℕ = elim (behind_quote c s) [
      | none ↦ length (c ∷ s)
      | some later ↦ length (c ∷ s) - length later + kept_bytes f later
    ] in
    let next : ℕ = suc (kept_bytes f s) in
    if is_quote c then from_string else if is_comment (c ∷ s) then 0 else next

unfoldable pub strip_comment : Text → Text
unfolding kept_bytes
strip_comment line = take (kept_bytes (length line) line) line

-- The last loop: the quote of the string that is open at the end of the line, if one is.
unfoldable mutual
  pub open_quote : Option ℕ → Text → Option ℕ
  open_quote state [] = state
  open_quote none (c ∷ s) = open_quote (if is_quote c then some c else none) s
  open_quote (some quote) (c ∷ s) =
      let escaped = open_quote_escaped quote s in
      let next = open_quote (if eqb c quote then none else some quote) s in
      if eqb c b'\\' then escaped else next

  pub open_quote_escaped : ℕ → Text → Option ℕ
  open_quote_escaped quote [] = some quote
  open_quote_escaped quote (c ∷ s) = open_quote (some quote) s

-- The loop over the lines, from the quote that is open at its start.
unfoldable pub clean_lines : Option ℕ → List Text → List Text
unfolding strip_comment open_quote open_quote_escaped is_quote has_prefix
clean_lines state [] = []
clean_lines (some quote) (line ∷ lines) = line ∷ clean_lines (open_quote (some quote) line) lines
clean_lines none (line ∷ lines) =
    let kept = strip_comment line in
    let dropped = clean_lines none lines in
    let others = kept ∷ clean_lines (open_quote none kept) lines in
    if has_prefix (trim_space line) (bytes "--") then dropped else others

unfoldable pub remove_comments : Text → Text
unfolding clean_lines
remove_comments sql = join (bytes "\n") (clean_lines none (split b'\n' sql))

-- strings.Repeat of a space
unfoldable pub spaces : ℕ → Text
spaces zero = []
spaces (suc n) = b' ' ∷ spaces n

unfoldable pub min : ℕ → ℕ → ℕ
min a b = if ltb a b then a else b

-- The excerpt of at most 60 bytes, and a caret under the position.
unfoldable pub excerpt : Text → ℕ → Text → Text
unfolding min spaces
excerpt input pos label =
    let start = pos - 30 in
    let end = min (pos + 30) (length input) in
    let snippet =
      map (λ c. if eqb c b'\n' then b' ' else c) (take (end - start) (drop start input)) in
    snippet ++ (b'\n' ∷ (spaces (pos - start) ++ (bytes "^ " ++ label)))

unfoldable pub format_error_pos : Text → ℕ → Text → Text
unfolding excerpt
format_error_pos input pos label = if leb (length input) pos then [] else excerpt input pos label
