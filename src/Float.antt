-- ===== src/Float.antt =====
-- The 64-bit floating-point numbers of Go and the parts of `strconv` that read and print them: an
-- interface, since the language and its library implement them.
use gsql.Common.{suc, Bool, Option, ◌∷◌}
use gsql.Common.Int.{ℤ, pos, negsuc}
use gsql.Text.{Text, itoa}

pub record Floats : Type 1 where
  pub Float64 : Type 0
  -- strconv.ParseFloat; `none` is a syntax or range error
  pub parse_float : Text → Option Float64
  -- strconv.FormatFloat(f, 'f', -1, 64)
  pub format_f : Float64 → Text
  pub lt : Float64 → Float64 → Bool
  pub le : Float64 → Float64 → Bool
  pub eq : Float64 → Float64 → Bool
  pub add : Float64 → Float64 → Float64
  pub sub : Float64 → Float64 → Float64
  pub mul : Float64 → Float64 → Float64
  pub div : Float64 → Float64 → Float64
  -- float64(i) and int64(f)
  pub of_int : ℤ → Float64
  pub to_int : Float64 → ℤ

-- strconv.FormatInt in base 10
unfoldable pub format_int : ℤ → Text
unfolding itoa
format_int (pos n) = itoa n
format_int (negsuc n) = b'-' ∷ itoa (suc n)
