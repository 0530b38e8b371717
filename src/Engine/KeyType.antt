-- ===== src/Engine/KeyType.antt =====
-- The keys of a join by the type of its column (NormalizeKeyForType of pkg/engine/engine.go).
use gsql.Common.{
  ℕ, ◌+◌, Option, none, some, List, [], ◌∷◌, ◌++◌, any, take, drop, leb, eqb, if◌then◌else◌,
}
use gsql.Text.{Text, bytes, ◌==◌, to_upper, trim_space, trim_left_func, index_byte, itoa}
use gsql.Catalog.{Catalog, ColumnDef, get_table}
use gsql.Parser.WindowSpec.{digits_value}
use mathlib.Core.List.{reverse}

-- The type up to its parenthesis, `strings.Split(t, "(")[0]`.
unfoldable pub up_to_paren : Text → Text
up_to_paren [] = []
up_to_paren (c ∷ s) = if eqb c b'(' then [] else c ∷ up_to_paren s

-- The limit is that of the int64 of the sign.
unfoldable pub format_parsed : ℕ → Text → Option ℕ → Text → Text
unfolding itoa
format_parsed limit sign none s = s
format_parsed limit sign (some n) s =
    if leb n limit then (if eqb n 0 then itoa n else sign ++ itoa n) else s

-- strconv.ParseInt of the digits behind a sign, and strconv.FormatInt.
unfoldable pub format_digits : ℕ → Text → Text → Text → Text
unfolding format_parsed digits_value
format_digits limit sign [] s = s
format_digits limit sign (d ∷ ds) s = format_parsed limit sign (digits_value 0 (d ∷ ds)) s

unfoldable pub reformat_int : Text → Text
unfolding format_digits
reformat_int [] = []
reformat_int (c ∷ s) =
    if eqb c b'-'
    then format_digits 0x8000000000000000 (bytes "-") s (c ∷ s)
    else if eqb c b'+'
    then format_digits 0x7FFFFFFFFFFFFFFF [] s (c ∷ s)
    else format_digits 0x7FFFFFFFFFFFFFFF [] (c ∷ s) (c ∷ s)

unfoldable pub normalize_int_key : Text → Text
unfolding trim_space reformat_int
normalize_int_key s = reformat_int (trim_space s)

-- strings.TrimRight(s, "0")
unfoldable pub trim_zeros : Text → Text
unfolding trim_left_func
trim_zeros s = reverse (trim_left_func (λ c. eqb c b'0') (reverse s))

-- The digits behind a point without the zeros at the end, and no point when none is left.
unfoldable pub with_fraction : Text → Text → Text
with_fraction whole [] = whole
with_fraction whole (d ∷ ds) = whole ++ b'.' ∷ d ∷ ds

unfoldable pub strip_fraction : Text → Option ℕ → Text
unfolding trim_zeros with_fraction
strip_fraction s none = s
strip_fraction s (some i) = with_fraction (take i s) (trim_zeros (drop (i + 1) s))

unfoldable pub normalize_decimal_key : Text → Text
unfolding trim_space strip_fraction index_byte
normalize_decimal_key s = let t = trim_space s in strip_fraction t (index_byte b'.' t)

unfoldable pub normalize_string_key : Text → Text
unfolding trim_space
normalize_string_key s = trim_space s

unfoldable pub normalize_key_for_type : Text → Text → Text
unfolding ◌==◌ to_upper up_to_paren normalize_int_key normalize_decimal_key normalize_string_key
normalize_key_for_type col_type s =
    let base_type = to_upper (up_to_paren col_type) in
    let is = λ (names : List Text). any (λ name. base_type == name) names in
    if is (bytes "INT" ∷ bytes "INTEGER" ∷ bytes "BIGINT" ∷ bytes "SMALLINT" ∷ bytes "TINYINT" ∷ [])
    then normalize_int_key s
    else if is
        (bytes "DECIMAL" ∷ bytes "NUMERIC" ∷ bytes "FLOAT" ∷ bytes "DOUBLE" ∷ bytes "REAL" ∷ [])
    then normalize_decimal_key s
    else if is (bytes "STRING" ∷ bytes "VARCHAR" ∷ bytes "CHAR" ∷ bytes "TEXT" ∷ [])
    then normalize_string_key s
    else s

unfoldable pub type_of_column : Text → List ColumnDef → Text
unfolding ◌==◌ to_upper up_to_paren
type_of_column col [] = []
type_of_column col (c ∷ cs) =
    if c.name == col then to_upper (up_to_paren c.type) else type_of_column col cs

unfoldable pub get_column_type : Catalog → Text → Text → Text
unfolding get_table type_of_column
get_column_type catalog table_name col = elim (get_table catalog table_name) [
  | none ↦ []
  | some t ↦ type_of_column col t.columns
]
