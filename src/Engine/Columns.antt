-- ===== src/Engine/Columns.antt =====
-- Names of columns and of calls: stripTableAlias, projectColumnKey, makeFuncCallExpr and their
-- helpers (pkg/engine/engine.go).
use gsql.Common.{
  ℕ, zero, suc, ◌+◌, ◌-◌, Bool, true, false, not, ◌&&◌, ◌||◌, Option, none, some, List, [], ◌∷◌,
  ◌++◌, map, length, take, drop, any, all, get_elem?, ltb, leb, eqb, if◌then◌else◌,
}
use gsql.Text.{Text, bytes, ◌==◌, to_upper, trim_space, index_byte, has_suffix, has_prefix, split}
use gsql.Parser.Ast.{Expression, AggregateExpr, JoinClause, WindowExpr, nil, func_call}
use gsql.Plan.Builtin.{FuncDef, Registry, func_scalar, func_aggregate, func_window, lookup_func}
use mathlib.Core.Option

abbrev pub has_byte : ℕ → Text → Bool
has_byte c s = any (λ x. eqb x c) s

abbrev digit_at : Text → ℕ → Bool
digit_at s i = elim (get_elem? s i) [ none ↦ false | some c ↦ leb b'0' c && leb c b'9' ]

-- Whether the byte at an index stands between digits.
unfoldable pub decimal_at : Text → ℕ → Bool
decimal_at s zero = false
decimal_at s (suc i) = digit_at s i && digit_at s (suc (suc i))

-- What stands behind the parenthesis at an index, up to the last byte.
abbrev pub inner_of : ℕ → Text → Text
inner_of paren col = take (length col - 1 - (paren + 1)) (drop (paren + 1) col)

unfoldable pub strip_inner : Text → Text → Text → Option ℕ → Text
unfolding decimal_at
strip_inner col func_name arg none = col
strip_inner col func_name arg (some i) =
    if decimal_at arg i then col else func_name ++ b'(' ∷ (drop (i + 1) arg ++ bytes ")")

unfoldable pub strip_argument : Text → Option ℕ → Text
unfolding has_suffix strip_inner index_byte
strip_argument col none = col
strip_argument col (some paren) =
    let arg = inner_of paren col in
    if has_suffix col (bytes ")")
    then strip_inner col (take paren col) arg (index_byte b'.' arg)
    else col

abbrev is_before : ℕ → Option ℕ → Bool
is_before i none = true
is_before i (some j) = ltb i j

unfoldable pub strip_table_alias : Text → Text
unfolding index_byte decimal_at strip_argument
strip_table_alias col =
    let paren = index_byte b'(' col in
    elim (index_byte b'.' col) [
      | none ↦ strip_argument col paren
      | some i ↦
          if decimal_at col i
          then col
          else if is_before i paren
          then drop (i + 1) col
          else strip_argument col paren
    ]

unfoldable pub is_ident_start : ℕ → Bool
is_ident_start c = eqb c b'_' || (leb b'a' c && leb c b'z' || leb b'A' c && leb c b'Z')

unfoldable pub is_ident_token : Text → Bool
unfolding is_ident_start
is_ident_token [] = false
is_ident_token (c ∷ s) =
    is_ident_start c && all (λ d. eqb d b'_' || (leb b'0' d && leb d b'9' || is_ident_start d)) s

-- The depth of parentheses and the paren quote behind a byte; 0 stands for no quote.
unfoldable pub depth_after : ℕ → ℕ → ℕ → ℕ
depth_after quote depth c =
    if not (eqb quote 0)
    then depth
    else if eqb c b'('
    then depth + 1
    else if eqb c b')'
    then depth - 1
    else depth

unfoldable pub quote_after : ℕ → ℕ → ℕ
quote_after quote c =
    if not (eqb quote 0)
    then (if eqb c quote then 0 else quote)
    else if eqb c b'\'' || (eqb c b'"' || eqb c b'`')
    then c
    else 0

abbrev pub in_front : ℕ → Text × Text → Text × Text
in_front c parts = (c ∷ parts.0, parts.1)

-- What stands before the first comma outside of parentheses and quotes, and from it on.
unfoldable pub at_comma : ℕ → ℕ → Text → Option (Text × Text)
unfolding depth_after quote_after
at_comma quote depth [] = none
at_comma quote depth (c ∷ s) =
    let behind = at_comma (quote_after quote c) (depth_after quote depth c) s in
    if eqb quote 0 && (eqb depth 0 && eqb c b',')
    then some ([], c ∷ s)
    else Option.map (in_front c) behind

unfoldable pub split_first_arg : Text → Text × Text
unfolding at_comma trim_space
split_first_arg inner = elim (at_comma 0 0 inner) [
  | none ↦ (inner, [])
  | some parts ↦ (trim_space parts.0, parts.1)
]

unfoldable pub strip_at_dot : Text → Option ℕ → Text
unfolding is_ident_token is_ident_start
strip_at_dot arg none = arg
strip_at_dot arg (some i) = elim (get_elem? arg (i + 1)) [
  | none ↦ arg
  | some c ↦ if is_ident_token (take i arg) && is_ident_start c then drop (i + 1) arg else arg
]

unfoldable pub strip_first_arg_qualifier : Text → Text
unfolding strip_at_dot index_byte
strip_first_arg_qualifier arg = strip_at_dot arg (index_byte b'.' arg)

unfoldable pub normalize_call : Text → Text → Text → Text
unfolding split_first_arg strip_first_arg_qualifier
normalize_call head distinct inner =
    let (first, rest) = split_first_arg inner in
    head ++ (distinct ++ (strip_first_arg_qualifier first ++ (rest ++ bytes ")")))

unfoldable pub normalize_at_paren : Text → Option ℕ → Text
unfolding has_suffix normalize_call ◌==◌ to_upper trim_space
normalize_at_paren col none = col
normalize_at_paren col (some zero) = col
normalize_at_paren col (some (suc i)) =
    let head = take (suc i + 1) col in
    let inner = inner_of (suc i) col in
    let is_distinct = leb 9 (length inner) && to_upper (take 9 inner) == bytes "DISTINCT " in
    if not (has_suffix col (bytes ")"))
    then col
    else if is_distinct
    then normalize_call head (bytes "DISTINCT ") (trim_space (drop 9 inner))
    else normalize_call head [] inner

unfoldable pub normalize_func_column_key : Text → Text
unfolding normalize_at_paren index_byte
normalize_func_column_key col = normalize_at_paren col (index_byte b'(' col)

-- A name of a call: a parenthesis behind something without a point, and one at the end.
abbrev pub is_call_key : Text → Option ℕ → Bool
unfolding has_suffix
is_call_key col none = false
is_call_key col (some i) =
    ltb 0 i && (not (has_byte b'.' (take i col)) && has_suffix col (bytes ")"))

unfoldable pub unqualified : List JoinClause → Text → Option ℕ → Text
unfolding ◌==◌
unqualified joins col none = col
unqualified joins col (some i) =
    let prefix = take i col in
    let is_right =
      any (λ (j : JoinClause). prefix == j.right_alias || prefix == j.right_table) joins in
    if eqb i 0 || is_right then col else drop (i + 1) col

unfoldable pub project_column_key : List JoinClause → Text → Text
unfolding normalize_func_column_key unqualified index_byte has_suffix
project_column_key joins col =
    if is_call_key col (index_byte b'(' col)
    then normalize_func_column_key col
    else unqualified joins col (index_byte b'.' col)

abbrev first_stripped : List Text → Text
unfolding strip_table_alias
first_stripped [] = []
first_stripped (a ∷ args) = strip_table_alias a

unfoldable pub window_result_key : WindowExpr → Text
unfolding ◌==◌ strip_table_alias
window_result_key w =
    if w.result_key == []
    then w.func_name ++ b'(' ∷ (first_stripped w.args ++ bytes ")")
    else w.result_key

abbrev up_to_comma : Text → Text
unfolding index_byte trim_space
up_to_comma inner = elim (index_byte b',' inner) [
  | none ↦ inner
  | some i ↦ trim_space (take i inner)
]

-- The arguments of the first aggregate with the name and the first argument of the call.
unfoldable pub recorded_args : Text → Text → List AggregateExpr → Option (List Text)
unfolding ◌==◌ index_byte trim_space
recorded_args func_name inner [] = none
recorded_args func_name inner (a ∷ rest) =
    if a.func_name == func_name && (a.column == inner || a.column == up_to_comma inner)
    then some a.args
    else recorded_args func_name inner rest

unfoldable pub written_args : Text → List Text
unfolding ◌==◌ split trim_space has_prefix
written_args inner =
    let text = if has_prefix inner (bytes "DISTINCT ") then drop 9 inner else inner in
    if text == bytes "*" || text == []
    then []
    else if has_byte b',' text
    then map trim_space (split b',' text)
    else text ∷ []

unfoldable pub is_scalar : Option FuncDef → Bool
is_scalar none = false
is_scalar (some fn) = elim fn.type [
  | func_scalar ↦ true
  | func_aggregate ↦ false
  | func_window ↦ false
]

unfoldable pub call_expr : Text → Text → List AggregateExpr → Expression
unfolding recorded_args written_args
call_expr func_name inner aggregates = elim (recorded_args func_name inner aggregates) [
  | none ↦ func_call func_name (written_args inner)
  | some args ↦ func_call func_name args
]

unfoldable pub make_func_call_expr : Registry → List AggregateExpr → Text → Expression
unfolding lookup_func is_scalar call_expr index_byte has_suffix to_upper
make_func_call_expr builtins aggregates col = elim (index_byte b'(' col) [
  | none ↦ nil
  | some i ↦
      let func_name = to_upper (take i col) in
      if ltb 0 i && (has_suffix col (bytes ")") && is_scalar (lookup_func builtins func_name))
      then call_expr func_name (inner_of i col) aggregates
      else nil
]
