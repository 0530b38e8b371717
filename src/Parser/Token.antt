-- ===== src/Parser/Token.antt =====
-- pkg/parser/parser.go: token types, tokens, keywords and the names that error messages use.
use gsql.Common.{ℕ, Bool, [], ◌∷◌, ◌++◌, eqb}
use gsql.Text.{Text, bytes, itoa, to_upper}
use gsql.Map.{Map}

pub data TokenType : Type 0 where
  illegal eof ident string number asterisk comma lparen rparen equal not_equal lt gt : TokenType
  lte gte like semicolon create table with as_kw insert overwrite select from where_kw : TokenType
  order by limit and or group having dot join on is null_keyword not in_keyword : TokenType
  distinct plus minus div pipepipe external over partition into union case_kw when_kw : TokenType
  then_kw else_kw end_kw exists_kw values explain cast_kw rows_kw range_kw between_kw : TokenType
  unbounded_kw preceding_kw following_kw current_kw lateral_kw view_kw outer_kw left_kw : TokenType
  right_kw full_kw semi_kw cross_kw window_kw : TokenType

-- `int(t)`
unfoldable pub ord : TokenType → ℕ
ord TokenType.illegal = 0
ord TokenType.eof = 1
ord TokenType.ident = 2
ord TokenType.string = 3
ord TokenType.number = 4
ord TokenType.asterisk = 5
ord TokenType.comma = 6
ord TokenType.lparen = 7
ord TokenType.rparen = 8
ord TokenType.equal = 9
ord TokenType.not_equal = 10
ord TokenType.lt = 11
ord TokenType.gt = 12
ord TokenType.lte = 13
ord TokenType.gte = 14
ord TokenType.like = 15
ord TokenType.semicolon = 16
ord TokenType.create = 17
ord TokenType.table = 18
ord TokenType.with = 19
ord TokenType.as_kw = 20
ord TokenType.insert = 21
ord TokenType.overwrite = 22
ord TokenType.select = 23
ord TokenType.from = 24
ord TokenType.where_kw = 25
ord TokenType.order = 26
ord TokenType.by = 27
ord TokenType.limit = 28
ord TokenType.and = 29
ord TokenType.or = 30
ord TokenType.group = 31
ord TokenType.having = 32
ord TokenType.dot = 33
ord TokenType.join = 34
ord TokenType.on = 35
ord TokenType.is = 36
ord TokenType.null_keyword = 37
ord TokenType.not = 38
ord TokenType.in_keyword = 39
ord TokenType.distinct = 40
ord TokenType.plus = 41
ord TokenType.minus = 42
ord TokenType.div = 43
ord TokenType.pipepipe = 44
ord TokenType.external = 45
ord TokenType.over = 46
ord TokenType.partition = 47
ord TokenType.into = 48
ord TokenType.union = 49
ord TokenType.case_kw = 50
ord TokenType.when_kw = 51
ord TokenType.then_kw = 52
ord TokenType.else_kw = 53
ord TokenType.end_kw = 54
ord TokenType.exists_kw = 55
ord TokenType.values = 56
ord TokenType.explain = 57
ord TokenType.cast_kw = 58
ord TokenType.rows_kw = 59
ord TokenType.range_kw = 60
ord TokenType.between_kw = 61
ord TokenType.unbounded_kw = 62
ord TokenType.preceding_kw = 63
ord TokenType.following_kw = 64
ord TokenType.current_kw = 65
ord TokenType.lateral_kw = 66
ord TokenType.view_kw = 67
ord TokenType.outer_kw = 68
ord TokenType.left_kw = 69
ord TokenType.right_kw = 70
ord TokenType.full_kw = 71
ord TokenType.semi_kw = 72
ord TokenType.cross_kw = 73
ord TokenType.window_kw = 74

-- `t == u`
unfoldable pub same_type : TokenType → TokenType → Bool
unfolding ord
same_type t u = eqb (ord t) (ord u)

pub record Token : Type 0 where
  pub type : TokenType
  pub literal : Text
  pub pos : ℕ

-- The map `keywords`
abbrev pub keywords : Map TokenType
keywords =
    (bytes "create", TokenType.create)
    ∷ (bytes "table", TokenType.table)
    ∷ (bytes "with", TokenType.with)
    ∷ (bytes "as", TokenType.as_kw)
    ∷ (bytes "insert", TokenType.insert)
    ∷ (bytes "overwrite", TokenType.overwrite)
    ∷ (bytes "select", TokenType.select)
    ∷ (bytes "from", TokenType.from)
    ∷ (bytes "where", TokenType.where_kw)
    ∷ (bytes "order", TokenType.order)
    ∷ (bytes "by", TokenType.by)
    ∷ (bytes "limit", TokenType.limit)
    ∷ (bytes "like", TokenType.like)
    ∷ (bytes "and", TokenType.and)
    ∷ (bytes "or", TokenType.or)
    ∷ (bytes "group", TokenType.group)
    ∷ (bytes "having", TokenType.having)
    ∷ (bytes "join", TokenType.join)
    ∷ (bytes "on", TokenType.on)
    ∷ (bytes "is", TokenType.is)
    ∷ (bytes "null", TokenType.null_keyword)
    ∷ (bytes "not", TokenType.not)
    ∷ (bytes "in", TokenType.in_keyword)
    ∷ (bytes "distinct", TokenType.distinct)
    ∷ (bytes "external", TokenType.external)
    ∷ (bytes "over", TokenType.over)
    ∷ (bytes "partition", TokenType.partition)
    ∷ (bytes "into", TokenType.into)
    ∷ (bytes "union", TokenType.union)
    ∷ (bytes "case", TokenType.case_kw)
    ∷ (bytes "when", TokenType.when_kw)
    ∷ (bytes "then", TokenType.then_kw)
    ∷ (bytes "else", TokenType.else_kw)
    ∷ (bytes "end", TokenType.end_kw)
    ∷ (bytes "exists", TokenType.exists_kw)
    ∷ (bytes "values", TokenType.values)
    ∷ (bytes "explain", TokenType.explain)
    ∷ (bytes "cast", TokenType.cast_kw)
    ∷ (bytes "rows", TokenType.rows_kw)
    ∷ (bytes "range", TokenType.range_kw)
    ∷ (bytes "between", TokenType.between_kw)
    ∷ (bytes "unbounded", TokenType.unbounded_kw)
    ∷ (bytes "preceding", TokenType.preceding_kw)
    ∷ (bytes "following", TokenType.following_kw)
    ∷ (bytes "current", TokenType.current_kw)
    ∷ (bytes "lateral", TokenType.lateral_kw)
    ∷ (bytes "view", TokenType.view_kw)
    ∷ (bytes "left", TokenType.left_kw)
    ∷ (bytes "right", TokenType.right_kw)
    ∷ (bytes "full", TokenType.full_kw)
    ∷ (bytes "semi", TokenType.semi_kw)
    ∷ (bytes "cross", TokenType.cross_kw)
    ∷ (bytes "outer", TokenType.outer_kw)
    ∷ (bytes "window", TokenType.window_kw)
    ∷ []

-- TokenType.String
unfoldable pub string_of : TokenType → Text
string_of TokenType.create = bytes "CREATE"
string_of TokenType.external = bytes "EXTERNAL"
string_of TokenType.over = bytes "OVER"
string_of TokenType.partition = bytes "PARTITION"
string_of TokenType.table = bytes "TABLE"
string_of TokenType.with = bytes "WITH"
string_of TokenType.as_kw = bytes "AS"
string_of TokenType.insert = bytes "INSERT"
string_of TokenType.overwrite = bytes "OVERWRITE"
string_of TokenType.select = bytes "SELECT"
string_of TokenType.from = bytes "FROM"
string_of TokenType.where_kw = bytes "WHERE"
string_of TokenType.order = bytes "ORDER"
string_of TokenType.by = bytes "BY"
string_of TokenType.limit = bytes "LIMIT"
string_of TokenType.like = bytes "LIKE"
string_of TokenType.dot = bytes "."
string_of TokenType.join = bytes "JOIN"
string_of TokenType.on = bytes "ON"
string_of TokenType.and = bytes "AND"
string_of TokenType.or = bytes "OR"
string_of TokenType.group = bytes "GROUP"
string_of TokenType.is = bytes "IS"
string_of TokenType.null_keyword = bytes "NULL"
string_of TokenType.not = bytes "NOT"
string_of TokenType.in_keyword = bytes "IN"
string_of TokenType.distinct = bytes "DISTINCT"
string_of TokenType.union = bytes "UNION"
string_of TokenType.case_kw = bytes "CASE"
string_of TokenType.when_kw = bytes "WHEN"
string_of TokenType.then_kw = bytes "THEN"
string_of TokenType.else_kw = bytes "ELSE"
string_of TokenType.end_kw = bytes "END"
string_of TokenType.exists_kw = bytes "EXISTS"
string_of TokenType.values = bytes "VALUES"
string_of TokenType.having = bytes "HAVING"
string_of TokenType.explain = bytes "EXPLAIN"
string_of TokenType.cast_kw = bytes "CAST"
string_of TokenType.rows_kw = bytes "ROWS"
string_of TokenType.range_kw = bytes "RANGE"
string_of TokenType.between_kw = bytes "BETWEEN"
string_of TokenType.unbounded_kw = bytes "UNBOUNDED"
string_of TokenType.preceding_kw = bytes "PRECEDING"
string_of TokenType.following_kw = bytes "FOLLOWING"
string_of TokenType.current_kw = bytes "CURRENT"
string_of TokenType.lateral_kw = bytes "LATERAL"
string_of TokenType.view_kw = bytes "VIEW"
string_of TokenType.outer_kw = bytes "OUTER"
string_of TokenType.left_kw = bytes "LEFT"
string_of TokenType.right_kw = bytes "RIGHT"
string_of TokenType.full_kw = bytes "FULL"
string_of TokenType.semi_kw = bytes "SEMI"
string_of TokenType.cross_kw = bytes "CROSS"
string_of TokenType.window_kw = bytes "WINDOW"
string_of TokenType.pipepipe = bytes "||"
string_of _ = []

-- `tokenName` on the names that `String` has, and on the others.
named : TokenType → Text → Text
named t [] = bytes "TOKEN_" ++ itoa (ord t)
named t (c ∷ s) = c ∷ s

unfoldable pub token_name : TokenType → Text
unfolding string_of named ord
token_name TokenType.illegal = bytes "ILLEGAL"
token_name TokenType.eof = bytes "EOF"
token_name TokenType.ident = bytes "IDENT"
token_name TokenType.string = bytes "STRING"
token_name TokenType.number = bytes "NUMBER"
token_name TokenType.asterisk = bytes "*"
token_name TokenType.comma = bytes ","
token_name TokenType.lparen = bytes "("
token_name TokenType.rparen = bytes ")"
token_name TokenType.equal = bytes "="
token_name TokenType.not_equal = bytes "!="
token_name TokenType.lt = bytes "<"
token_name TokenType.gt = bytes ">"
token_name TokenType.lte = bytes "<="
token_name TokenType.gte = bytes ">="
token_name TokenType.like = bytes "LIKE"
token_name TokenType.and = bytes "AND"
token_name TokenType.or = bytes "OR"
token_name TokenType.dot = bytes "."
token_name TokenType.join = bytes "JOIN"
token_name TokenType.on = bytes "ON"
token_name TokenType.group = bytes "GROUP"
token_name TokenType.having = bytes "HAVING"
token_name TokenType.semicolon = bytes ";"
token_name TokenType.create = to_upper (string_of TokenType.create)
token_name TokenType.table = to_upper (string_of TokenType.table)
token_name TokenType.with = to_upper (string_of TokenType.with)
token_name TokenType.as_kw = to_upper (string_of TokenType.as_kw)
token_name TokenType.insert = to_upper (string_of TokenType.insert)
token_name TokenType.overwrite = to_upper (string_of TokenType.overwrite)
token_name TokenType.select = to_upper (string_of TokenType.select)
token_name TokenType.from = to_upper (string_of TokenType.from)
token_name TokenType.where_kw = to_upper (string_of TokenType.where_kw)
token_name TokenType.order = to_upper (string_of TokenType.order)
token_name TokenType.by = to_upper (string_of TokenType.by)
token_name TokenType.limit = to_upper (string_of TokenType.limit)
token_name TokenType.is = to_upper (string_of TokenType.is)
token_name TokenType.null_keyword = to_upper (string_of TokenType.null_keyword)
token_name TokenType.not = to_upper (string_of TokenType.not)
token_name TokenType.in_keyword = to_upper (string_of TokenType.in_keyword)
token_name TokenType.distinct = to_upper (string_of TokenType.distinct)
token_name TokenType.external = to_upper (string_of TokenType.external)
token_name TokenType.over = to_upper (string_of TokenType.over)
token_name TokenType.partition = to_upper (string_of TokenType.partition)
token_name TokenType.values = to_upper (string_of TokenType.values)
token_name TokenType.minus = to_upper (string_of TokenType.minus)
token_name TokenType.plus = to_upper (string_of TokenType.plus)
token_name TokenType.div = to_upper (string_of TokenType.div)
token_name TokenType.pipepipe = to_upper (string_of TokenType.pipepipe)
token_name TokenType.union = to_upper (string_of TokenType.union)
token_name TokenType.case_kw = to_upper (string_of TokenType.case_kw)
token_name TokenType.when_kw = to_upper (string_of TokenType.when_kw)
token_name TokenType.then_kw = to_upper (string_of TokenType.then_kw)
token_name TokenType.else_kw = to_upper (string_of TokenType.else_kw)
token_name TokenType.end_kw = to_upper (string_of TokenType.end_kw)
token_name TokenType.exists_kw = to_upper (string_of TokenType.exists_kw)
token_name TokenType.left_kw = to_upper (string_of TokenType.left_kw)
token_name TokenType.right_kw = to_upper (string_of TokenType.right_kw)
token_name TokenType.full_kw = to_upper (string_of TokenType.full_kw)
token_name TokenType.semi_kw = to_upper (string_of TokenType.semi_kw)
token_name TokenType.cross_kw = to_upper (string_of TokenType.cross_kw)
token_name t = named t (string_of t)
