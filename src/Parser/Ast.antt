-- ===== src/Parser/Ast.antt =====
-- pkg/parser/ast.go: statements, expressions and queries. `nil` is the nil interface value of
-- `Expression` and `no_query` the nil pointer to a query. The slices of expressions, branches and
-- common table expressions are types of the same block.
use gsql.Common.{Bool, Option, List, if◌then◌else◌}
use gsql.Common.Int.{ℤ}
use gsql.Text.{Text, bytes}
use gsql.Map.{Map}

pub record ColumnDef : Type 0 where
  pub name : Text
  pub type : Text
  pub default : Text
  pub has_default : Bool

pub record CreateTableStmt : Type 0 where
  pub name : Text
  pub columns : List ColumnDef
  pub with_options : Map Text
  pub external : Bool
  pub partition_by : List Text

pub record AggregateExpr : Type 0 where
  pub func_name : Text
  pub column : Text
  pub args : List Text
  pub distinct : Bool

pub record JoinClause : Type 0 where
  pub right_table : Text
  pub right_alias : Text
  pub left_column : Text
  pub right_column : Text
  pub join_type : Text

pub record SortOrder : Type 0 where
  pub column : Text
  pub desc : Bool

-- `unset` is the zero value "".
pub data WindowFrameBound : Type 0 where
  unset unbounded_preceding n_preceding current_row n_following unbounded_following :
      WindowFrameBound

pub data WindowFrameType : Type 0 where
  unset frame_rows frame_range : WindowFrameType

pub record WindowFrameBoundary : Type 0 where
  pub bound_type : WindowFrameBound
  pub n : ℤ

pub record WindowFrame : Type 0 where
  pub frame_type : WindowFrameType
  pub start : WindowFrameBoundary
  pub end : WindowFrameBoundary
  pub order_by : Text

pub record WindowExpr : Type 0 where
  pub func_name : Text
  pub args : List Text
  pub partition_by : List Text
  pub order_by : List SortOrder
  pub frame : Option WindowFrame
  pub window_ref : Text
  pub result_key : Text

pub record LateralView : Type 0 where
  pub is_outer : Bool
  pub func_name : Text
  pub args : List Text
  pub table_name : Text
  pub col_names : List Text

mutual
  -- comparison: column, operator, value, right column, computed expression.
  -- in_expr: column, whether negated, values, subquery.
  pub data Expression : Type 0 where
    nil : Expression
    comparison : Text → Text → Text → Text → Expression → Expression
    logical : Expression → Text → Expression → Expression
    null_test : Text → Bool → Expression
    in_expr : Text → Bool → List Text → SelectQuery → Expression
    exists_expr : Bool → SelectQuery → Expression
    binary : Expression → Text → Expression → Expression
    column_ref : Text → Expression
    case_expr : Branches → Expression → Expression
    literal : Text → Expression
    func_call : Text → List Text → Expression
    window : WindowExpr → Expression

  pub data Branches : Type 0 where
    no_branch : Branches
    branch : Expression → Expression → Branches → Branches

  pub data Expressions : Type 0 where
    no_expr : Expressions
    expr : Expression → Expressions → Expressions

  pub data Ctes : Type 0 where
    no_cte : Ctes
    cte : Text → SelectQuery → Ctes → Ctes

  pub data SelectQuery : Type 0 where
    no_query : SelectQuery
    select_query :
        (ctes : Ctes) (columns : List Text) (column_exprs : Expressions) (distinct : Bool)
        (table table_alias : Text) (from_subquery : SelectQuery) (from_alias : Text)
        (from_values : Option (List (List Text))) (from_values_cols : List Text)
        (joins : List JoinClause) (where_expr : Expression) (group_by : List Text)
        (having : Expression) (order_by : List SortOrder) (limit : ℤ) (has_limit : Bool)
        (aggregates : List AggregateExpr) (window_exprs : List WindowExpr)
        (column_aliases : Map Text) (union_query : SelectQuery) (union_all : Bool)
        (lateral_views : List LateralView)
        → SelectQuery

pub data Statement : Type 0 where
  create_table : CreateTableStmt → Statement
  insert_overwrite : Text → SelectQuery → Option (List (List Text)) → Bool → Statement
  select : SelectQuery → Statement
  explain : SelectQuery → Statement

unfoldable pub statement_name : Statement → Text
statement_name (create_table c) =
    if c.external then bytes "CREATE_EXTERNAL_TABLE" else bytes "CREATE_TABLE"
statement_name (insert_overwrite t q v appending) =
    if appending then bytes "INSERT_INTO" else bytes "INSERT_OVERWRITE"
statement_name (select q) = bytes "SELECT"
statement_name (explain q) = bytes "EXPLAIN"
