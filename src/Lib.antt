-- ===== src/Lib.antt =====
-- A model of gsql, an SQL engine over files: its parser (pkg/parser), the logical plan of a query
-- (pkg/engine), the execution of plans (pkg/plan), the catalog that they read (pkg/catalog) and the
-- partitioned tables below it (pkg/storage).
--
-- Parts and files
--   Common, Text, Map, Float, Result, Sort: Booleans, lists and integers on native numbers; Go
--     strings as lists of bytes; Go maps as association lists; float64 as a record of operations
--     that the definitions take as a parameter; errors; stable sorting, and the contract that
--     determines it. Common/Some and Text/Cut, Text/Order are lemmas on lists and strings.
--   Parser/Ast: the syntax tree (pkg/parser/ast.go), with nil as an expression of its own.
--   Parser/Token, Parser/Lexer: tokens and the lexer (pkg/parser/parser.go). Lexer/Moves is about the
--     bytes that each scan passes over, Lexer/Position about the end of the tokens, Lexer/Spelled
--     about words and strings.
--   Parser/State, Parser/Source: the parser's state with its errors, and the removal of comments.
--   Parser/Lists, CreateTable, Arithmetic, Expr, WindowSpec, SelectItems, From, Select, Statements:
--     the methods of Parser (pkg/parser/parser.go), in the order in which they call one another. A
--     call back to parseExpression, parseSelectQuery, parseArithmeticBinary or parseFuncArgs is a
--     field of a record that the file takes, and Statements ties the knot. Below them are the
--     trees of arithmetic, the ends of a query, an item that loses its FROM, and window frames.
--   Parser/Progress: why the recursion of the parser ends, with a file for each of those.
--   Catalog, Catalog/Create, Catalog/Url: tables, their creation and lookup, and the storage options
--     that a URL stands for (pkg/catalog/catalog.go).
--   Storage/Partition: partition filters and the rows of the selected files (pkg/storage/table.go).
--   Engine/KeyType, Engine/Columns: types of join keys, and names of columns and calls
--     (pkg/engine/engine.go).
--   Engine/Plan, Engine/Project, Engine/Build: buildLogicalPlan and the methods it calls in turn
--     (pkg/engine/engine.go), on a query whose subqueries in conditions have been resolved.
--     Build/Sources is about the tables read, Build/Grouping about the check of grouped queries,
--     Project/Keys about the columns that ORDER BY names.
--   Engine/Rows, Engine/Execute, Engine/Insert, Engine/Statement: executeSelectWithCTEs with the rows
--     behind a plan, INSERT and CREATE TABLE, and Execute (pkg/engine/engine.go). Rows/Entries
--     and Rows/Dedup are about UNION.
--   Plan/Row, Plan/Builtin, Plan/Arg, Plan/Eval: projectRowValue, compareValues, resolveFuncArg,
--     evaluateExpression and evaluateExpressionValue (pkg/plan/plan.go, pkg/plan/builtin.go).
--   Plan/Partition: extractPartitionFilters (pkg/plan/plan.go). Partition/Split is about the
--     predicate, Partition/Condition about the filters, Partition/Pruning about the rows read.
--   Plan/Logical, Plan/Optimizer: logical nodes and rules (pkg/plan/logical.go, optimizer.go).
--   Plan/Iter: row streams (pkg/plan/iter.go), as data: what the calls of Next return.
--   Plan/Join: the hash join (pkg/plan/join.go). Join/Hash is about one batch, Join/Pipeline has
--     the reader and the receiver of the parallel probe, Join/Arrival, Join/Order and
--     Join/Parallel are about the orders in which workers finish.
--   Plan/Sort, Plan/Aggregate, Plan/Window: sortRows, AggregateNode, computeWindowFunctions
--     (pkg/plan/plan.go). Rows that the input and the partitions of a window share are positions in
--     the input. Window/Frame has the frames. Sort/Kinds is about the order of rows.
--   Plan/LateralView: LateralViewExplodeNode and the Next of its iterator (pkg/plan/plan.go).
--   Plan/Columns: ColumnPruning (pkg/plan/optimizer.go). Columns/Collected and Columns/Pruned are about
--     the columns that an expression reads.
--   Plan/JoinDefaults: the defaults of a missing join side (pkg/plan/join_defaults.go).
--   Plan/Physical: LogicalToPhysical and the Iterate methods (pkg/plan/plan.go, iter.go, and
--     OpenTableIter of pkg/storage/rowiter.go). Physical/Compose gives the outcome of a plan from its
--     children's, Physical/Fusion compares the plans before and after optimising.
--   Tests: sample data, tests and the instances of the theorems.
--
-- How they interact: the parser reads the lexer's tokens and returns statements; the engine turns the
-- query of one into a logical plan, which is optimised and made a physical one; the evaluator reads
-- rows and calls the function registry; the plan reads a table through its partition filters; a join
-- takes two streams and returns one.
--
-- Choices
--   A range loop over a Go map visits entries in an unspecified order; the model visits the last
--   entry first, also where aliases are renamed and where IN takes one column of a row. sort.SliceStable
--   and sort.Strings are an insertion sort, which has their result for an order of the kind that they
--   ask for; sortRows on a column of numbers and other texts has no such order, and what it returns
--   there is the model's. Integers have no upper bound. Nested function calls in arguments and rules
--   that rebuild nodes recurse on fuel. Each window has a frame of its own, where the code writes the
--   order's column into the frame that windows of one name share. The rows of a table are an input
--   and have no error of their own: what opening and decoding a file in pkg/storage can fail with is
--   not in the model.
--   A concurrent probe is the list of its published results in their order of arrival, and the
--   receiver is a step function whose fuel is bounded by the rows and the batches in flight.
--   The lexer's state is the bytes from its position on, and the position. The lexer does not read
--   the parser, so a parser's state is the tokens from the current one on.
--   unicode.IsLetter and unicode.IsSpace are written out for a byte as a code point, and cases are
--   mapped for ASCII. A parser's loops and calls recurse on fuel, one more than the tokens.
--   The engine's functions recurse on the query. What a statement writes or prints is their result.
--
-- Not modelled: file systems and remote stores, database drivers, tunnels, the command line, printed
-- plans, and the functions of the registry, which are parameters.
pub mod Common
pub mod Text
pub mod Map
pub mod Float
pub mod Result
pub mod Sort
pub mod Catalog
pub mod Parser
pub mod Storage
pub mod Plan
mod Tests
pub mod Engine
