-- ===== src/Plan.antt =====
-- pkg/plan: expressions, the logical plan and its optimizer, and the physical operators.
pub mod Row
pub mod Builtin
pub mod Arg
pub mod Eval
pub mod Partition
pub mod Logical
pub mod Optimizer
pub mod Iter
pub mod Join
pub mod Sort
pub mod Aggregate
pub mod Window
pub mod JoinDefaults
pub mod Physical
pub mod Columns
pub mod LateralView
