-- ===== src/Engine.antt =====
-- pkg/engine/engine.go: from a query to its logical plan.
pub mod Columns
pub mod KeyType
pub mod Plan
pub mod Project
pub mod Build
pub mod Rows
pub mod Insert
pub mod Execute
pub mod Statement
pub mod Names
