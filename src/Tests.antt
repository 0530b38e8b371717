-- ===== src/Tests.antt =====
-- Runs of the model at concrete inputs, and the theorems at inputs that meet their hypotheses.
mod Data
mod Partition
mod Join
mod Plan
mod Catalog
mod Columns
mod Parser
mod Engine
