-- ===== src/Examples.antt =====
-- Concrete runs of the modelled code, at which the theorems are applied.
pub mod Keyed
pub mod Merges
pub mod Operators
pub mod Concurrency
pub mod Parallel
pub mod Grouping
pub mod Effects
pub mod Collecting
pub mod Filters
pub mod Graphs
pub mod Groups
pub mod Resilience
pub mod Sets
pub mod State
pub mod Stores
