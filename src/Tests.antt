-- ===== src/Tests.antt =====
-- Test data and the theorems applied to it.
pub mod Samples
pub mod Lifecycle
pub mod Delivery
pub mod Registry
pub mod Scheduling
pub mod Traces
pub mod Records
pub mod Locks
pub mod Graphs
pub mod Moves
pub mod Blockers
pub mod Routing
