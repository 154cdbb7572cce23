-- ===== src/Graph.antt =====
-- The package graph: the shared state of a run, the builder, the compiler and the scheduler.
pub mod State
pub mod Builder
pub mod Topo
pub mod Scheduler
