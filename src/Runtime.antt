-- ===== src/Runtime.antt =====
-- The mutable state of a run (internal/attractor/runtime).
pub mod Outcome
pub mod Context
pub mod Checkpoint
pub mod Retry
