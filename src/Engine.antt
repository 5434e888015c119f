-- ===== src/Engine.antt =====
-- internal/attractor/engine.go: the run of a pipeline, from its text to its end.
pub mod State
pub mod Gates
pub mod Node
pub mod Step
pub mod Bound
pub mod History
pub mod Targets
pub mod Parts
pub mod Lands
pub mod Finish
pub mod Lifecycle
pub mod Saved
