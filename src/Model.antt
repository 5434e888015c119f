-- ===== src/Model.antt =====
-- The graph that a pipeline is (internal/attractor/model).
pub mod Graph
pub mod Attrs
