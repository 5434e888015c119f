-- ===== src/Fidelity.antt =====
-- internal/attractor/fidelity: the mode of a node, and the preamble that tells a model what ran.
pub mod Mode
