-- ===== src/Validate.antt =====
-- internal/attractor/validate: the lint rules on a graph and their runner. A diagnostic's message
-- is kept as what it is printed from.
pub mod Diagnostic
pub mod Reach
pub mod Rules
pub mod Runner
pub mod Sound
