-- ===== src/Dot.antt =====
-- The DOT reader (internal/attractor/dot).
pub mod Token
pub mod Scan
pub mod Lexer
pub mod Parser
