-- ===== src/Handlers.antt =====
-- internal/attractor/handler: what the handlers decide, apart from the goroutines and the JSON.
pub mod Join
pub mod FanIn
pub mod Basic
pub mod ManagerLoop
