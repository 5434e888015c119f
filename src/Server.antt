-- ===== src/Server.antt =====
-- internal/server: the broadcaster of events to SSE clients, and the runs.
pub mod Broadcast
pub mod Runs
