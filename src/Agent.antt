-- ===== src/Agent.antt =====
-- internal/agent: the loop detector, the messages, the registry of tools and the session.
pub mod Detector
pub mod Message
pub mod Tool
pub mod Session
