-- ===== src/Tests.antt =====
-- Runs of the model at concrete inputs, and the theorems at inputs that meet their hypotheses.
mod World
mod Dot
mod Engine
mod Lifecycle
mod Model
mod Handlers
mod Agent
mod Llm
mod Provider
mod Session
mod Server
mod Gate
mod Emitter
mod Runs
