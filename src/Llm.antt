-- ===== src/Llm.antt =====
-- internal/llm: the messages, the errors, the retries, the client and the streams of the LLM SDK.
pub mod Message
pub mod Errors
pub mod Retry
pub mod Stream
pub mod Client
pub mod Provider
pub mod Sse
