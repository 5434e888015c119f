-- ===== src/Llm/Provider.antt =====
-- internal/llm/provider: the adapter of the Anthropic API.
pub mod Wire
pub mod Anthropic
