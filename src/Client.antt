-- ===== src/Client.antt =====
-- client/: the interface of LLM clients and its implementations.
pub mod Base
pub mod Mock
pub mod Anthropic
