-- ===== src/Provider.antt =====
-- model/provider: what the clients of the two providers send and read.
pub mod Transport
pub mod Indices
pub mod Anthropic
pub mod OpenAi
