-- ===== src/Llm.antt =====
-- internal/llm: the calls of language models.
pub mod MaxTokens
