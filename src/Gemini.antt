-- ===== src/Gemini.antt =====
-- sdk/examples/gemini/protocol.js: the plugin that translates between OpenAI chat completions and
-- Gemini's GenerateContent.
pub mod Contents
pub mod Responses
pub mod Requests
pub mod Failures
pub mod Tests
