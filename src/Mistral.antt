-- ===== src/Mistral.antt =====
-- src/infrastructure/mistral-shared.ts, mistral-ocr-client.ts and mistral-client.ts: the clients of
-- the provider's OCR and chat completions. The provider's answers, the clock and the signals'
-- firing are inputs of each attempt.
pub mod Settings
pub mod Retry
pub mod Ocr
pub mod Completion
mod Examples
