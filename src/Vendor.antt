-- ===== src/Vendor.antt =====
-- server/internal/relay/channel: how requests, answers and streams are turned from one vendor's form into another's.
pub mod Chat
pub mod Claude
pub mod Sse
pub mod ClaudeEvents
pub mod Parts
pub mod Options
pub mod ToClaude
pub mod ChatStream
pub mod FromClaude
pub mod Answer
pub mod ModelName
pub mod GeminiParts
pub mod GeminiEvents
pub mod OpenaiParts
pub mod ToOpenai
