-- ===== src/Engine.antt =====
-- cloud-backend/pkg/agentengine: the agent engines and their configuration.
pub mod Files
pub mod Headline
pub mod Chunks
pub mod Config
pub mod Json
pub mod Acp
pub mod Qwenpaw
