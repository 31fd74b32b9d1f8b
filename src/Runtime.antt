-- ===== src/Runtime.antt =====
-- cloud-backend/pkg/agentruntime: what runs in an instance, beside its agent engine.
pub mod Log
pub mod Session
pub mod Http
pub mod Socket
pub mod Daemon
