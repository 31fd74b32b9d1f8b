-- ===== src/Gateway.antt =====
-- cloud-gateway: the data plane, which knows where each instance is.
pub mod Tunnel
pub mod Registry
pub mod Forward
pub mod Routes
pub mod Client
