-- ===== src/Server.antt =====
-- cloud-backend/pkg/apiserver/controlplane: the HTTP layer of the control plane.
pub mod Auth
pub mod Connections
pub mod Handlers
pub mod Sockets
