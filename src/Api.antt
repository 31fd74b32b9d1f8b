-- ===== src/Api.antt =====
-- cloud-backend/pkg/api: what the HTTP layers share.
pub mod Bearer
