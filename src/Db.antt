-- ===== src/Db.antt =====
-- cloud-backend/pkg/db: the state plane.
pub mod Store
pub mod Memory
pub mod Tables
pub mod Rows
pub mod Postgres
pub mod Cache
pub mod Redis
