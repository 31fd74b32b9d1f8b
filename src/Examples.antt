-- ===== src/Examples.antt =====
-- Runs of the modelled code on concrete inputs.
pub mod Setup
pub mod Managers
pub mod Servers
pub mod Sandboxes
pub mod Daemons
pub mod Reading
pub mod Vouching
pub mod Caches
pub mod Scans
pub mod Relays
pub mod Files
pub mod Encoding
pub mod Requests
pub mod Instances
pub mod Transits
pub mod Kernel
pub mod Machines
pub mod Tables
pub mod Findings
pub mod Postgres
