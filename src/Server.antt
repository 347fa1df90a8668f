-- ===== src/Server.antt =====
-- The crate core-rs/crates/nc-server, as far as it is modelled.
pub mod ClientIdentity
pub mod Maintenance
pub mod Routes
pub mod AuthCheck
pub mod Stack
