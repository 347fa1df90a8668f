-- ===== src/Db.antt =====
-- The crate core-rs/crates/nc-db, as far as it is modelled.
pub mod AppConfig
pub mod Filename
pub mod Mime
pub mod PhpConfig
