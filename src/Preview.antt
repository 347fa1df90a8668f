-- ===== src/Preview.antt =====
-- The crate core-rs/crates/nc-preview, as far as it is modelled.
pub mod Snowflake
pub mod Coalescer
pub mod Store
pub mod Persist
