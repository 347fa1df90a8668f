-- ===== src/Dav.antt =====
-- The crate core-rs/crates/nc-dav, as far as it is modelled.
pub mod Percent
pub mod Paths
pub mod Quota
pub mod Mtime
pub mod Directories
pub mod Propagator
pub mod Multipart
pub mod Rekey
pub mod Checksum
pub mod Upload
pub mod Permissions
